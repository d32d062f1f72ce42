-- ===== src/Loop/Executor/Outcomes.antt =====
-- loop/executor.py: when each outcome is returned, and what a late answer hides.
use auto_trader_claude.Base.{
  ◌≡◌, refl, subst, String, Bool, true, false, Option, none, some, Outcome, ok, raised, Action,
  pure, ◌>>=◌, continue, not, ◌&&◌, if◌then◌else◌, arith,
}
use auto_trader_claude.Number.{Number}
use auto_trader_claude.Core.Types.{spot, futures, buy, sell, FillResult}
use auto_trader_claude.Gateways.Venue.{Gateway}
use auto_trader_claude.Loop.Executor.{
  EntryOutcome, success, rejected, single_leg_orphan_recovered, single_leg_orphan_naked,
  EntryResult, Fills, LegTiming, leg_accepted, roll_back, rolled_back, classify, collect,
  place_both, parallel_market_fok_entry, failed_fill,
}

-- The outcome that belongs to a spot leg, a perp leg and a rollback, each accepted or not.
abbrev pub expected : Bool → Bool → Bool → EntryOutcome
expected true true _ = success
expected false false _ = rejected
expected true false true = single_leg_orphan_recovered
expected true false false = single_leg_orphan_naked
expected false true true = single_leg_orphan_recovered
expected false true false = single_leg_orphan_naked

abbrev pub differ : Bool → Bool → Bool
differ a b = if a then not b else b

abbrev is_placed : {X : Type 0} → Option X → Bool
is_placed none = false
is_placed (some _) = true

module _ {A : Type 0} where
  pub record IsClassified (r : EntryResult A) : Type 0 where
    pub as_expected :
        r.outcome
        ≡ expected
            (leg_accepted r.spot_fill)
            (leg_accepted r.perp_fill)
            (leg_accepted r.rollback_fill)
    pub rollback_of_one_leg :
        is_placed r.rollback_fill ≡ differ (leg_accepted r.spot_fill) (leg_accepted r.perp_fill)

-- What holds of a value that was returned.
abbrev pub OnOk : {X : Type 0} → (X → Type 0) → Outcome X → Type 0
OnOk P (ok x) = P x
OnOk P (raised e) = Unit

pub OnOk-ok : {X : Type 0} (P : X → Type 0) (r : Outcome X) (x : X) → OnOk P r → r ≡ ok x → P x
OnOk-ok P r x h e = subst (OnOk P) e h

pub record Returning {S X : Type 0} (P : X → Type 0) (m : Action S X) : Type 0 where
  pub at : (s : S) → OnOk P (m s).0

continue-OnOk :
    {S X Y : Type 0} (P : Y → Type 0) (r : Outcome X) (f : X → Action S Y) (s : S)
    → ((x : X) → Returning P (f x))
    → OnOk P (continue r f s).0
continue-OnOk P (ok x) f s h = (h x).at s
continue-OnOk P (raised e) f s h = tt

module _ {S X Y : Type 0} where
  pub Returning-bind :
      {P : Y → Type 0} (m : Action S X) {f : X → Action S Y}
      → ((x : X) → Returning P (f x))
      → Returning P (m >>= f)
  unfolding ◌>>=◌
  Returning-bind {P = P} m {f = f} h = record { at = λ s. continue-OnOk P (m s).0 f (m s).1 h }

pub Returning-pure : {S X : Type 0} {P : X → Type 0} (x : X) → P x → Returning {S = S} P (pure x)
unfolding pure
Returning-pure x p = record { at = λ s. p }

pub Returning-if :
    {S X : Type 0} {P : X → Type 0} (b : Bool) {m k : Action S X}
    → (b ≡ true → Returning P m)
    → (b ≡ false → Returning P k)
    → Returning P (if b then m else k)
Returning-if true p q = p refl
Returning-if false p q = q refl

module _ {A : Type 0} ⦃n : Number A⦄ where
  rolled_back-IsClassified :
      (fills : Fills A) (rollback : FillResult A)
      → differ (leg_accepted fills.spot_fill) (leg_accepted fills.perp_fill) ≡ true
      → IsClassified (rolled_back fills rollback)
  rolled_back-IsClassified fills rollback h = record {
    as_expected = ground (arith, h);
    rollback_of_one_leg = ground (arith, h);
  }

  -- what an entry reports when neither answer arrives in time
  abbrev pub timed_out : String → String → String → String → EntryResult A
  timed_out spot_symbol perp_symbol spot_coid perp_coid = record {
    outcome = rejected;
    spot_fill = some (failed_fill spot_symbol spot buy "leg_timeout" spot_coid);
    perp_fill = some (failed_fill perp_symbol futures sell "leg_timeout" perp_coid);
    rollback_fill = none;
    reason = "fok_rejected:spot:leg_timeout+perp:leg_timeout";
  }

  module _ {G : Type 0} ⦃gateway : Gateway A G⦄ where
    roll_back-Returning :
        (fills : Fills A) (filled : FillResult A)
        → differ (leg_accepted fills.spot_fill) (leg_accepted fills.perp_fill) ≡ true
        → Returning {S = G} IsClassified (roll_back fills filled)
    unfolding roll_back
    roll_back-Returning fills filled h =
        Returning-bind _ (λ rollback. Returning-pure _ (rolled_back-IsClassified fills rollback h))

    classify-Returning :
        (s p : Option (FillResult A))
        → Returning {S = G} IsClassified (classify (record { spot_fill = s; perp_fill = p }) s p)
    unfolding classify
    classify-Returning (some s) (some p) =
        Returning-if (s.accepted && p.accepted)
          (λ e.
            Returning-pure _
              (record { as_expected = ground (arith, e); rollback_of_one_leg = ground (arith, e) }))
          (λ e.
            Returning-if (not s.accepted && not p.accepted)
              (λ e2. Returning-pure _ (record {
                as_expected = ground (arith, e, e2);
                rollback_of_one_leg = ground (arith, e, e2);
              }))
              (λ e2. roll_back-Returning _ (if s.accepted then s else p) (ground (arith, e, e2))))
    classify-Returning (some s) none =
        Returning-if (not s.accepted)
          (λ e.
            Returning-pure _
              (record { as_expected = ground (arith, e); rollback_of_one_leg = ground (arith, e) }))
          (λ e. roll_back-Returning _ s (ground (arith, e)))
    classify-Returning none (some p) =
        Returning-if (not p.accepted)
          (λ e.
            Returning-pure _
              (record { as_expected = ground (arith, e); rollback_of_one_leg = ground (arith, e) }))
          (λ e. roll_back-Returning _ p (ground (arith, e)))
    classify-Returning none none =
        Returning-pure _ (record { as_expected = refl; rollback_of_one_leg = refl })

    -- Whenever an entry returns, its outcome is the one that belongs to the two legs and the
    -- rollback that it reports, and it reports a rollback exactly when one leg of the two filled.
    pub parallel_market_fok_entry-IsClassified :
        (timing : LegTiming) (spot_symbol perp_symbol : String) (qty : A)
        (spot_coid perp_coid : String) (g : G) (r : EntryResult A)
        → (parallel_market_fok_entry timing spot_symbol perp_symbol qty spot_coid perp_coid g).0
          ≡ ok r
        → IsClassified r
    unfolding parallel_market_fok_entry
    parallel_market_fok_entry-IsClassified timing spot_symbol perp_symbol qty spot_coid perp_coid g
          r h =
        OnOk-ok IsClassified _ r
          ((Returning-bind _ λ placed.
              let fills = collect timing spot_symbol perp_symbol spot_coid perp_coid placed in
              classify-Returning fills.spot_fill fills.perp_fill).at
            g)
          h

    -- When both answers are late, an entry returns a rejection that names two timeouts, whatever the
    -- venue answers; the venue is then in the state behind both orders, in the order in which they
    -- arrived, and nothing is rolled back.
    pub late_entry :
        (perp_first : Bool) (spot_symbol perp_symbol : String) (qty : A)
        (spot_coid perp_coid : String) (g : G)
        → let timing : LegTiming = record {
          perp_first = perp_first;
          spot_late = true;
          perp_late = true;
        } in
          parallel_market_fok_entry timing spot_symbol perp_symbol qty spot_coid perp_coid g ≡ (
            ok (timed_out spot_symbol perp_symbol spot_coid perp_coid),
            (place_both timing spot_symbol perp_symbol qty spot_coid perp_coid g).1,
          )
    unfolding parallel_market_fok_entry ◌>>=◌
    late_entry true spot_symbol perp_symbol qty spot_coid perp_coid g = refl
    late_entry false spot_symbol perp_symbol qty spot_coid perp_coid g = refl
