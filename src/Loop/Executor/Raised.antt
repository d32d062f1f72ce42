-- ===== src/Loop/Executor/Raised.antt =====
-- loop/executor.py: where an entry raises.
use auto_trader_claude.Base.{
  ◌≡◌, refl, subst, String, Bool, true, false, not, ◌&&◌, if◌then◌else◌, Bool-cases, inl, inr,
  Option, none, some, ok, raised, Exn, Action, pure, continue, ◌>>=◌, arith,
}
use auto_trader_claude.Number.{Number}
use auto_trader_claude.Core.Types.{FillResult}
use auto_trader_claude.Gateways.Venue.{Gateway}
use auto_trader_claude.Loop.Executor.{
  Fills, LegTiming, leg_accepted, classify, collect, place_both, parallel_market_fok_entry,
}
use auto_trader_claude.Loop.Executor.Outcomes.{differ}

-- When `m` raises, `P` holds.
record Raising {S X : Type 0} (P : Type 0) (m : Action S X) : Type 0 where
  at : (s : S) (e : Exn) → (m s).0 ≡ raised e → P

Raising-pure : {S X : Type 0} (P : Type 0) (x : X) → Raising {S = S} P (pure x)
unfolding pure
Raising-pure P x = record { at = λ s e h. cc }

Raising-if :
    {S X : Type 0} (P : Type 0) (b : Bool) (m k : Action S X)
    → Raising P m
    → (b ≡ false → Raising P k)
    → Raising P (if b then m else k)
Raising-if P true m k p q = p
Raising-if P false m k p q = q refl

module _ {A G : Type 0} ⦃n : Number A⦄ ⦃gateway : Gateway A G⦄ where
  classify-Raising :
      (fills : Fills A) (s p : Option (FillResult A))
      → Raising {S = G} (differ (leg_accepted s) (leg_accepted p) ≡ true) (classify fills s p)
  unfolding classify
  classify-Raising fills (some s) (some p) =
      Raising-if _ (s.accepted && p.accepted) _ _ (Raising-pure _ _) λ e.
        Raising-if _ (not s.accepted && not p.accepted) _ _ (Raising-pure _ _)
          λ e2. record { at = λ g exc h. ground (arith, e, e2) }
  classify-Raising fills (some s) none =
      Raising-if _ (not s.accepted) _ _ (Raising-pure _ _)
        λ e. record { at = λ g exc h. ground (arith, e) }
  classify-Raising fills none (some p) =
      Raising-if _ (not p.accepted) _ _ (Raising-pure _ _)
        λ e. record { at = λ g exc h. ground (arith, e) }
  classify-Raising fills none none = Raising-pure _ _

  place_both_ok :
      (timing : LegTiming) (spot_symbol perp_symbol : String) (qty : A)
      (spot_coid perp_coid : String) (g : G)
      → (legs : FillResult A × FillResult A) × ((place_both timing spot_symbol perp_symbol qty
            spot_coid perp_coid g).0
          ≡ ok legs)
  unfolding place_both ◌>>=◌
  place_both_ok timing spot_symbol perp_symbol qty spot_coid perp_coid g =
      elim (Bool-cases timing.perp_first) [ inl e ↦ rw e (_, refl) | inr e ↦ rw e (_, refl) ]

  -- An entry raises only where both orders were placed and, by what the two answers came to, exactly
  -- one of them filled.
  pub parallel_market_fok_entry_raises :
      (timing : LegTiming) (spot_symbol perp_symbol : String) (qty : A)
      (spot_coid perp_coid : String) (g : G) (exc : Exn)
      → (parallel_market_fok_entry timing spot_symbol perp_symbol qty spot_coid perp_coid g).0
        ≡ raised exc
      → (legs : FillResult A × FillResult A) × ((place_both timing spot_symbol perp_symbol qty
            spot_coid perp_coid g).0
          ≡ ok legs)
        × (let fills = collect timing spot_symbol perp_symbol spot_coid perp_coid legs in
            differ (leg_accepted fills.spot_fill) (leg_accepted fills.perp_fill) ≡ true)
  unfolding parallel_market_fok_entry ◌>>=◌
  parallel_market_fok_entry_raises timing spot_symbol perp_symbol qty spot_coid perp_coid g exc h =
      let placed = place_both timing spot_symbol perp_symbol qty spot_coid perp_coid g in
      let (legs, e) = place_both_ok timing spot_symbol perp_symbol qty spot_coid perp_coid g in
      let fills = collect timing spot_symbol perp_symbol spot_coid perp_coid legs in
      let unwound : (classify fills fills.spot_fill fills.perp_fill placed.1).0 ≡ raised exc =
        subst
          (λ r.
            (continue r
              (λ both.
                let fs = collect timing spot_symbol perp_symbol spot_coid perp_coid both in
                classify fs fs.spot_fill fs.perp_fill)
              placed.1).0
            ≡ raised exc)
          e h in
      (legs, e, (classify-Raising fills fills.spot_fill fills.perp_fill).at placed.1 exc unwound)
