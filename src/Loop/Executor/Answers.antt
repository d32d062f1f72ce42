-- ===== src/Loop/Executor/Answers.antt =====
-- loop/executor.py: what the answers of the venue come to. `collect` files an answer under the leg
-- that it names, and gives a failed fill to a leg whose answer is late.
use auto_trader_claude.Base.{
  ◌≡◌, refl, ◌∙◌, sym, ap, subst, String, Bool, true, false, not, ◌&&◌, if◌then◌else◌, Option, none,
  some, Outcome, ok, raised, Exn, continue, ◌>>=◌, arith,
}
use auto_trader_claude.Number.{Number}
use auto_trader_claude.Core.Types.{spot, futures, FillResult}
use auto_trader_claude.Gateways.Venue.{Gateway}
use auto_trader_claude.Loop.Executor.{
  EntryResult, Fills, LegTiming, leg_accepted, roll_back, classify, collect, place_both,
  parallel_market_fok_entry,
}
use auto_trader_claude.Loop.Executor.Outcomes.{
  differ, OnOk-ok, Returning, Returning-bind, Returning-pure, Returning-if,
}
use auto_trader_claude.Loop.Executor.Raised.{parallel_market_fok_entry_raises}

module _ {A : Type 0} where
  -- A leg counts as filled by an answer that accepts its order and is in time.
  abbrev pub counts : Bool → FillResult A → Bool
  counts late answer = not late && answer.accepted

  abbrev fills_of : FillResult A → FillResult A → Fills A
  fills_of s p = record { spot_fill = some s; perp_fill = some p }

module _ {A : Type 0} ⦃n : Number A⦄ (timing : LegTiming)
    (spot_symbol perp_symbol spot_coid perp_coid : String) (s p : FillResult A)
    (names_spot : s.venue_leg ≡ spot) (names_perp : p.venue_leg ≡ futures) where
  collect-counts :
      let fills = collect timing spot_symbol perp_symbol spot_coid perp_coid (s, p) in
      (leg_accepted fills.spot_fill ≡ counts timing.spot_late s)
      × (leg_accepted fills.perp_fill ≡ counts timing.perp_late p)
  unfolding collect
  collect-counts = ground (arith, names_spot, names_perp)

  collect_prompt :
      timing.spot_late ≡ false
      → timing.perp_late ≡ false
      → collect timing spot_symbol perp_symbol spot_coid perp_coid (s, p) ≡ fills_of s p
  unfolding collect
  collect_prompt hs hp = ground (arith, names_spot, names_perp)

abbrev returned : {X : Type 0} → X → Outcome X
returned x = ok x

ok_inj : {X : Type 0} (a b : X) → returned a ≡ returned b → a ≡ b
ok_inj a b h = cc

module _ {A : Type 0} where
  -- The result reports these two legs.
  abbrev Reports : Fills A → EntryResult A → Type 0
  Reports fills r = (r.spot_fill ≡ fills.spot_fill) × (r.perp_fill ≡ fills.perp_fill)

module _ {A G : Type 0} ⦃n : Number A⦄ ⦃gateway : Gateway A G⦄ where
  roll_back-Reports :
      (fills : Fills A) (filled : FillResult A)
      → Returning {S = G} (Reports fills) (roll_back fills filled)
  unfolding roll_back
  roll_back-Reports fills filled =
      Returning-bind _ (λ rollback. Returning-pure _ (ground arith, ground arith))

  classify-Reports :
      (fills : Fills A) (s p : Option (FillResult A))
      → Returning {S = G} (Reports fills) (classify fills s p)
  unfolding classify
  classify-Reports fills (some s) (some p) =
      Returning-if (s.accepted && p.accepted) (λ _. Returning-pure _ (refl, refl))
        λ _.
          Returning-if (not s.accepted && not p.accepted) (λ _. Returning-pure _ (refl, refl))
            λ _. roll_back-Reports fills (if s.accepted then s else p)
  classify-Reports fills (some s) none =
      Returning-if (not s.accepted) (λ _. Returning-pure _ (refl, refl))
        λ _. roll_back-Reports fills s
  classify-Reports fills none (some p) =
      Returning-if (not p.accepted) (λ _. Returning-pure _ (refl, refl))
        λ _. roll_back-Reports fills p
  classify-Reports fills none none = Returning-pure _ (refl, refl)

module _ {A G : Type 0} ⦃n : Number A⦄ ⦃gateway : Gateway A G⦄ (timing : LegTiming)
    (spot_symbol perp_symbol : String) (qty : A) (spot_coid perp_coid : String) (g : G)
    (s p : FillResult A) (names_spot : s.venue_leg ≡ spot) (names_perp : p.venue_leg ≡ futures)
    (answers : (place_both timing spot_symbol perp_symbol qty spot_coid perp_coid g).0
      ≡ ok (s, p)) where
  -- Where no answer is late, the result reports the two answers of the venue.
  pub entry_reports :
      (r : EntryResult A)
      → timing.spot_late ≡ false
      → timing.perp_late ≡ false
      → (parallel_market_fok_entry timing spot_symbol perp_symbol qty spot_coid perp_coid g).0
        ≡ ok r
      → (r.spot_fill ≡ some s) × (r.perp_fill ≡ some p)
  unfolding parallel_market_fok_entry ◌>>=◌
  entry_reports r hs hp h =
      let placed = place_both timing spot_symbol perp_symbol qty spot_coid perp_coid g in
      let fills = collect timing spot_symbol perp_symbol spot_coid perp_coid (s, p) in
      let run : (classify fills fills.spot_fill fills.perp_fill placed.1).0 ≡ ok r =
        subst
          (λ both.
            (continue both
              (λ legs.
                let fs = collect timing spot_symbol perp_symbol spot_coid perp_coid legs in
                classify fs fs.spot_fill fs.perp_fill)
              placed.1).0
            ≡ ok r)
          answers h in
      let (es, ep) =
        OnOk-ok (Reports fills) _ r
          ((classify-Reports fills fills.spot_fill fills.perp_fill).at placed.1) run in
      let e =
        collect_prompt timing spot_symbol perp_symbol spot_coid perp_coid s p names_spot names_perp
          hs hp in
      (es ∙ ap (λ f. f.spot_fill) e, ep ∙ ap (λ f. f.perp_fill) e)

  -- An entry raises only where exactly one leg of the two counts as filled.
  pub entry_raises_one :
      (exc : Exn)
      → (parallel_market_fok_entry timing spot_symbol perp_symbol qty spot_coid perp_coid g).0
        ≡ raised exc
      → differ (counts timing.spot_late s) (counts timing.perp_late p) ≡ true
  entry_raises_one exc h =
      let (legs, e, one) =
        parallel_market_fok_entry_raises timing spot_symbol perp_symbol qty spot_coid perp_coid g
          exc h in
      let same : legs ≡ (s, p) = ok_inj legs (s, p) (sym e ∙ answers) in
      let (cs, cp) =
        collect-counts timing spot_symbol perp_symbol spot_coid perp_coid s p names_spot
          names_perp in
      subst (λ b. differ b (counts timing.perp_late p) ≡ true) cs
        (subst (λ b. differ (leg_accepted (taken (s, p)).spot_fill) b ≡ true) cp
          (subst
            (λ l.
              differ (leg_accepted (taken l).spot_fill) (leg_accepted (taken l).perp_fill) ≡ true)
            same one))
    where
      taken : FillResult A × FillResult A → Fills A
      taken legs = collect timing spot_symbol perp_symbol spot_coid perp_coid legs
