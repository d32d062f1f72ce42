-- ===== src/Core/Sizing/Best.antt =====
-- core/sizing.py: the walk over the asks, against the list of what the levels allow.
use auto_trader_claude.Base.{
  ℕ, suc, ◌≡◌, refl, ◌⊎◌, inl, inr, Bool-cases, true, false, if◌then◌else◌, List, [], ◌∷◌, Option,
  none, some, All, subst, sym, arith, ◌||◌,
}
use auto_trader_claude.Number.{Number, ◌+◌, ◌*◌, lt, le, nought, min, quotient}
use auto_trader_claude.Number.Order.{IsOrdered, ◌≼◌, le_refl, le_of_lt, le_of_not_lt}
use auto_trader_claude.Core.Types.Market.{BookLevel}
use auto_trader_claude.Core.Sizing.{best_level, bind_best, is_empty, size_buy_spot_price_dependent}

module _ {A : Type 0} ⦃n : Number A⦄ where
  -- What each level with a price allows: the depth up to it, or what the budget buys at its price.
  abbrev pub feasibles : A → List (BookLevel A) → A → List A
  feasibles budget [] cum_qty = []
  feasibles budget (lvl ∷ levels) cum_qty =
      let skipped = feasibles budget levels cum_qty in
      let cum = cum_qty + lvl.depth in
      let rest = feasibles budget levels cum in
      if le lvl.price nought then skipped else min cum (quotient budget lvl.price) ∷ rest

  abbrev pub Occurs : A → List A → Type 0
  Occurs a [] = ⊥
  Occurs a (b ∷ bs) = (a ≡ b) ⊎ Occurs a bs

  -- a largest one of a list
  pub record IsBest (a : A) (bs : List A) : Type 0 where
    pub bounds : All (λ b. b ≼ a) bs
    pub occurs : Occurs a bs

  -- what the walk returns, over the best quantity before it
  abbrev Found : A → List A → A → Type 0
  Found best_qty fs q = (best_qty ≼ q) × All (λ f. f ≼ q) fs × ((q ≡ best_qty) ⊎ Occurs q fs)

  module _ (laws : IsOrdered A) where
    better_lem :
        (best_qty f q : A) (fs : List A)
        → lt best_qty f ≡ true
        → Found f fs q
        → Found best_qty (f ∷ fs) q
    better_lem best_qty f q fs b (p, all, from) =
        (laws.le_trans best_qty f q (le_of_lt laws best_qty f b) p, (p, all), inr from)

    same_lem :
        (best_qty f q : A) (fs : List A)
        → lt best_qty f ≡ false
        → Found best_qty fs q
        → Found best_qty (f ∷ fs) q
    same_lem best_qty f q fs b (p, all, from) = (
      p,
      (laws.le_trans f best_qty q (le_of_not_lt laws best_qty f b) p, all),
      elim from [ inl e ↦ inl e | inr o ↦ inr (inr o) ],
    )

    best_level_lem :
        (budget : A) (i : ℕ) (levels : List (BookLevel A)) (cum_qty best_qty : A) (best : Option ℕ)
        → Found best_qty
            (feasibles budget levels cum_qty)
            (best_level budget i levels cum_qty best_qty best).0
    unfolding best_level
    best_level_lem budget i [] cum_qty best_qty best = (le_refl laws best_qty, tt, inl refl)
    best_level_lem budget i (lvl ∷ levels) cum_qty best_qty best =
        let cum = cum_qty + lvl.depth in
        let feasible = min cum (quotient budget lvl.price) in
        let skipped = best_level_lem budget (suc i) levels cum_qty best_qty best in
        let better = best_level_lem budget (suc i) levels cum feasible (some i) in
        let same = best_level_lem budget (suc i) levels cum best_qty best in
        elim (Bool-cases (le lvl.price nought)) [
          | inl e ↦ grind (arith, e, skipped)
          | inr e ↦ elim (Bool-cases (lt best_qty feasible)) [
            | inl b ↦
                let found =
                  better_lem best_qty feasible
                    (best_level budget (suc i) levels cum feasible (some i)).0
                    (feasibles budget levels cum) b better in
                grind (arith, e, b, found)
            | inr b ↦
                let found =
                  same_lem best_qty feasible (best_level budget (suc i) levels cum best_qty best).0
                    (feasibles budget levels cum) b same in
                grind (arith, e, b, found)
          ]
        ]

    bound_lem :
        (asks : List (BookLevel A)) (q : A) (best : Option ℕ)
        → (bind_best asks (q, best)).rejection ≡ none
        → ((bind_best asks (q, best)).qty ≡ q) × (le q nought ≡ false)
    bound_lem asks q none h = ground (arith, h)
    bound_lem asks q (some i) h = ground (arith, h)

    IsBest-of : (q : A) (fs : List A) → Found nought fs q → le q nought ≡ false → IsBest q fs
    IsBest-of q fs (p, all, from) h = record {
      bounds = all;
      occurs = grind (arith, from, h, le_refl laws nought);
    }

    bind_best-IsBest :
        (asks : List (BookLevel A)) (fs : List A) (walk : A × Option ℕ)
        → Found nought fs walk.0
        → (bind_best asks walk).rejection ≡ none
        → IsBest (bind_best asks walk).qty fs
    bind_best-IsBest asks fs (q, best) found h =
        let (e, pos) = bound_lem asks q best h in
        subst (λ x. IsBest x fs) (sym e) (IsBest-of q fs found pos)

    -- The size of a spot buy that is not rejected is the largest quantity that a level of the book
    -- allows, where a level with a price allows the depth up to it, and no more than the budget
    -- buys at its price.
    pub size_buy-IsBest :
        (asks : List (BookLevel A)) (free safety : A)
        → (size_buy_spot_price_dependent asks free safety).rejection ≡ none
        → IsBest
            (size_buy_spot_price_dependent asks free safety).qty
            (feasibles (free * safety) asks nought)
    unfolding size_buy_spot_price_dependent
    size_buy-IsBest asks free safety h =
        let walk = best_level (free * safety) 0 asks nought nought none in
        let found = best_level_lem (free * safety) 0 asks nought nought none in
        let is_best = bind_best-IsBest asks (feasibles (free * safety) asks nought) walk found in
        elim (Bool-cases (le free nought || is_empty asks)) [
          | inl e ↦ ground (arith, e, h)
          | inr e ↦ grind (arith, e, h, is_best)
        ]
