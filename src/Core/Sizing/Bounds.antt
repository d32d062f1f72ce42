-- ===== src/Core/Sizing/Bounds.antt =====
-- core/sizing.py: how large the size of an entry can be. Flooring a float to lot steps divides by
-- the step and multiplies by it again, and either operation rounds, so that the bounds are what
-- these two make of an amount; where there is no lot step they are the amounts themselves.
use auto_trader_claude.Base.{
  ◌≡◌, refl, ◌||◌, Bool-cases, inl, inr, false, Option, none, some, String, subst, sym, ok, raised,
  Exn, if◌then◌else◌, Outcome-cases,
}
use auto_trader_claude.Base.Outcomes.{OrRaised, bind-OrRaised, weaken}
use auto_trader_claude.Number.{Number, ◌*◌, le, nought, literal, min, max, quotient}
use auto_trader_claude.Number.Order.{
  IsRounded, ◌≼◌, le_refl, le_of_lt, min_le_left, min_le_right, le_min, nonneg_of_not_le,
  pos_of_not_le,
}
use auto_trader_claude.Core.Sizing.Sides.{spot_side_nonneg, perp_side_nonneg}
use auto_trader_claude.Core.Types.Market.{BookSnapshot, SizingResult}
use auto_trader_claude.Core.Sizing.{SideBinding, is_empty, floor_to_step, or_reason}
use auto_trader_claude.Core.Sizing.Entry.{
  SizingLimits, size_entry, spot_side, perp_side, target_of, accept, combine, sizing_of,
  sizing_rejected, empty_sizing,
}

-- An error that the integer part of some number raises.
abbrev pub IsTruncError : (A : Type 0) ⦃n : Number A⦄ → Exn → Type 0
IsTruncError A ⦃n⦄ e = (q : A) × (n.trunc q ≡ raised e)

module _ {A : Type 0} ⦃n : Number A⦄ where
  abbrev pub lot_step_of : SizingLimits A → A
  lot_step_of l = max l.spot_lot_step l.perp_lot_step

  -- An amount divided by a lot step and multiplied by it again; the amount, if there is no step.
  abbrev pub regained : A → A → A
  regained step a = if le step nought then a else quotient a step * step

  -- The target is not negative and within what both sides and the operator allow.
  pub record IsBounded (l : SizingLimits A) (r : SizingResult A) : Type 0 where
    pub target_nonneg : nought ≼ r.target_qty
    pub within_spot : r.target_qty ≼ regained (lot_step_of l) r.spot_binding_qty
    pub within_perp : r.target_qty ≼ regained (lot_step_of l) r.perp_binding_qty
    pub within_cap : r.target_qty ≼ regained (lot_step_of l) l.operator_cap_qty

  module _ (laws : IsRounded A) where
    regained_nonneg : (step a : A) → nought ≼ a → nought ≼ regained step a
    regained_nonneg step a h = elim (Bool-cases (le step nought)) [
      | inl e ↦ rw e h
      | inr e ↦
          let o = laws.ordered in
          let pos = pos_of_not_le o step e in
          rw e (
            o.mul_nonneg (quotient a step) step (laws.quotient_nonneg a step pos h)
              (le_of_lt o nought step pos))
    ]

    regained_mono : (step a b : A) → a ≼ b → regained step a ≼ regained step b
    regained_mono step a b h = elim (Bool-cases (le step nought)) [
      | inl e ↦ rw e h
      | inr e ↦
          let o = laws.ordered in
          let pos = pos_of_not_le o step e in
          rw e (
            o.mul_mono (quotient a step) (quotient b step) step (le_of_lt o nought step pos)
              (laws.quotient_mono a b step pos h))
    ]

    floor_to_step-regained :
        (v step : A)
        → nought ≼ v
        → OrRaised (IsTruncError A) (λ t. t ≼ regained step v) (floor_to_step v step)
    unfolding floor_to_step
    floor_to_step-regained v step h = elim (Bool-cases (le step nought)) [
      | inl e ↦ rw e (le_refl laws.ordered v)
      | inr e ↦
          let o = laws.ordered in
          let pos = pos_of_not_le o step e in
          let q = quotient v step in
          rw e (elim (Outcome-cases (n.trunc q)) [
            | inl (t, k) ↦ rw k (
                o.mul_mono t q step (le_of_lt o nought step pos)
                  (laws.trunc_le q t (laws.quotient_nonneg v step pos h) k))
            | inr (exc, k) ↦ rw k (q, k)
          ])
    ]

    module _ (l : SizingLimits A) (spot perp : SideBinding A) (hs : nought ≼ spot.qty)
        (hp : nought ≼ perp.qty) (hc : nought ≼ l.operator_cap_qty) where
      smallest_nonneg : nought ≼ min (min spot.qty perp.qty) l.operator_cap_qty
      smallest_nonneg =
          le_min laws.ordered (min spot.qty perp.qty) l.operator_cap_qty nought
            (le_min laws.ordered spot.qty perp.qty nought hs hp) hc

      nought-IsBounded :
          (r : SizingResult A)
          → r.target_qty ≡ nought
          → r.spot_binding_qty ≡ spot.qty
          → r.perp_binding_qty ≡ perp.qty
          → IsBounded l r
      nought-IsBounded r e es ep =
          let within = λ (x : A). λ (h : nought ≼ x).
            subst (λ t. t ≼ regained (lot_step_of l) x) (sym e)
              (regained_nonneg (lot_step_of l) x h) in
          record {
            target_nonneg = subst (λ t. nought ≼ t) (sym e) (le_refl laws.ordered nought);
            within_spot = within r.spot_binding_qty (subst (λ t. nought ≼ t) (sym es) hs);
            within_perp = within r.perp_binding_qty (subst (λ t. nought ≼ t) (sym ep) hp);
            within_cap = within l.operator_cap_qty hc;
          }

      target_le :
          nought ≼ l.sub_target
          → l.sub_target ≼ literal 1
          → OrRaised
              (IsTruncError A)
              (λ t. t ≼ regained (lot_step_of l) (min (min spot.qty perp.qty) l.operator_cap_qty))
              (target_of l spot perp)
      target_le h0 h1 =
          let o = laws.ordered in
          let m = min (min spot.qty perp.qty) l.operator_cap_qty in
          let step = lot_step_of l in
          weaken (IsTruncError A) _ _ (target_of l spot perp)
            (λ t h. o.le_trans t (regained step (m * l.sub_target)) (regained step m) h (
              regained_mono step (m * l.sub_target) m
                (laws.mul_le m l.sub_target smallest_nonneg h0 h1)))
            (floor_to_step-regained (m * l.sub_target) step
              (o.mul_nonneg m l.sub_target smallest_nonneg h0))

      accept-IsBounded :
          (t : A)
          → t ≼ regained (lot_step_of l) (min (min spot.qty perp.qty) l.operator_cap_qty)
          → IsBounded l (accept spot perp t)
      accept-IsBounded t h =
          let o = laws.ordered in
          let both = min spot.qty perp.qty in
          let m = min both l.operator_cap_qty in
          let step = lot_step_of l in
          let below = λ (x : A). λ (k : m ≼ x).
            o.le_trans t (regained step m) (regained step x) h (regained_mono step m x k) in
          let m_both = min_le_left o both l.operator_cap_qty in
          let small : IsBounded l
              (sizing_of nought spot perp (some "below_lot_step_after_sub_target")) =
            nought-IsBounded (sizing_of nought spot perp (some "below_lot_step_after_sub_target"))
              refl refl refl in
          let large : le t nought ≡ false → IsBounded l (sizing_of t spot perp none) = λ e. record {
            target_nonneg = nonneg_of_not_le o t e;
            within_spot =
                below spot.qty
                  (o.le_trans m both spot.qty m_both (min_le_left o spot.qty perp.qty));
            within_perp =
                below perp.qty
                  (o.le_trans m both perp.qty m_both (min_le_right o spot.qty perp.qty));
            within_cap = below l.operator_cap_qty (min_le_right o both l.operator_cap_qty);
          } in
          elim (Bool-cases (le t nought)) [ inl e ↦ rw e small | inr e ↦ rw e (large e) ]

      combine-IsBounded :
          (reason : Option String)
          → nought ≼ l.sub_target
          → l.sub_target ≼ literal 1
          → OrRaised (IsTruncError A) (IsBounded l) (combine l spot perp reason)
      combine-IsBounded (some reason) h0 h1 =
          nought-IsBounded (sizing_rejected spot perp reason) refl refl refl
      combine-IsBounded none h0 h1 =
          bind-OrRaised (IsTruncError A) _ _ (target_of l spot perp) (λ t. ok (accept spot perp t))
            accept-IsBounded (target_le h0 h1)

    empty_sizing-IsBounded :
        (l : SizingLimits A) → nought ≼ l.operator_cap_qty → IsBounded l empty_sizing
    empty_sizing-IsBounded l hc =
        let none_left : SideBinding A = record {
          qty = nought;
          avg_price = nought;
          rejection = none;
        } in
        nought-IsBounded l none_left none_left (le_refl laws.ordered nought)
          (le_refl laws.ordered nought) hc empty_sizing refl refl refl

    -- Where the operator cap is not negative and the sub target is between zero and one: the sizing
    -- of an entry returns, unless the integer part of a quotient raises; and the size is not
    -- negative, and is at most what the spot side allows, what the perp side allows and the operator
    -- cap, each divided by the lot step and multiplied by it again, in the program's arithmetic.
    pub size_entry-IsBounded :
        (spot_book perp_book : BookSnapshot A) (l : SizingLimits A)
        → nought ≼ l.operator_cap_qty
        → nought ≼ l.sub_target
        → l.sub_target ≼ literal 1
        → OrRaised (IsTruncError A) (IsBounded l) (size_entry spot_book perp_book l)
    unfolding size_entry
    size_entry-IsBounded spot_book perp_book l hc h0 h1 =
        let spot = spot_side spot_book l in
        let perp = perp_side perp_book l in
        let o = laws.ordered in
        elim (Bool-cases (is_empty spot_book.asks || is_empty perp_book.bids)) [
          | inl e ↦ rw e (empty_sizing-IsBounded l hc)
          | inr e ↦ rw e (
              combine-IsBounded l spot perp (spot_side_nonneg o spot_book l)
                (perp_side_nonneg o perp_book l) hc (or_reason spot.rejection perp.rejection) h0 h1)
        ]
