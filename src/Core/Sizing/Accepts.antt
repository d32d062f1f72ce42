-- ===== src/Core/Sizing/Accepts.antt =====
-- core/sizing.py: when the size of an entry is accepted.
use auto_trader_claude.Base.{
  ◌≡◌, refl, ◌||◌, Bool-cases, inl, inr, true, false, Option, none, some, String, arith, ◌↔◌,
  Outcome, ok, raised,
}
use auto_trader_claude.Base.Outcomes.{OrRaised, bind-OrRaised}
use auto_trader_claude.Number.{Number, ◌*◌, lt, le, nought, min, quotient}
use auto_trader_claude.Number.Order.{IsOrdered, le_refl, pos_of_not_le}
use auto_trader_claude.Core.Types.Market.{BookSnapshot, SizingResult}
use auto_trader_claude.Core.Sizing.{SideBinding, is_empty, floor_to_step, or_reason}
use auto_trader_claude.Core.Sizing.Entry.{
  SizingLimits, size_entry, spot_side, perp_side, target_of, accept, combine,
}
use auto_trader_claude.Core.Sizing.Bounds.{IsTruncError, lot_step_of}

module _ {A : Type 0} ⦃n : Number A⦄ where
  -- accepted exactly where the size is above zero
  abbrev pub AcceptsAbove : SizingResult A → Type 0
  AcceptsAbove r = (r.rejection_reason ≡ none) ↔ (lt nought r.target_qty ≡ true)

module _ {A : Type 0} ⦃n : Number A⦄ (laws : IsOrdered A) where
  lt_irrefl : lt {A = A} nought nought ≡ false
  lt_irrefl = ground (arith, laws.lt-eq-not-le nought nought, le_refl laws nought)

  accept_above : (spot perp : SideBinding A) (target : A) → AcceptsAbove (accept spot perp target)
  accept_above spot perp target = elim (Bool-cases (le target nought)) [
    | inl e ↦ grind (arith, e, lt_irrefl)
    | inr e ↦ let pos = pos_of_not_le laws target e in grind (arith, e, pos)
  ]

  trunc_raises :
      (r : Outcome A) (q : A) → n.trunc q ≡ r → OrRaised (IsTruncError A) (λ x. Unit {0}) r
  trunc_raises (ok x) q h = tt
  trunc_raises (raised e) q h = (q, h)

  target_raises :
      (l : SizingLimits A) (spot perp : SideBinding A)
      → OrRaised (IsTruncError A) (λ x. Unit {0}) (target_of l spot perp)
  unfolding floor_to_step
  target_raises l spot perp =
      let v = min (min spot.qty perp.qty) l.operator_cap_qty * l.sub_target in
      let step = lot_step_of l in
      elim (Bool-cases (le step nought)) [
        | inl e ↦ rw e tt
        | inr e ↦ rw e (
            bind-OrRaised (IsTruncError A) (λ _. Unit {0}) (λ _. Unit {0})
              (n.trunc (quotient v step)) (λ steps. ok (steps * step)) (λ x p. tt)
              (trunc_raises _ (quotient v step) refl))
      ]

  combine_above :
      (l : SizingLimits A) (spot perp : SideBinding A) (reason : Option String)
      → OrRaised (IsTruncError A) AcceptsAbove (combine l spot perp reason)
  combine_above l spot perp (some reason) = ground (arith, lt_irrefl)
  combine_above l spot perp none =
      bind-OrRaised (IsTruncError A) _ AcceptsAbove (target_of l spot perp)
        (λ t. ok (accept spot perp t)) (λ t _. accept_above spot perp t) (target_raises l spot perp)

  -- The sizing of an entry returns, unless the integer part of a quotient raises; and it has no
  -- reason to reject the entry exactly when its size is above zero.
  pub size_entry_accepts :
      (spot_book perp_book : BookSnapshot A) (l : SizingLimits A)
      → OrRaised (IsTruncError A) AcceptsAbove (size_entry spot_book perp_book l)
  unfolding size_entry
  size_entry_accepts spot_book perp_book l =
      let spot = spot_side spot_book l in
      let perp = perp_side perp_book l in
      elim (Bool-cases (is_empty spot_book.asks || is_empty perp_book.bids)) [
        | inl e ↦ rw e (ground (arith, lt_irrefl))
        | inr e ↦ rw e (combine_above l spot perp (or_reason spot.rejection perp.rejection))
      ]
