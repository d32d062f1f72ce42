-- ===== src/Core/Sizing/Sides.antt =====
-- core/sizing.py: the quantity that one side allows is not negative.
use auto_trader_claude.Base.{arith, List, Option, none, some, ℕ}
use auto_trader_claude.Number.{Number, ◌*◌, nought, min, quotient}
use auto_trader_claude.Number.Order.{IsOrdered, ◌≼◌, le_refl, nonneg_of_not_le}
use auto_trader_claude.Core.Types.Market.{BookLevel, BookSnapshot}
use auto_trader_claude.Core.Sizing.{
  bind_best, bind_flat, best_level, size_buy_spot_price_dependent, size_perp_flat_cap, total_depth,
}
use auto_trader_claude.Core.Sizing.Entry.{SizingLimits, spot_side, perp_side}

module _ {A : Type 0} ⦃n : Number A⦄ (laws : IsOrdered A) where
  bind_best_nonneg :
      (asks : List (BookLevel A)) (walk : A × Option ℕ) → nought ≼ (bind_best asks walk).qty
  bind_best_nonneg asks (q, none) = le_refl laws nought
  bind_best_nonneg asks (q, some i) = ground (arith, nonneg_of_not_le laws q, le_refl laws nought)

  pub spot_side_nonneg :
      (book : BookSnapshot A) (l : SizingLimits A) → nought ≼ (spot_side book l).qty
  unfolding size_buy_spot_price_dependent
  spot_side_nonneg book l =
      let walk = best_level (l.spot_wallet_quote_free * l.safety) 0 book.asks nought nought none in
      ground (arith, bind_best_nonneg book.asks walk, le_refl laws nought)

  bind_flat_nonneg :
      (levels : List (BookLevel A)) (limit : A) → nought ≼ (bind_flat levels limit).qty
  bind_flat_nonneg levels limit =
      ground
        (arith, nonneg_of_not_le laws (min (total_depth nought levels) limit), le_refl laws nought)

  pub perp_side_nonneg :
      (book : BookSnapshot A) (l : SizingLimits A) → nought ≼ (perp_side book l).qty
  unfolding size_perp_flat_cap
  perp_side_nonneg book l =
      let notional = l.perp_wallet_quote_free * l.safety * l.leverage in
      ground
        (arith, bind_flat_nonneg book.bids (quotient notional book.mid_price), le_refl laws nought)
