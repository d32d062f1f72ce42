-- ===== src/Core/Sizing.antt =====
-- core/sizing.py: the closed-form size of a pair of legs. Floats are finite, so a quotient by a
-- number that the code has found positive does not raise; its integer part may.
pub mod Accepts
pub mod Best
pub mod Bounds
pub mod Entry
pub mod Sides
use auto_trader_claude.Base.{
  ℕ, suc, zero, Bool, true, false, ◌||◌, if◌then◌else◌, Option, none, some, List, [], ◌∷◌, String,
  Outcome, ok,
}
use auto_trader_claude.Base.Outcomes.{◌>>=◌}
use auto_trader_claude.Number.{Number, ◌+◌, ◌-◌, ◌*◌, lt, le, nought, min, max, quotient}
use auto_trader_claude.Core.Types.Market.{BookLevel}

pub record SideBinding (A : Type 0) : Type 0 where
  pub qty : A
  pub avg_price : A
  pub rejection : Option String

-- `xs[:k]`
abbrev pub take {ℓ} : {X : Type ℓ} → ℕ → List X → List X
take zero xs = []
take (suc k) [] = []
take (suc k) (x ∷ xs) = x ∷ take k xs

-- `not xs`
abbrev pub is_empty {ℓ} : {X : Type ℓ} → List X → Bool
is_empty [] = true
is_empty (_ ∷ _) = false

-- `a or b` of two reasons, none of which is empty
abbrev pub or_reason : Option String → Option String → Option String
or_reason (some r) _ = some r
or_reason none r = r

module _ {A : Type 0} ⦃n : Number A⦄ where
  -- the loop of `_vwap_up_to`, over the quantity and the quote spent so far
  unfoldable pub vwap_walk : A → List (BookLevel A) → A → A → A × A
  vwap_walk qty_target [] spent_qty spent_quote = (spent_qty, spent_quote)
  vwap_walk qty_target (lvl ∷ levels) spent_qty spent_quote =
      let take_qty = min lvl.depth (qty_target - spent_qty) in
      let rest =
        vwap_walk qty_target levels (spent_qty + take_qty) (spent_quote + take_qty * lvl.price) in
      if le qty_target spent_qty then (spent_qty, spent_quote) else rest

  abbrev average_of : A × A → A
  average_of (spent_qty, spent_quote) =
      if le spent_qty nought then nought else quotient spent_quote spent_qty

  -- `_vwap_up_to`
  unfoldable pub vwap_up_to : List (BookLevel A) → A → A
  unfolding vwap_walk
  vwap_up_to levels qty_target =
      if le qty_target nought
      then nought
      else average_of (vwap_walk qty_target levels nought nought)

  -- `_floor_to_step`
  unfoldable pub floor_to_step : A → A → Outcome A
  floor_to_step value step =
      if le step nought
      then ok value
      else n.trunc (quotient value step) >>= λ steps. ok (steps * step)

  -- `sum(lvl.depth for lvl in levels)`, from a sum so far
  unfoldable pub total_depth : A → List (BookLevel A) → A
  total_depth sum [] = sum
  total_depth sum (lvl ∷ levels) = total_depth (sum + lvl.depth) levels

  abbrev rejected_side : String → SideBinding A
  rejected_side reason = record { qty = nought; avg_price = nought; rejection = some reason }

  abbrev bound_side : A → A → SideBinding A
  bound_side qty avg = record { qty = qty; avg_price = avg; rejection = none }

  -- The loop of `size_buy_spot_price_dependent` over the levels from index `i`: the cumulated
  -- quantity, the best quantity and its level, `none` for the index -1.
  unfoldable pub best_level : A → ℕ → List (BookLevel A) → A → A → Option ℕ → A × Option ℕ
  best_level budget i [] cum_qty best_qty best = (best_qty, best)
  best_level budget i (lvl ∷ levels) cum_qty best_qty best =
      let skipped = best_level budget (suc i) levels cum_qty best_qty best in
      let cum = cum_qty + lvl.depth in
      let feasible = min cum (quotient budget lvl.price) in
      let better = best_level budget (suc i) levels cum feasible (some i) in
      let same = best_level budget (suc i) levels cum best_qty best in
      if le lvl.price nought then skipped else if lt best_qty feasible then better else same

  abbrev pub bind_best : List (BookLevel A) → A × Option ℕ → SideBinding A
  bind_best asks (best_qty, none) = rejected_side "no_feasible_level"
  bind_best asks (best_qty, some i) =
      if le best_qty nought
      then rejected_side "no_feasible_level"
      else bound_side best_qty (vwap_up_to (take (suc i) asks) best_qty)

  unfoldable pub size_buy_spot_price_dependent : List (BookLevel A) → A → A → SideBinding A
  unfolding best_level
  size_buy_spot_price_dependent asks wallet_quote_free safety =
      if le wallet_quote_free nought || is_empty asks
      then rejected_side "empty_wallet_or_book"
      else bind_best asks (best_level (wallet_quote_free * safety) 0 asks nought nought none)

  -- the end that the flat-cap sizers share
  abbrev pub bind_flat : List (BookLevel A) → A → SideBinding A
  bind_flat levels cap =
      let qty = min (total_depth nought levels) cap in
      if le qty nought then rejected_side "zero_qty" else bound_side qty (vwap_up_to levels qty)

  unfoldable pub size_sell_spot_flat_cap : List (BookLevel A) → A → A → SideBinding A
  size_sell_spot_flat_cap bids base_balance_free safety =
      if le base_balance_free nought || is_empty bids
      then rejected_side "empty_wallet_or_book"
      else bind_flat bids (base_balance_free * safety)

  unfoldable pub size_perp_flat_cap : List (BookLevel A) → A → A → A → A → SideBinding A
  size_perp_flat_cap levels mark_price wallet_quote_free safety leverage =
      if le wallet_quote_free nought || le mark_price nought || is_empty levels
      then rejected_side "empty_wallet_or_book"
      else bind_flat levels (quotient (wallet_quote_free * safety * leverage) mark_price)
