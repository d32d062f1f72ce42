-- ===== src/Core/Sizing/Entry.antt =====
-- core/sizing.py: `size_entry` and `snapshots_co_temporal`.
use Prim.Native.Nat.{◌*◌ as ◌*ℕ◌, ◌-◌ as ◌-ℕ◌}
use auto_trader_claude.Base.{
  ℕ, String, Bool, ◌||◌, if◌then◌else◌, leb, Option, none, some, Outcome, ok,
}
use auto_trader_claude.Base.Outcomes.{◌>>=◌}
use auto_trader_claude.Number.{Number, ◌*◌, le, nought, min, max}
use auto_trader_claude.Core.Types.Market.{BookSnapshot, SizingResult}
use auto_trader_claude.Core.Sizing.{
  SideBinding, is_empty, floor_to_step, size_buy_spot_price_dependent, size_perp_flat_cap,
  or_reason,
}

-- The arguments of `size_entry` behind the two books.
pub record SizingLimits (A : Type 0) : Type 0 where
  pub spot_wallet_quote_free : A
  pub perp_wallet_quote_free : A
  pub leverage : A
  pub safety : A
  pub sub_target : A
  pub operator_cap_qty : A
  pub spot_lot_step : A
  pub perp_lot_step : A

module _ {A : Type 0} ⦃n : Number A⦄ where
  abbrev pub empty_sizing : SizingResult A
  empty_sizing = record {
    target_qty = nought;
    forecast_spot_avg_price = nought;
    forecast_perp_avg_price = nought;
    spot_binding_qty = nought;
    perp_binding_qty = nought;
    rejection_reason = some "empty_book";
  }

  abbrev pub sizing_of : A → SideBinding A → SideBinding A → Option String → SizingResult A
  sizing_of target spot perp reason = record {
    target_qty = target;
    forecast_spot_avg_price = spot.avg_price;
    forecast_perp_avg_price = perp.avg_price;
    spot_binding_qty = spot.qty;
    perp_binding_qty = perp.qty;
    rejection_reason = reason;
  }

  abbrev pub sizing_rejected : SideBinding A → SideBinding A → String → SizingResult A
  sizing_rejected spot perp reason = record (sizing_of nought spot perp (some reason)) {
    forecast_spot_avg_price = nought;
    forecast_perp_avg_price = nought;
  }

  -- the quantity of the pair before its test against zero
  abbrev pub target_of : SizingLimits A → SideBinding A → SideBinding A → Outcome A
  target_of l spot perp =
      floor_to_step (min (min spot.qty perp.qty) l.operator_cap_qty * l.sub_target)
        (max l.spot_lot_step l.perp_lot_step)

  abbrev pub accept : SideBinding A → SideBinding A → A → SizingResult A
  accept spot perp target_qty =
      if le target_qty nought
      then sizing_of nought spot perp (some "below_lot_step_after_sub_target")
      else sizing_of target_qty spot perp none

  abbrev pub combine :
      SizingLimits A → SideBinding A → SideBinding A → Option String → Outcome (SizingResult A)
  combine l spot perp (some reason) = ok (sizing_rejected spot perp reason)
  combine l spot perp none =
      target_of l spot perp >>= λ target_qty. ok (accept spot perp target_qty)

  abbrev pub spot_side : BookSnapshot A → SizingLimits A → SideBinding A
  spot_side spot_book l =
      size_buy_spot_price_dependent spot_book.asks l.spot_wallet_quote_free l.safety

  abbrev pub perp_side : BookSnapshot A → SizingLimits A → SideBinding A
  perp_side perp_book l =
      size_perp_flat_cap perp_book.bids perp_book.mid_price l.perp_wallet_quote_free l.safety
        l.leverage

  unfoldable pub size_entry :
      BookSnapshot A → BookSnapshot A → SizingLimits A → Outcome (SizingResult A)
  size_entry spot_book perp_book l =
      if is_empty spot_book.asks || is_empty perp_book.bids
      then ok empty_sizing
      else let spot = spot_side spot_book l in
        let perp = perp_side perp_book l in
        combine l spot perp (or_reason spot.rejection perp.rejection)

-- The distance of two points in time.
abbrev pub distance : ℕ → ℕ → ℕ
distance a b = if leb b a then a -ℕ b else b -ℕ a

-- The callers keep the default of 50 ms.
unfoldable pub snapshots_co_temporal : {A : Type 0} → BookSnapshot A → BookSnapshot A → Bool
snapshots_co_temporal spot_book perp_book =
    leb (distance spot_book.taken_at perp_book.taken_at) (50 *ℕ 1000)
