-- ===== src/Loop/Cycle/Recover.antt =====
-- loop/cycle.py: `_recover_naked_spot` and `_recover_naked_perp`. Each tries to hedge the leg that
-- is left, and falls back to closing it.
use auto_trader_claude.Base.{
  String, ◌<>◌, Bool, true, false, if◌then◌else◌, List, [], ◌∷◌, str_eq, Action, pure, run_outcome,
  ◌>>=◌, ◌>>◌,
}
use auto_trader_claude.Number.{Number, ◌+◌, le, nought, min, abs}
use auto_trader_claude.Core.Types.{Mode, spot, futures, buy, sell, FillResult}
use auto_trader_claude.Core.Types.Market.{FundingInfo, FeeInfo}
use auto_trader_claude.Core.Types.Config.{MergedConfig}
use auto_trader_claude.Core.Lifecycle.{flat_closed, hedge_recovered}
use auto_trader_claude.Core.Math.{forward_net_apy_for_exit}
use auto_trader_claude.State.Models.{Position}
use auto_trader_claude.Gateways.Venue.{Gateway}
use auto_trader_claude.Loop.World.{Host, World, call, assign, add_action}
use auto_trader_claude.Loop.Cycle.Marks.{
  mark_closed, mark_status, set_close_error, record_trade, text_or_none,
}

module _ {A : Type 0} where
  abbrev pub spot_hedged_row : FundingInfo A → FillResult A → Position A → Position A
  spot_hedged_row funding fill p = record p {
    perp_entry_price = fill.avg_price;
    entry_funding_rate = funding.predicted_rate;
    last_funding_rate = funding.predicted_rate;
    funding_interval_hours = funding.interval_hours;
  }

  abbrev pub perp_hedged_row : FillResult A → Position A → Position A
  perp_hedged_row fill p = record p { spot_entry_price = fill.avg_price }

  -- `{sym: q for sym, q in perps}.get(symbol, q)`: the last entry of a symbol counts
  abbrev pub perp_quantity : String → A → List (String × A) → A
  perp_quantity symbol q [] = q
  perp_quantity symbol q ((sym, p) ∷ perps) =
      perp_quantity symbol (if str_eq sym symbol then p else q) perps

module _ {A G : Type 0} ⦃n : Number A⦄ ⦃host : Host⦄ ⦃gateway : Gateway A G⦄ where
  -- the forward-profit gate at zero basis
  unfoldable pub hedge_pays : MergedConfig A → FundingInfo A → FeeInfo A → Action (World A G) Bool
  hedge_pays config funding fees = do
    fwd ← run_outcome (
        forward_net_apy_for_exit funding.predicted_rate funding.interval_hours nought
          fees.spot_fee_bps fees.perp_fee_bps config.exit_basis_buffer_multiple)
    pure (le config.entry_min_net_apy fwd)

  -- opens the missing perp short; the answer is whether it filled
  unfoldable pub hedge_spot :
      Position A → Mode → String → FundingInfo A → A → Action (World A G) Bool
  hedge_spot pos mode trade_type funding qty = do
    let coid = "hedge-" <> host.str_ℕ pos.id <> "-perp"
    fill ← call (gateway.place_market_fok pos.perp_symbol futures sell qty coid)
    if fill.accepted
        then (do
          mark_status pos hedge_recovered
          assign pos.id (spot_hedged_row funding fill)
          record_trade mode trade_type pos.id pos.perp_symbol futures sell fill
          add_action ("phantom_spot_rescued:" <> pos.symbol)
          pure true)
        else pure false

  unfoldable pub sell_spot_back : Position A → Mode → String → A → Action (World A G) (Unit {0})
  sell_spot_back pos mode trade_type qty = do
    let coid = "close-" <> host.str_ℕ pos.id <> "-spot"
    fill ← call (gateway.place_market_fok pos.spot_symbol spot sell qty coid)
    if fill.accepted
        then (do
          mark_closed pos "" flat_closed
          record_trade mode trade_type pos.id pos.spot_symbol spot sell fill
          add_action ("phantom_spot_closed:" <> pos.symbol))
        else (do
          set_close_error pos ("recover_failed:" <> text_or_none fill.error)
          add_action ("phantom_spot_recovery_failed:" <> pos.symbol))

  unfoldable pub hedge_or_sell :
      Position A
      → Mode
      → MergedConfig A
      → String
      → FundingInfo A
      → FeeInfo A
      → A
      → Action (World A G) (Unit {0})
  unfolding hedge_pays hedge_spot sell_spot_back
  hedge_or_sell pos mode config trade_type funding fees qty = do
    pays ← hedge_pays config funding fees
    hedged ← (if pays then hedge_spot pos mode trade_type funding qty else pure false)
    if hedged then pure tt else sell_spot_back pos mode trade_type qty

  -- `_recover_naked_spot`
  unfoldable pub recover_naked_spot :
      Mode → MergedConfig A → String → Position A → Action (World A G) (Unit {0})
  unfolding hedge_or_sell hedge_spot sell_spot_back
  recover_naked_spot mode config trade_type pos = do
    funding ← call (gateway.fetch_predicted_funding pos.perp_symbol)
    fees ← call (gateway.fetch_fees pos.spot_symbol pos.perp_symbol)
    bal ← call (gateway.fetch_balance pos.symbol)
    let qty = min (bal.spot.free + bal.spot.total) pos.quantity
    if le qty nought
        then mark_closed pos "naked_spot_zero_balance" flat_closed
        else hedge_or_sell pos mode config trade_type funding fees qty

  -- buys the missing spot leg; the answer is whether it filled
  unfoldable pub hedge_perp : Position A → Mode → String → A → Action (World A G) Bool
  hedge_perp pos mode trade_type qty = do
    let coid = "hedge-" <> host.str_ℕ pos.id <> "-spot"
    fill ← call (gateway.place_market_fok pos.spot_symbol spot buy qty coid)
    if fill.accepted
        then (do
          mark_status pos hedge_recovered
          assign pos.id (perp_hedged_row fill)
          record_trade mode trade_type pos.id pos.spot_symbol spot buy fill
          add_action ("phantom_perp_rescued:" <> pos.symbol)
          pure true)
        else pure false

  unfoldable pub buy_perp_back : Position A → Mode → String → A → Action (World A G) (Unit {0})
  buy_perp_back pos mode trade_type qty = do
    let coid = "close-" <> host.str_ℕ pos.id <> "-perp"
    fill ← call (gateway.place_market_fok pos.perp_symbol futures buy qty coid)
    if fill.accepted
        then (do
          mark_closed pos "" flat_closed
          record_trade mode trade_type pos.id pos.perp_symbol futures buy fill
          add_action ("phantom_perp_closed:" <> pos.symbol))
        else (do
          set_close_error pos ("recover_failed:" <> text_or_none fill.error)
          add_action ("phantom_perp_recovery_failed:" <> pos.symbol))

  unfoldable pub hedge_or_buy :
      Position A
      → Mode
      → MergedConfig A
      → String
      → FundingInfo A
      → FeeInfo A
      → A
      → Action (World A G) (Unit {0})
  unfolding hedge_pays hedge_perp buy_perp_back
  hedge_or_buy pos mode config trade_type funding fees qty = do
    pays ← hedge_pays config funding fees
    hedged ← (if pays then hedge_perp pos mode trade_type qty else pure false)
    if hedged then pure tt else buy_perp_back pos mode trade_type qty

  -- `_recover_naked_perp`
  unfoldable pub recover_naked_perp :
      Mode → MergedConfig A → String → Position A → Action (World A G) (Unit {0})
  unfolding hedge_or_buy hedge_perp buy_perp_back
  recover_naked_perp mode config trade_type pos = do
    funding ← call (gateway.fetch_predicted_funding pos.perp_symbol)
    fees ← call (gateway.fetch_fees pos.spot_symbol pos.perp_symbol)
    perps ← call gateway.list_open_perp_positions
    let qty = min (abs (perp_quantity pos.perp_symbol nought perps)) pos.quantity
    if le qty nought
        then mark_closed pos "naked_perp_zero_position" flat_closed
        else hedge_or_buy pos mode config trade_type funding fees qty
