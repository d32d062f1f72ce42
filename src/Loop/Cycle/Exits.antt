-- ===== src/Loop/Cycle/Exits.antt =====
-- loop/cycle.py: phase B.
use auto_trader_claude.Base.{
  String, ◌<>◌, false, not, if◌then◌else◌, some, List, keep, Action, done, for_each, run_outcome,
  ◌>>=◌, ◌>>◌,
}
use auto_trader_claude.Number.{Number, lt, le}
use auto_trader_claude.Core.Types.{Mode, is_open}
use auto_trader_claude.Core.Types.Config.{MergedConfig}
use auto_trader_claude.Core.Types.Market.{FundingInfo}
use auto_trader_claude.Core.Math.{
  basis_bps, basis_dislocation_triggered, forward_net_apy_for_exit, unrealized_pnl_fraction,
}
use auto_trader_claude.Core.Sizing.Entry.{snapshots_co_temporal}
use auto_trader_claude.State.Models.{Position, warn}
use auto_trader_claude.State.Session.{Session}
use auto_trader_claude.State.Repository.{positions_currently_exposed}
use auto_trader_claude.Gateways.Venue.{Gateway}
use auto_trader_claude.Loop.World.{Host, World, call, query, assign, add_action, with_position}
use auto_trader_claude.Loop.Cycle.Marks.{record_event}
use auto_trader_claude.Loop.Cycle.Close.{close_position_market_fok}

module _ {A : Type 0} where
  abbrev pub live_funding : FundingInfo A → Position A → Position A
  live_funding funding p = record p {
    last_funding_rate = funding.predicted_rate;
    funding_interval_hours = funding.interval_hours;
  }

  -- the rows that phase B evaluates
  abbrev pub open_rows : Mode → String → Session A → List (Position A)
  open_rows mode exchange s =
      keep (λ p. is_open p.status) (positions_currently_exposed mode (some exchange) s)

module _ {A G : Type 0} ⦃n : Number A⦄ ⦃host : Host⦄ ⦃gateway : Gateway A G⦄ where
  -- The voluntary trigger: an exit that the forward gate wants is put off while the live basis is
  -- adverse.
  unfoldable pub voluntary_exit :
      Mode → MergedConfig A → Position A → A → A → Action (World A G) (Unit {0})
  voluntary_exit mode config pos live_basis fwd_apy =
      if not (lt fwd_apy config.exit_min_net_apy)
      then done
      else if lt config.max_exit_basis_bps live_basis
      then add_action ("defer_exit:" <> pos.symbol <> ":basis_unfavourable")
      else close_position_market_fok pos mode "exit" "forward_profit"

  -- from the two marks on: the mandatory triggers, then the voluntary one
  unfoldable pub decide_exit :
      Mode → MergedConfig A → Position A → FundingInfo A → A → A → Action (World A G) (Unit {0})
  unfolding voluntary_exit
  decide_exit mode config pos funding spot_mark perp_mark = do
    let live_basis = basis_bps perp_mark spot_mark
    let entry_basis = basis_bps pos.perp_entry_price pos.spot_entry_price
    fees ← call (gateway.fetch_fees pos.spot_symbol pos.perp_symbol)
    pnl_frac ← run_outcome (
        unrealized_pnl_fraction pos.quantity pos.spot_entry_price pos.perp_entry_price spot_mark
          perp_mark)
    if le pnl_frac config.stop_loss_pct
        then close_position_market_fok pos mode "exit" "stop_loss"
        else if basis_dislocation_triggered entry_basis live_basis config.basis_dislocation_exit_bps
        then close_position_market_fok pos mode "exit" "basis_dislocation"
        else (do
          fwd_apy ← run_outcome (
              forward_net_apy_for_exit funding.predicted_rate funding.interval_hours live_basis
                fees.spot_fee_bps fees.perp_fee_bps config.exit_basis_buffer_multiple)
          voluntary_exit mode config pos live_basis fwd_apy)

  -- `_evaluate_position_exit`
  unfoldable pub evaluate_position_exit :
      Mode → MergedConfig A → Position A → Action (World A G) (Unit {0})
  unfolding decide_exit
  evaluate_position_exit mode config pos = do
    funding ← call (gateway.fetch_predicted_funding pos.perp_symbol)
    assign pos.id (live_funding funding)
    spot_book ← call (gateway.snapshot_book pos.spot_symbol)
    perp_book ← call (gateway.snapshot_book pos.perp_symbol)
    if not (snapshots_co_temporal spot_book perp_book)
        then record_event mode warn ("snapshot_skew:" <> pos.symbol) false
        else decide_exit mode config pos funding spot_book.mid_price perp_book.mid_price

  -- `_phase_b_exits`; the loop over no rows does nothing
  unfoldable pub phase_b_exits : Mode → MergedConfig A → Action (World A G) (Unit {0})
  unfolding evaluate_position_exit
  phase_b_exits mode config = do
    exposed ← query (open_rows mode gateway.exchange_id)
    for_each exposed (with_position (evaluate_position_exit mode config))
