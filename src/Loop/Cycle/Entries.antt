-- ===== src/Loop/Cycle/Entries.antt =====
-- loop/cycle.py: phase C up to the order placement. Each function goes from one early return to the
-- next.

use auto_trader_claude.Base.{
  String, ◌<>◌, leb, length, not, if◌then◌else◌, List, [], ◌∷◌, map, Option, none, some, Action,
  run_outcome, ◌>>=◌,
}
use auto_trader_claude.Number.{Number, ◌+◌, ◌*◌, lt, le, literal, decimal, nought, divide}
use auto_trader_claude.Core.Types.{Mode, spot, futures, buy, sell}
use auto_trader_claude.Core.Types.Config.{MergedConfig}
use auto_trader_claude.Core.Types.Market.{BookSnapshot, ScanCandidate, SizingResult}
use auto_trader_claude.Core.Math.{basis_bps, evaluate_gate}
use auto_trader_claude.Core.Sizing.Entry.{SizingLimits, size_entry, snapshots_co_temporal}
use auto_trader_claude.State.Repository.{positions_currently_exposed}
use auto_trader_claude.Gateways.Venue.{Gateway}
use auto_trader_claude.Loop.World.{Host, World, call, query, add_action}
use auto_trader_claude.Loop.Idempotency.{client_order_id}
use auto_trader_claude.Loop.Executor.{LegTiming, parallel_market_fok_entry}
use auto_trader_claude.Loop.Cycle.Marks.{text_or_none}
use auto_trader_claude.Loop.Cycle.Scan.{tier1_scan, sort_candidates, not_held, first}
use auto_trader_claude.Loop.Cycle.Fills.{reject, settle_entry}

-- `x or default` for a reason that is not empty
abbrev reason_or : Option String → String → String
reason_or none default = default
reason_or (some r) default = r

module _ {A : Type 0} ⦃n : Number A⦄ where
  abbrev low_profit : A → A → String
  low_profit net floor =
      "insufficient_annualized_profit (net=" <> n.format 4 net <> " < " <> n.format 4 floor <> ")"

module _ {A G : Type 0} ⦃n : Number A⦄ ⦃host : Host⦄ ⦃gateway : Gateway A G⦄ where
  -- the order placement and what follows it
  unfoldable pub place_entry :
      Mode → String → String → LegTiming → ScanCandidate A → A → Action (World A G) (Unit {0})
  place_entry mode trade_type cycle_id timing c qty = do
    let spot_coid = client_order_id cycle_id c.spot_symbol spot buy
    let perp_coid = client_order_id cycle_id c.perp_symbol futures sell
    entry ←
        call (parallel_market_fok_entry timing c.spot_symbol c.perp_symbol qty spot_coid perp_coid)
    settle_entry mode trade_type c entry entry.outcome

  -- the profitability gate with real fees and the basis of the forecast fills
  unfoldable pub gate_entry :
      Mode
      → MergedConfig A
      → String
      → String
      → LegTiming
      → ScanCandidate A
      → SizingResult A
      → Action (World A G) (Unit {0})
  unfolding place_entry
  gate_entry mode config trade_type cycle_id timing c sizing = do
    fees ← call (gateway.fetch_fees c.spot_symbol c.perp_symbol)
    gate ← run_outcome (
        evaluate_gate (record {
          funding_rate = c.predicted_funding_rate;
          funding_interval_hours = c.funding_interval_hours;
          entry_basis_bps = basis_bps sizing.forecast_perp_avg_price sizing.forecast_spot_avg_price;
          spot_fee_bps = fees.spot_fee_bps;
          perp_fee_bps = fees.perp_fee_bps;
          swap_basis_bps = nought;
          exit_basis_buffer_multiple = config.exit_basis_buffer_multiple;
        }))
    if lt gate.net_apy config.entry_min_net_apy
        then reject mode c (low_profit gate.net_apy config.entry_min_net_apy) "tier3_reject"
        else place_entry mode trade_type cycle_id timing c sizing.target_qty

  -- the tests of the size: something to trade, and enough of it
  unfoldable pub check_size :
      Mode
      → MergedConfig A
      → String
      → String
      → LegTiming
      → ScanCandidate A
      → SizingResult A
      → A
      → Action (World A G) (Unit {0})
  unfolding gate_entry
  check_size mode config trade_type cycle_id timing c sizing total_equity =
      if le sizing.target_qty nought
      then reject mode c (reason_or sizing.rejection_reason "zero_target_qty")
          (text_or_none sizing.rejection_reason)
      else if lt (sizing.target_qty * sizing.forecast_spot_avg_price)
          (config.min_position_pct * total_equity)
      then reject mode c "below_min_pct_after_clamp" "below_min_pct"
      else gate_entry mode config trade_type cycle_id timing c sizing

  -- the closed-form sizing of the candidate
  unfoldable pub size_candidate :
      Mode
      → MergedConfig A
      → String
      → String
      → LegTiming
      → ScanCandidate A
      → BookSnapshot A
      → BookSnapshot A
      → Action (World A G) (Unit {0})
  unfolding check_size
  size_candidate mode config trade_type cycle_id timing c spot_book perp_book = do
    spot_wallets ← call (gateway.fetch_balance c.spot_quote_currency)
    perp_wallets ← call (gateway.fetch_balance c.quote_currency)
    let spot_free = spot_wallets.spot.free
    let perp_free = perp_wallets.futures.free
    operator_cap_qty ←
        run_outcome (divide (config.max_position_pct * (spot_free + perp_free)) spot_book.mid_price)
    spot_lot_step ← call (gateway.lot_step c.spot_symbol)
    perp_lot_step ← call (gateway.lot_step c.perp_symbol)
    let limits : SizingLimits A = record {
      spot_wallet_quote_free = spot_free;
      perp_wallet_quote_free = perp_free;
      leverage = literal config.perp_leverage;
      safety = decimal 99 2;
      sub_target = config.sub_target_sizing_factor;
      operator_cap_qty = operator_cap_qty;
      spot_lot_step = spot_lot_step;
      perp_lot_step = perp_lot_step;
    }
    sizing ← run_outcome (size_entry spot_book perp_book limits)
    check_size mode config trade_type cycle_id timing c sizing (spot_free + perp_free)

  -- both books of the candidate, taken at one time
  unfoldable pub try_candidate :
      Mode
      → MergedConfig A
      → String
      → String
      → LegTiming
      → ScanCandidate A
      → Action (World A G) (Unit {0})
  unfolding size_candidate
  try_candidate mode config trade_type cycle_id timing c = do
    spot_book ← call (gateway.snapshot_book c.spot_symbol)
    perp_book ← call (gateway.snapshot_book c.perp_symbol)
    if not (snapshots_co_temporal spot_book perp_book)
        then reject mode c "snapshot_skew" "snapshot_skew"
        else size_candidate mode config trade_type cycle_id timing c spot_book perp_book

  unfoldable pub try_first :
      Mode
      → MergedConfig A
      → String
      → String
      → LegTiming
      → Option (ScanCandidate A)
      → Action (World A G) (Unit {0})
  unfolding try_candidate
  try_first mode config trade_type cycle_id timing none = add_action "all_candidates_already_held"
  try_first mode config trade_type cycle_id timing (some c) =
      try_candidate mode config trade_type cycle_id timing c

  unfoldable pub scan_result :
      Mode
      → MergedConfig A
      → String
      → String
      → LegTiming
      → List (ScanCandidate A)
      → Action (World A G) (Unit {0})
  unfolding try_first
  scan_result mode config trade_type cycle_id timing [] = add_action "no_candidates"
  scan_result mode config trade_type cycle_id timing (c ∷ cs) = do
    held ← query (positions_currently_exposed mode (some gateway.exchange_id))
    try_first mode config trade_type cycle_id timing
        (first (sort_candidates (not_held (map (λ p. p.symbol) held) (c ∷ cs))))

  -- `_phase_c_entries`
  unfoldable pub phase_c_entries :
      Mode → MergedConfig A → String → String → LegTiming → Action (World A G) (Unit {0})
  unfolding scan_result try_candidate
  phase_c_entries mode config trade_type cycle_id timing = do
    exposed ← query (positions_currently_exposed mode none)
    if leb config.max_open_positions (length exposed) then add_action "at_capacity" else (do
      rates ← call gateway.fetch_funding_rates
      candidates ← run_outcome (tier1_scan config rates)
      scan_result mode config trade_type cycle_id timing candidates)
