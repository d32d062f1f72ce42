-- ===== src/Loop/Runner/Once.antt =====
-- loop/runner.py: `_run_one`, one cycle inside of its own session, and `_write_balance_snapshot`.
use auto_trader_claude.Base.{
  ℕ, suc, String, [], ◌∷◌, ◌++◌, length, Option, none, some, Outcome, ok, raised, Action, pure,
  ◌>>=◌, ◌>>◌,
}
use auto_trader_claude.Number.{Number, ◌+◌}
use auto_trader_claude.Core.Types.{Mode}
use auto_trader_claude.Core.Types.Config.{MergedConfig}
use auto_trader_claude.State.Models.{StrategyConfig, StrategyConfigPerStrategy, BalanceSnapshot}
use auto_trader_claude.State.Session.{Session}
use auto_trader_claude.State.Repository.Config.{
  get_or_create_strategy_config, get_or_seed_per_strategy_config,
}
use auto_trader_claude.State.Database.{Database, Process, session_scope}
use auto_trader_claude.Gateways.Venue.{Balances, Gateway}
use auto_trader_claude.Loop.World.{Host}
use auto_trader_claude.Loop.Executor.{LegTiming}
use auto_trader_claude.Loop.Cycle.Run.{run_cycle}
use auto_trader_claude.Loop.Runner.{Worker, with_venue, fetch_store}
use auto_trader_claude.Loop.Runner.Flows.{ingest_capital_flows}

module _ {A : Type 0} where
  -- the `MergedConfig` of the persisted rows
  unfoldable pub merged_config : StrategyConfigPerStrategy A → StrategyConfig A → MergedConfig A
  merged_config c g = record {
    entry_min_net_apy = c.entry_min_net_apy;
    exit_min_net_apy = c.exit_min_net_apy;
    exit_basis_buffer_multiple = c.exit_basis_buffer_multiple;
    max_exit_basis_bps = c.max_exit_basis_bps;
    stop_loss_pct = c.stop_loss_pct;
    basis_dislocation_exit_bps = c.basis_dislocation_exit_bps;
    min_position_pct = c.min_position_pct;
    max_position_pct = c.max_position_pct;
    sub_target_sizing_factor = c.sub_target_sizing_factor;
    perp_leverage = c.perp_leverage;
    max_perp_leverage = c.max_perp_leverage;
    auto_transfer_enabled = c.auto_transfer_enabled;
    auto_quote_swap_enabled = c.auto_quote_swap_enabled;
    futures_buffer_pct = c.futures_buffer_pct;
    depeg_guard_bps = c.depeg_guard_bps;
    max_open_positions = g.max_open_positions;
    max_trades_per_day = g.max_trades_per_day;
    loop_seconds = g.loop_seconds;
    paper_starting_equity = g.paper_starting_equity;
    paper_slippage_bps = g.paper_slippage_bps;
    paper_fee_bps = g.paper_fee_bps;
    hedge_integrity_check = g.hedge_integrity_check;
    delisting_check = g.delisting_check;
    cycle_error_rate_threshold = g.cycle_error_rate_threshold;
    slippage_alert_bps = g.slippage_alert_bps;
  }

module _ {A : Type 0} ⦃n : Number A⦄ where
  abbrev pub snapshot_of : Mode → String → ℕ → ℕ → Balances A → Balances A → BalanceSnapshot A
  snapshot_of mode exchange id now usdt usdc =
      let spot_total = usdt.spot.total + usdc.spot.total in
      let futures_total = usdt.futures.total + usdc.futures.total in
      let total_equity = spot_total + futures_total in
      record {
        id = id;
        mode = mode;
        exchange = exchange;
        ts = now;
        spot_free_usdt = usdt.spot.free + usdc.spot.free;
        futures_free_usdt = usdt.futures.free + usdc.futures.free;
        total_equity_usdt = total_equity;
        source = mode;
        spot_usdt = spot_total;
        futures_usdt = futures_total;
        total_usdt = total_equity;
      }

module _ {A G : Type 0} ⦃n : Number A⦄ ⦃gateway : Gateway A G⦄ where
  abbrev pub fetch_balances : Action G (Balances A × Balances A)
  fetch_balances = do
    usdt ← gateway.fetch_balance "USDT"
    usdc ← gateway.fetch_balance "USDC"
    pure (usdt, usdc)

  -- `session.flush()` of a session with new rows
  abbrev pub flushed : Outcome (Unit {0}) → Session A → Action (Process A (Worker G)) (Unit {0})
  flushed (ok _) s p = (ok tt, record p { store = s })
  flushed (raised e) s p = (raised e, p)

  abbrev pub add_snapshot :
      ⦃db : Database A⦄
      → Mode
      → Outcome (Balances A × Balances A) × G
      → Action (Process A (Worker G)) (Unit {0})
  add_snapshot mode (raised e, g) p = (ok tt, with_venue g p)
  add_snapshot ⦃db = db⦄ mode (ok (usdt, usdc), g) p =
      let s = p.store in
      let snap =
        snapshot_of mode gateway.exchange_id (suc (length s.balance_snapshots)) s.now usdt usdc in
      let s' : Session A = record s { balance_snapshots = s.balance_snapshots ++ (snap ∷ []) } in
      flushed (db.flush s') s' (with_venue g p)

  unfoldable pub write_balance_snapshot :
      ⦃db : Database A⦄ → Mode → Action (Process A (Worker G)) (Unit {0})
  write_balance_snapshot mode p = add_snapshot mode (fetch_balances p.outside.venue) p

-- What one cycle takes from outside: its id, the timing of the legs and the clock.
pub record Tick : Type 0 where
  pub cycle_id : String
  pub timing : LegTiming
  pub now : ℕ

module _ {A : Type 0} where
  -- the flush of the event that a failed cycle logs, in the handler of `run_cycle`
  abbrev pub flush_event : ⦃db : Database A⦄ → Option String → Session A → Outcome (Unit {0})
  flush_event none s = ok tt
  flush_event ⦃db = db⦄ (some _) s = db.flush s

module _ {A G : Type 0} ⦃n : Number A⦄ ⦃host : Host⦄ ⦃gateway : Gateway A G⦄ where
  abbrev pub cycle_in :
      ⦃db : Database A⦄
      → Mode
      → MergedConfig A
      → String
      → Tick
      → Action (Process A (Worker G)) (Unit {0})
  cycle_in mode cfg trade_type tick p =
      let w = run_cycle mode cfg trade_type tick.cycle_id tick.timing p.store p.outside.venue in
      (flush_event w.res.error w.session, record (with_venue w.venue p) { store = w.session })

  unfoldable pub one_body :
      ⦃db : Database A⦄ → Mode → String → Tick → Action (Process A (Worker G)) (Unit {0})
  unfolding merged_config
  one_body mode trade_type tick = do
    cfg_row ← fetch_store (get_or_seed_per_strategy_config trade_type)
    glob_row ← fetch_store get_or_create_strategy_config
    cycle_in mode (merged_config cfg_row glob_row) trade_type tick
    write_balance_snapshot mode
    ingest_capital_flows mode tick.now

  unfoldable pub run_one :
      ⦃db : Database A⦄ → Mode → String → Tick → Action (Process A (Worker G)) (Unit {0})
  run_one mode trade_type tick = session_scope tick.now (one_body mode trade_type tick)
