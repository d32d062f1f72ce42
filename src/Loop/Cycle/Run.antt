-- ===== src/Loop/Cycle/Run.antt =====
-- loop/cycle.py: `run_cycle`.
use auto_trader_claude.Base.{
  String, ◌<>◌, false, if◌then◌else◌, [], none, some, Outcome, ok, raised, Action, done, ◌>>=◌,
  ◌>>◌,
}
use auto_trader_claude.Number.{Number}
use auto_trader_claude.Core.Types.{Mode, mode_text}
use auto_trader_claude.Core.Types.Config.{MergedConfig}
use auto_trader_claude.State.Models.{ModeState, error}
use auto_trader_claude.State.Session.{Session}
use auto_trader_claude.State.Repository.{log_event}
use auto_trader_claude.State.Repository.Config.{get_or_create_mode_state}
use auto_trader_claude.Gateways.Venue.{Gateway}
use auto_trader_claude.Loop.World.{Host, CycleResult, World, fetch, add_action}
use auto_trader_claude.Loop.Executor.{LegTiming}
use auto_trader_claude.Loop.Cycle.Safety.{phase_a_safety}
use auto_trader_claude.Loop.Cycle.Close.{close_all_for_maintenance}
use auto_trader_claude.Loop.Cycle.Exits.{phase_b_exits}
use auto_trader_claude.Loop.Cycle.Entries.{phase_c_entries}

abbrev new_result : String → Mode → String → CycleResult
new_result cycle_id mode exchange = record {
  cycle_id = cycle_id;
  mode = mode;
  exchange = exchange;
  actions = [];
  rejections = [];
  error = none;
}

module _ {A G : Type 0} ⦃host : Host⦄ ⦃gateway : Gateway A G⦄ where
  -- the `except`
  abbrev pub handle : Mode → Outcome (Unit {0}) × World A G → World A G
  handle mode (ok _, w) = w
  handle mode (raised exc, w) = record w {
    res = record (w.res) { error = some exc.message };
    session =
        log_event mode gateway.exchange_id error
          ("Loop iteration error (" <> mode_text mode <> "): " <> host.repr exc) false w.session;
  }

  abbrev pub start : Mode → String → Session A → G → World A G
  start mode cycle_id s g = record {
    session = s;
    venue = g;
    res = new_result cycle_id mode gateway.exchange_id;
  }

module _ {A G : Type 0} ⦃n : Number A⦄ ⦃host : Host⦄ ⦃gateway : Gateway A G⦄ where
  -- behind the maintenance short-circuit
  unfoldable pub trade_phases :
      Mode
      → MergedConfig A
      → String
      → String
      → LegTiming
      → ModeState
      → Action (World A G) (Unit {0})
  trade_phases mode config trade_type cycle_id timing state = do
    phase_b_exits mode config
    (if state.entry_enabled then phase_c_entries mode config trade_type cycle_id timing else done)

  -- the body of the `try`
  unfoldable pub cycle_body :
      Mode → MergedConfig A → String → String → LegTiming → Action (World A G) (Unit {0})
  unfolding trade_phases
  cycle_body mode config trade_type cycle_id timing = do
    phase_a_safety mode config trade_type
    state ← fetch (get_or_create_mode_state mode)
    if state.maintenance_mode
        then (do close_all_for_maintenance mode cycle_id; add_action "maintenance_close_run")
        else trade_phases mode config trade_type cycle_id timing state

  unfoldable pub run_cycle :
      Mode → MergedConfig A → String → String → LegTiming → Session A → G → World A G
  unfolding cycle_body
  run_cycle mode config trade_type cycle_id timing s g =
      handle mode (cycle_body mode config trade_type cycle_id timing (start mode cycle_id s g))
