-- ===== src/Loop/Runner/Thread.antt =====
-- loop/runner.py: `_heartbeat_if_due` and `_worker_loop`. Each iteration starts at an instant of the
-- monotonic clock; `Surroundings` says what it meets there. The stop event is set at one instant,
-- or never, and stays set.
pub mod Beats
use Prim.Native.Nat.{◌+◌, ◌-◌, ◌*◌}
use auto_trader_claude.Base.{
  ℕ, zero, suc, String, ◌<>◌, Bool, false, List, Option, none, some, ltb, leb, if◌then◌else◌,
  Outcome, ok, raised, Action,
}
use auto_trader_claude.Number.{Number}
use auto_trader_claude.Core.Types.{Mode}
use auto_trader_claude.Core.Keyed.{key_or, put_key}
use auto_trader_claude.State.Models.{StrategyConfig, Level, info, error}
use auto_trader_claude.State.Repository.{log_event}
use auto_trader_claude.State.Repository.Config.{get_or_create_strategy_config}
use auto_trader_claude.State.Database.{Database, Process, session_scope}
use auto_trader_claude.Gateways.Venue.{Gateway}
use auto_trader_claude.Loop.World.{Host}
use auto_trader_claude.Loop.Runner.{Worker, interval, passed_over, write_store, fetch_store}
use auto_trader_claude.Loop.Runner.Once.{Tick, run_one}

pub record Surroundings : Type 0 where
  -- what the cycle of the iteration that starts there takes, and the clock at its later scopes
  pub tick : ℕ → Tick
  pub crash_time : ℕ → ℕ
  pub beat_time : ℕ → ℕ
  pub read_time : ℕ → ℕ
  -- how long the iteration takes up to its wait
  pub elapsed : ℕ → ℕ
  pub stop_at : Option ℕ

abbrev pub is_stopped : Option ℕ → ℕ → Bool
is_stopped none t = false
is_stopped (some stop) t = leb stop t

module _ {A G : Type 0} ⦃db : Database A⦄ where
  -- a scope that logs one event, with its exceptions passed over
  abbrev pub log_quietly :
      ℕ → Mode → String → Level → String → Action (Process A (Worker G)) (Unit {0})
  log_quietly now mode exchange level message =
      passed_over (session_scope now (write_store (log_event mode exchange level message false)))

  abbrev pub stamp_heartbeat : Mode → String → ℕ → Process A (Worker G) → Process A (Worker G)
  stamp_heartbeat mode exchange now p = record p {
    outside = record (p.outside) {
      last_heartbeat = put_key (mode, exchange) now p.outside.last_heartbeat;
    };
  }

  unfoldable pub heartbeat_if_due : Mode → String → ℕ → Action (Process A (Worker G)) (Unit {0})
  heartbeat_if_due mode exchange now p =
      let last = key_or (mode, exchange) 0 p.outside.last_heartbeat in
      if leb interval (now - last)
      then log_quietly now mode exchange info "loop heartbeat" (stamp_heartbeat mode exchange now p)
      else (ok tt, p)

-- `max(1, int(cfg.loop_seconds))`, in microseconds
abbrev pub period_of : {A : Type 0} → StrategyConfig A → ℕ
period_of cfg = (if ltb 1 cfg.loop_seconds then cfg.loop_seconds else 1) * 1000000

-- `max(0.5, period - elapsed)`
abbrev pub remaining_of : ℕ → ℕ → ℕ
remaining_of period elapsed = if ltb 500000 (period - elapsed) then period - elapsed else 500000

module _ {A G : Type 0} ⦃n : Number A⦄ ⦃db : Database A⦄ where
  abbrev pub period_or :
      Outcome (StrategyConfig A) × Process A (Worker G) → ℕ × Process A (Worker G)
  period_or (ok cfg, p) = (period_of cfg, p)
  period_or (raised e, p) = (30000000, p)

  unfoldable pub read_period : ℕ → Process A (Worker G) → ℕ × Process A (Worker G)
  read_period now p = period_or (session_scope now (fetch_store get_or_create_strategy_config) p)

module _ {A G : Type 0} ⦃n : Number A⦄ ⦃db : Database A⦄ ⦃host : Host⦄ ⦃gateway : Gateway A G⦄ where
  -- the `try` around the cycle
  abbrev pub cycle_guard :
      Mode → String → ℕ → Outcome (Unit {0}) × Process A (Worker G) → Process A (Worker G)
  cycle_guard mode exchange now (ok _, p) = p
  cycle_guard mode exchange now (raised e, p) =
      (log_quietly now mode exchange error ("runner_crash: " <> host.repr e) p).1

  module _ (mode : Mode) (exchange trade_type : String) (around : Surroundings) where
    -- one iteration up to its wait, and for how long it waits
    unfoldable pub iteration : ℕ → Process A (Worker G) → ℕ × Process A (Worker G)
    iteration t p =
        let q =
          cycle_guard mode exchange (around.crash_time t)
            (run_one mode trade_type (around.tick t) p) in
        let beaten = (heartbeat_if_due mode exchange (around.beat_time t) q).1 in
        let (period, q') = read_period (around.read_time t) beaten in
        (remaining_of period (around.elapsed t), q')

    -- The loop, from the instant `t` on. Out of fuel it returns none.
    unfoldable pub worker_loop : ℕ → ℕ → Process A (Worker G) → Option (Process A (Worker G))
    worker_loop zero t p = none
    worker_loop (suc fuel) t p =
        let (remaining, q) = iteration t p in
        let t' = t + around.elapsed t + remaining in
        let rest = worker_loop fuel t' q in
        if is_stopped around.stop_at t
        then some p
        else if is_stopped around.stop_at t'
        then some q
        else rest
