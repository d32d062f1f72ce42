-- ===== src/Demo/Runner.antt =====
-- The runner's theorems on concrete inputs: a database that takes every commit, and the paper venue.
use auto_trader_claude.Loop.Cycle.Close.{close_all_for_maintenance}
use auto_trader_claude.State.Repository.{positions_currently_exposed}
use auto_trader_claude.State.Repository.Config.{
  get_or_seed_per_strategy_config, get_or_create_strategy_config, get_or_create_mode_state,
}
use auto_trader_claude.Loop.World.{add_action, query, fetch}
use auto_trader_claude.Loop.Cycle.Safety.{phase_a_safety}
use auto_trader_claude.Loop.Cycle.Run.{run_cycle}
use auto_trader_claude.Base.{
  for_each, ap, ◌≡◌, refl, String, true, [], ◌∷◌, some, Outcome, ok, raised, ◌>>=◌, arith, length,
}
use auto_trader_claude.Number.{literal}
use auto_trader_claude.Number.Fixed.{ℤ, fixed_number}
use auto_trader_claude.Core.Types.{paper}
use auto_trader_claude.State.Database.{Database, Process, session_scope}
use auto_trader_claude.Gateways.Venue.{FlowRecord}
use auto_trader_claude.Gateways.Paper.{Paper, list_capital_flow_records, fetch_balance}
use auto_trader_claude.Loop.Runner.{Worker, fetch_store}
use auto_trader_claude.Loop.Runner.Flows.{flow_ids, ingest_rows, ingest_capital_flows}
use auto_trader_claude.Loop.Runner.Once.{Tick, run_one, one_body, write_balance_snapshot}
use auto_trader_claude.Loop.Runner.Ingested.{ingest_rows-inserts, ingest_rows-refused}
use auto_trader_claude.Loop.Runner.Atomic.{IsFlushError, LeftOver, opened, run_one-LeftOver}
use auto_trader_claude.Loop.Runner.Thread.{Surroundings, worker_loop, heartbeat_if_due}
use auto_trader_claude.Loop.Runner.Thread.Beats.{heartbeat_if_due-once}
use auto_trader_claude.Loop.Runner.Lasting.Thread.{worker_loop-stops}
use auto_trader_claude.Loop.Evolution.Rows.{Evolves}
use auto_trader_claude.Demo.{demo_host, demo_gateway, venue, fresh, prompt}

instance abbrev pub demo_database : Database ℤ
demo_database = record {
  flush = λ s. ok tt;
  commit = λ s. ok tt;
  integrity_error = record { kind = "IntegrityError"; message = "uq_capital_flows_external_id" };
}

abbrev deposit : String → FlowRecord ℤ
deposit id = record {
  ts = 5;
  amount_usdt = literal 100;
  flow_type = "deposit";
  external_id = id;
  note = "";
}

abbrev pub idle : Process ℤ (Worker (Paper ℤ))
idle = record {
  store = fresh;
  outside = record { venue = venue; last_heartbeat = []; last_capital_flow_ingest = [] };
}

-- the venue lists one deposit twice, and the mode is in maintenance
abbrev doubled : Process ℤ (Worker (Paper ℤ))
doubled = record idle {
  store = record fresh {
    mode_states =
        record { mode = paper; entry_enabled = true; exit_enabled = true; maintenance_mode = true }
        ∷ [];
  };
  outside = record (idle.outside) {
    venue = record venue { capital_flow_records = deposit "a" ∷ deposit "a" ∷ [] };
  };
}

abbrev tick : Tick
tick = record { cycle_id = "1-ab"; timing = prompt; now = 7200000000 }

abbrev around : Surroundings
around = record {
  tick = λ t. tick;
  crash_time = λ t. t;
  beat_time = λ t. t;
  read_time = λ t. t;
  elapsed = λ t. 0;
  stop_at = some 700000;
}

abbrev arb : String
arb = "binance_same_venue_funding_arb"

worker_loop-stops_example :
    (q : Process ℤ (Worker (Paper ℤ))) × (worker_loop paper "binance" arb around 3 0 idle ≡ some q)
    × Evolves fresh q.store
worker_loop-stops_example =
    worker_loop-stops paper "binance" arb around 700000 2 0 idle refl (omega arith)

ingest_rows-inserts_example :
    let rows = deposit "a" ∷ deposit "b" ∷ [] in
    (q : Process ℤ (Worker (Paper ℤ))) × (ingest_rows paper "binance" rows idle ≡ (ok tt, q))
    × (flow_ids q.store.capital_flows ≡ "a" ∷ "b" ∷ [])
    × (ingest_rows paper "binance" rows q ≡ (ok tt, q))
ingest_rows-inserts_example =
    ingest_rows-inserts paper "binance" (deposit "a" ∷ deposit "b" ∷ []) idle refl refl

ingest_rows-refused_example :
    ingest_rows paper "binance" (deposit "a" ∷ deposit "a" ∷ []) idle
    ≡ (raised demo_database.integrity_error, idle)
ingest_rows-refused_example =
    ingest_rows-refused paper "binance" (deposit "a" ∷ deposit "a" ∷ []) idle refl refl

abbrev undone : Outcome (Unit {0}) × Process ℤ (Worker (Paper ℤ))
undone = run_one paper arb tick doubled

undone-raised : undone.0 ≡ raised demo_database.integrity_error
unfolding run_one session_scope one_body fetch_store write_balance_snapshot ingest_capital_flows
    list_capital_flow_records fetch_balance ◌>>=◌ run_cycle phase_a_safety fetch
    get_or_create_mode_state get_or_create_strategy_config get_or_seed_per_strategy_config query
    for_each positions_currently_exposed close_all_for_maintenance add_action
undone-raised = refl

run_one-LeftOver_example :
    LeftOver demo_database
      (IsFlushError demo_database)
      doubled
      (one_body paper arb tick (opened paper arb tick doubled)).1
      demo_database.integrity_error
      undone.1
run_one-LeftOver_example =
    run_one-LeftOver paper arb tick doubled demo_database.integrity_error undone.1
      (ap (λ r. (r, undone.1)) undone-raised)

heartbeat_if_due-once_example :
    (length (heartbeat_if_due paper "binance" 7200000000 idle).1.store.bot_events ≡ 1)
    × (heartbeat_if_due paper "binance" 7300000000
          (heartbeat_if_due paper "binance" 7200000000 idle).1
        ≡ (ok tt, (heartbeat_if_due paper "binance" 7200000000 idle).1))
heartbeat_if_due-once_example =
    heartbeat_if_due-once paper "binance" 7200000000 7300000000 idle refl refl refl
