-- ===== src/Loop/Runner/Start.antt =====
-- loop/runner.py: `start_runner` and `stop_runner`; and the factory of gateways/__init__.py. The
-- constructors of the live gateways are parameters.
pub mod Tracked
pub mod Stopped
use auto_trader_claude.Base.{
  ℕ, suc, String, str_eq, ◌<>◌, truthy, Bool, true, false, not, ◌&&◌, List, [], ◌∷◌, ◌++◌, map,
  Dict, get_or, if◌then◌else◌, Outcome, ok, raised, Exn, Action, pure, raise, gets, run_outcome,
  modify, done, for_each, ◌>>=◌, ◌>>◌,
}
use auto_trader_claude.Number.{Number}
use auto_trader_claude.Core.Types.{Mode, paper, live}
use auto_trader_claude.Core.Keyed.{Keyed}
use auto_trader_claude.Core.Settings.{EnvConfig, load_env, register_gateway, clear_registry}
use auto_trader_claude.State.Session.{Session}
use auto_trader_claude.State.Repository.Config.{
  get_or_create_mode_state, get_or_create_strategy_config, get_or_seed_per_strategy_config,
}
use auto_trader_claude.State.Database.{Database, Process, session_scope, seed_venue_defaults}
use auto_trader_claude.Gateways.Venue.{Gateway}
use auto_trader_claude.Loop.World.{Host}
use auto_trader_claude.Loop.Runner.{passed_over, write_store, fetch_store}
use auto_trader_claude.Loop.Runner.Activate.{legacy_set, activate}
use auto_trader_claude.Loop.Runner.Account.{assert_account_id}

-- `stop_event` is the number under which the event was made.
pub record WorkerHandle : Type 0 where
  pub mode : Mode
  pub exchange_id : String
  pub stop_event : ℕ

-- A gateway object: its calls and its state.
pub record Adapter (A G : Type 0) : Type 0 where
  pub calls : Gateway A G
  pub state : G

-- What the constructors of the gateways and `Thread.start` come to.
pub record Makers (A G : Type 0) : Type 0 where
  pub in_memory : String → Adapter A G
  pub binance : String → String → String → Outcome (Adapter A G)
  pub kucoin : String → String → String → String → Outcome (Adapter A G)
  pub hyperliquid : String → String → String → Outcome (Adapter A G)
  pub start_thread : Mode → String → Outcome (Unit {0})

-- The module's list of workers, the registry, the number of stop events made so far, and which of
-- them belong to a started thread, or are set.
pub record Runtime (A G : Type 0) : Type 0 where
  pub workers : List WorkerHandle
  pub registry : Keyed (Adapter A G)
  pub events : ℕ
  pub started : List ℕ
  pub set : List ℕ

abbrev pub trade_type_for : String → String
trade_type_for exchange_id = exchange_id <> "_same_venue_funding_arb"

module _ {A G : Type 0} ⦃makers : Makers A G⦄ where
  unfoldable pub build_live_gateway : String → EnvConfig → Outcome (Adapter A G)
  build_live_gateway exchange_id env =
      if str_eq exchange_id "binance"
      then makers.binance env.binance_api_key env.binance_api_secret env.binance_expected_account_id
      else if str_eq exchange_id "kucoin"
      then makers.kucoin env.kucoin_api_key env.kucoin_api_secret env.kucoin_passphrase
          env.kucoin_expected_account_id
      else if str_eq exchange_id "hyperliquid"
      then makers.hyperliquid env.hyperliquid_wallet_address env.hyperliquid_private_key
          env.hyperliquid_expected_account_id
      else raised (record { kind = "ValueError"; message = "unknown exchange: " <> exchange_id })

  unfoldable pub build_gateway : String → EnvConfig → Mode → Outcome (Adapter A G)
  build_gateway exchange_id env live = build_live_gateway exchange_id env
  build_gateway exchange_id env paper = ok (makers.in_memory exchange_id)

module _ {A G : Type 0} ⦃db : Database A⦄ ⦃host : Host⦄ where
  -- a check of a gateway that is not registered yet
  abbrev pub beside :
      Runtime A G
      → Gateway A G
      → Outcome (Unit {0}) × Process A G
      → Outcome (Adapter A G) × Process A (Runtime A G)
  beside rt calls (ok _, q) =
      (ok (record { calls = calls; state = q.outside }), record { store = q.store; outside = rt })
  beside rt calls (raised e, q) = (raised e, record { store = q.store; outside = rt })

  -- `if mode == "live": _assert_account_id(gw)`
  abbrev pub checked : Mode → ℕ → Adapter A G → Action (Process A (Runtime A G)) (Adapter A G)
  checked paper now gw p = (ok gw, p)
  checked live now gw p =
      beside p.outside gw.calls (
        assert_account_id ⦃gateway = gw.calls⦄ now (record { store = p.store; outside = gw.state }))

  abbrev pub change_runtime :
      (Runtime A G → Runtime A G) → Action (Process A (Runtime A G)) (Unit {0})
  change_runtime f = modify (λ p. record p { outside = f p.outside })

abbrev pub registered : {A G : Type 0} → Mode → String → Adapter A G → Runtime A G → Runtime A G
registered mode exchange_id gw rt = record rt {
  registry = register_gateway mode exchange_id gw rt.registry;
  events = suc rt.events;
}

-- behind `t.start()`: the event is the last one made
abbrev pub with_worker : {A G : Type 0} → Mode → String → ℕ → Runtime A G → Runtime A G
with_worker mode exchange_id event rt = record rt {
  started = event ∷ rt.started;
  workers =
      rt.workers ++ (record { mode = mode; exchange_id = exchange_id; stop_event = event } ∷ []);
}

abbrev is_live_hyperliquid : Mode → String → Bool
is_live_hyperliquid paper exchange_id = false
is_live_hyperliquid live exchange_id = str_eq exchange_id "hyperliquid"

abbrev pub activate_in :
    {A : Type 0} → Dict String → EnvConfig → Session A → List String × Session A
activate_in environ env s =
    let (out, rows) = activate (legacy_set environ) env s.venue_states in
    (out, record s { venue_states = rows })

module _ {A G : Type 0} ⦃n : Number A⦄ ⦃db : Database A⦄ ⦃host : Host⦄ ⦃makers : Makers A G⦄ where
  -- the body of the `try` for one worker
  unfoldable pub spawn : EnvConfig → ℕ → String → Mode → Action (Process A (Runtime A G)) (Unit {0})
  unfolding build_gateway
  spawn env now exchange_id mode = do
    built ← run_outcome (build_gateway exchange_id env mode)
    gw ← checked mode now built
    event ← gets (λ p. p.outside.events)
    change_runtime (registered mode exchange_id gw)
    run_outcome (makers.start_thread mode exchange_id)
    change_runtime (with_worker mode exchange_id event)

  unfoldable pub start_worker :
      EnvConfig → ℕ → String → Mode → Action (Process A (Runtime A G)) (Unit {0})
  unfolding spawn
  start_worker env now exchange_id mode =
      if is_live_hyperliquid mode exchange_id && not (truthy env.hyperliquid_private_key)
      then done
      else passed_over (spawn env now exchange_id mode)

  unfoldable pub seed_singletons : List String → Action (Process A (Runtime A G)) (Unit {0})
  seed_singletons active = do
    fetch_store get_or_create_strategy_config
    fetch_store (get_or_create_mode_state paper)
    fetch_store (get_or_create_mode_state live)
    for_each active (λ x. do fetch_store (get_or_seed_per_strategy_config (trade_type_for x)); done)

  -- behind the list of venues to activate
  unfoldable pub start_active :
      EnvConfig → ℕ → List String → Action (Process A (Runtime A G)) (List WorkerHandle)
  unfolding seed_singletons start_worker
  start_active env now [] = pure []
  start_active env now (x ∷ xs) = do
    session_scope now (seed_singletons (x ∷ xs))
    for_each (x ∷ xs) (λ exchange_id. do
      start_worker env now exchange_id paper
      start_worker env now exchange_id live)
    gets (λ p. p.outside.workers)

  -- behind the two early returns
  unfoldable pub start_fresh :
      Dict String → ℕ → Action (Process A (Runtime A G)) (List WorkerHandle)
  unfolding start_active
  start_fresh environ now = do
    session_scope now
        (write_store (λ s. record s { venue_states = seed_venue_defaults s.venue_states }))
    active ← session_scope now (fetch_store (activate_in environ (load_env environ)))
    start_active (load_env environ) now active

  abbrev start_from :
      List WorkerHandle → Dict String → ℕ → Action (Process A (Runtime A G)) (List WorkerHandle)
  start_from (w ∷ ws) environ now = pure (w ∷ ws)
  start_from [] environ now =
      if str_eq (get_or "BOT_WORKER_ENABLED" "1" environ) "0"
      then pure []
      else start_fresh environ now

  unfoldable pub start_runner :
      Dict String → ℕ → Action (Process A (Runtime A G)) (List WorkerHandle)
  start_runner environ now p = start_from p.outside.workers environ now p

-- Each thread is joined for what is left of the timeout, which changes nothing here.
unfoldable pub stop_runner : {A G : Type 0} → Runtime A G → Runtime A G
stop_runner rt = record rt {
  set = map (λ (w : WorkerHandle). w.stop_event) rt.workers ++ rt.set;
  workers = [];
  registry = clear_registry rt.registry;
}
