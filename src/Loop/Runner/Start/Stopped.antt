-- ===== src/Loop/Runner/Start/Stopped.antt =====
-- loop/runner.py: `start_runner` followed by `stop_runner`.
use auto_trader_claude.Base.{
  ℕ, ◌≡◌, refl, inl, inr, String, List, [], ◌∷◌, ◌++◌, map, some, Dict, All, All-append, Outcome,
  ok, raised, run_outcome, modify, ◌>>=◌, ◌>>◌,
}
use auto_trader_claude.Number.{Number}
use auto_trader_claude.Core.Types.{Mode, paper, live}
use auto_trader_claude.Core.Keyed.{put_key-found, find-put_key}
use auto_trader_claude.Core.Settings.{EnvConfig, register_gateway, get_gateway}
use auto_trader_claude.State.Database.{Database, Process}
use auto_trader_claude.Gateways.Venue.{Gateway}
use auto_trader_claude.Loop.World.{Host}
use auto_trader_claude.Loop.Runner.Start.{
  WorkerHandle, Adapter, Makers, Runtime, beside, checked, change_runtime, registered, with_worker,
  spawn, start_worker, seed_singletons, start_active, start_fresh, start_from, start_runner,
  stop_runner,
}
use auto_trader_claude.Loop.Runner.Start.Tracked.{
  IsIn, All-weaken, HasGateway, Tracked, Tracking, Tracking-pure, Tracking-gets,
  Tracking-run_outcome, Tracking-fetch, Tracking-if, Tracking-scope, Tracking-done, Tracking-write,
  Tracking-passed_over, Tracking-bind, Tracking-for_each,
}

ruleset tracking = (
  Tracking-pure, Tracking-gets, Tracking-run_outcome, Tracking-fetch, Tracking-if, Tracking-scope,
  Tracking-done, Tracking-write, Tracking-passed_over, Tracking-bind, Tracking-for_each,
)

longer-IsIn :
    (mode : Mode) (x : String) (event i : ℕ) (ws : List WorkerHandle) (set : List ℕ)
    → IsIn i (event ∷ map (λ (w : WorkerHandle). w.stop_event) ws ++ set)
    → IsIn i (
        map
          (λ (w : WorkerHandle). w.stop_event)
          (ws ++ (record { mode = mode; exchange_id = x; stop_event = event } ∷ []))
        ++ set)
longer-IsIn mode x event i [] set h = h
longer-IsIn mode x event i (w ∷ ws) set (inl e) = inr (longer-IsIn mode x event i ws set (inl e))
longer-IsIn mode x event i (w ∷ ws) set (inr (inl e)) = inl e
longer-IsIn mode x event i (w ∷ ws) set (inr (inr h)) =
    inr (longer-IsIn mode x event i ws set (inr h))

module _ {A G : Type 0} where
  registered-HasGateway :
      (mode : Mode) (x : String) (gw : Adapter A G) (rt : Runtime A G) (w : WorkerHandle)
      → HasGateway rt w
      → HasGateway (registered mode x gw rt) w
  unfolding register_gateway get_gateway
  registered-HasGateway mode x gw rt w (g, e) =
      put_key-found (w.mode, w.exchange_id) (mode, x) gw g rt.registry e

  registered-Tracked :
      (mode : Mode) (x : String) (gw : Adapter A G) (rt : Runtime A G)
      → Tracked rt
      → Tracked (registered mode x gw rt)
  registered-Tracked mode x gw rt h = record {
    threads = h.threads;
    gateways =
        All-weaken (HasGateway rt) _ rt.workers (registered-HasGateway mode x gw rt) h.gateways;
  }

  -- a worker whose gateway is registered
  with_worker-Tracked :
      (mode : Mode) (x : String) (event : ℕ) (rt : Runtime A G) (gw : Adapter A G)
      → get_gateway mode x rt.registry ≡ some gw
      → Tracked rt
      → Tracked (with_worker mode x event rt)
  with_worker-Tracked mode x event rt gw e h = record {
    threads = (
      longer-IsIn mode x event event rt.workers rt.set (inl refl),
      All-weaken _ _ rt.started (λ i m. longer-IsIn mode x event i rt.workers rt.set (inr m))
          h.threads,
    );
    gateways = All-append (HasGateway rt) rt.workers _ h.gateways ((gw, e), tt);
  }

  registered-found :
      (mode : Mode) (x : String) (gw : Adapter A G) (rt : Runtime A G)
      → get_gateway mode x (registered mode x gw rt).registry ≡ some gw
  unfolding register_gateway get_gateway
  registered-found mode x gw rt = find-put_key (mode, x) gw rt.registry

module _ {A G : Type 0} ⦃n : Number A⦄ ⦃db : Database A⦄ ⦃host : Host⦄ ⦃makers : Makers A G⦄ where
  started-Tracking :
      (mode : Mode) (x : String) (gw : Adapter A G) (event : ℕ) (r : Outcome (Unit {0}))
      → Tracking {A = A} {G = G} (do
        change_runtime (registered mode x gw)
        run_outcome r
        change_runtime (with_worker mode x event))
  unfolding ◌>>=◌ run_outcome modify
  started-Tracking mode x gw event (ok _) = record {
    at = λ p h.
        with_worker-Tracked mode x event _ gw (registered-found mode x gw p.outside)
          (registered-Tracked mode x gw p.outside h);
  }
  started-Tracking mode x gw event (raised e) = record {
    at = λ p h. registered-Tracked mode x gw p.outside h;
  }

  beside-Tracked :
      (rt : Runtime A G) (calls : Gateway A G) (r : Outcome (Unit {0})) (q : Process A G)
      → Tracked rt
      → Tracked (beside rt calls (r, q)).1.outside
  beside-Tracked rt calls (ok _) q h = h
  beside-Tracked rt calls (raised e) q h = h

  checked-Tracking :
      (mode : Mode) (now : ℕ) (gw : Adapter A G) → Tracking {A = A} {G = G} (checked mode now gw)
  checked-Tracking paper now gw = record { at = λ p h. h }
  checked-Tracking live now gw = record { at = λ p h. beside-Tracked p.outside gw.calls _ _ h }

  spawn-Tracking :
      (env : EnvConfig) (now : ℕ) (x : String) (mode : Mode)
      → Tracking {A = A} {G = G} (spawn env now x mode)
  unfolding spawn
  spawn-Tracking env now x mode = search (tracking, started-Tracking, checked-Tracking) depth 20

  start_worker-Tracking :
      (env : EnvConfig) (now : ℕ) (x : String) (mode : Mode)
      → Tracking {A = A} {G = G} (start_worker env now x mode)
  unfolding start_worker
  start_worker-Tracking env now x mode = search (tracking, spawn-Tracking) depth 20

  seed-Tracking : (active : List String) → Tracking {A = A} {G = G} (seed_singletons active)
  unfolding seed_singletons
  seed-Tracking active = search tracking depth 20

  start_active-Tracking :
      (env : EnvConfig) (now : ℕ) (active : List String)
      → Tracking {A = A} {G = G} (start_active env now active)
  unfolding start_active
  start_active-Tracking env now [] = search tracking depth 20
  start_active-Tracking env now (x ∷ xs) =
      search (tracking, seed-Tracking, start_worker-Tracking) depth 20

  start_fresh-Tracking :
      (environ : Dict String) (now : ℕ) → Tracking {A = A} {G = G} (start_fresh environ now)
  unfolding start_fresh
  start_fresh-Tracking environ now = search (tracking, start_active-Tracking) depth 20

  start_from-Tracking :
      (ws : List WorkerHandle) (environ : Dict String) (now : ℕ)
      → Tracking {A = A} {G = G} (start_from ws environ now)
  start_from-Tracking (w ∷ ws) environ now = search tracking
  start_from-Tracking [] environ now = search (tracking, start_fresh-Tracking)

  -- From a runtime whose started threads are all in the list of workers or signalled to stop, and
  -- whose workers have a registered gateway, `start_runner` leads to another such one, with
  -- whatever gateways it cannot build, accounts that do not match and threads that do not start;
  -- and `stop_runner` then sets the stop event of every thread that was ever started.
  pub start_runner-Tracked :
      (environ : Dict String) (now : ℕ) (p : Process A (Runtime A G))
      → Tracked p.outside
      → Tracked (start_runner environ now p).1.outside
        × All
            (λ i. IsIn i (stop_runner (start_runner environ now p).1.outside).set)
            (start_runner environ now p).1.outside.started
  unfolding start_runner stop_runner
  start_runner-Tracked environ now p h =
      let t = (start_from-Tracking p.outside.workers environ now).at p h in (t, t.threads)
