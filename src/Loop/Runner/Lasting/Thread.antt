-- ===== src/Loop/Runner/Lasting/Thread.antt =====
-- loop/runner.py: `_worker_loop`, which ends once the stop event is set, against the relation
-- `Evolves`.
use Prim.Native.Nat.{◌+◌, ◌-◌, ◌*◌, ◌≤◌}
use auto_trader_claude.Base.{
  subst, ℕ, zero, suc, ◌≡◌, refl, ◌∙◌, sym, String, Bool-cases, inl, inr, true, false, some,
  Outcome, ok, raised, leb, arith,
}
use auto_trader_claude.Number.{Number}
use auto_trader_claude.Core.Types.{Mode}
use auto_trader_claude.Core.Keyed.{key_or}
use auto_trader_claude.State.Models.{Level, StrategyConfig, info, error}
use auto_trader_claude.State.Database.{Database, Process}
use auto_trader_claude.Gateways.Venue.{Gateway}
use auto_trader_claude.Loop.World.{Host}
use auto_trader_claude.Loop.Evolution.Rows.{Evolves, Evolves-refl, Evolves-trans}
use auto_trader_claude.Loop.Runner.{Worker, interval}
use auto_trader_claude.Loop.Runner.Thread.{
  Surroundings, is_stopped, log_quietly, heartbeat_if_due, stamp_heartbeat, period_or, read_period,
  remaining_of, cycle_guard, iteration, worker_loop,
}
use auto_trader_claude.Loop.Runner.Lasting.{
  Lasting, Lasting-scope, Lasting-write, Lasting-fetch, log_event-Evolves, config-Evolves,
}
use auto_trader_claude.Loop.Runner.Lasting.Once.{run_one-Lasting}

module _ {A G : Type 0} ⦃db : Database A⦄ where
  log_quietly-Lasting :
      (now : ℕ) (mode : Mode) (exchange : String) (level : Level) (message : String)
      → Lasting {A = A} (log_quietly {G = G} now mode exchange level message)
  log_quietly-Lasting now mode exchange level message = record {
    at =
        (Lasting-scope now _
          (Lasting-write _ (log_event-Evolves mode exchange level message false))).at;
  }

  heartbeat-Lasting :
      (mode : Mode) (exchange : String) (now : ℕ)
      → Lasting {A = A} (heartbeat_if_due {G = G} mode exchange now)
  unfolding heartbeat_if_due
  heartbeat-Lasting mode exchange now = record {
    at = λ p.
        elim (Bool-cases
          (leb interval (now - key_or (mode, exchange) 0 p.outside.last_heartbeat))) [
            | inl e ↦ rw e (
                (log_quietly-Lasting now mode exchange info "loop heartbeat").at
                  (stamp_heartbeat mode exchange now p))
            | inr e ↦ rw e (Evolves-refl p.store)
          ];
  }

module _ {A G : Type 0} ⦃n : Number A⦄ ⦃db : Database A⦄ where
  period_or-store :
      (r : Outcome (StrategyConfig A)) (p : Process A (Worker G))
      → (period_or (r, p)).1.store ≡ p.store
  period_or-store (ok cfg) p = refl
  period_or-store (raised e) p = refl

  read_period-Evolves :
      (now : ℕ) (p : Process A (Worker G)) → Evolves p.store (read_period now p).1.store
  unfolding read_period
  read_period-Evolves now p =
      subst (λ s. Evolves p.store s) (sym (period_or-store _ _))
        ((Lasting-scope now _ (Lasting-fetch _ config-Evolves)).at p)

remaining-positive : (period elapsed : ℕ) → 500000 ≤ remaining_of period elapsed
remaining-positive period elapsed = ground arith

stopped_by :
    (around : Surroundings) (stop t : ℕ)
    → around.stop_at ≡ some stop
    → stop ≤ t
    → is_stopped around.stop_at t ≡ true
stopped_by around stop t e h = rw e (ground (arith, h))

module _ {A G : Type 0} ⦃n : Number A⦄ ⦃db : Database A⦄ ⦃host : Host⦄ ⦃gateway : Gateway A G⦄ where
  guard-Evolves :
      (mode : Mode) (exchange : String) (now : ℕ) (r : Outcome (Unit {0}))
      (p : Process A (Worker G))
      → Evolves p.store (cycle_guard mode exchange now (r, p)).store
  guard-Evolves mode exchange now (ok _) p = Evolves-refl p.store
  guard-Evolves mode exchange now (raised e) p =
      (log_quietly-Lasting now mode exchange error _).at p

  module _ (mode : Mode) (exchange trade_type : String) (around : Surroundings) where
    iteration-Evolves :
        (t : ℕ) (p : Process A (Worker G))
        → Evolves p.store (iteration mode exchange trade_type around t p).1.store
    unfolding iteration
    iteration-Evolves t p =
        Evolves-trans _ _ _ ((run_one-Lasting mode trade_type (around.tick t)).at p) (
          Evolves-trans _ _ _ (guard-Evolves mode exchange (around.crash_time t) _ _) (
            Evolves-trans _ _ _ ((heartbeat-Lasting mode exchange (around.beat_time t)).at _)
              (read_period-Evolves (around.read_time t) _)))

    -- the instant and the state behind the wait
    abbrev later : ℕ → Process A (Worker G) → ℕ
    later t p = t + around.elapsed t + (iteration mode exchange trade_type around t p).0

    abbrev after : ℕ → Process A (Worker G) → Process A (Worker G)
    after t p = (iteration mode exchange trade_type around t p).1

    waited :
        (stop fuel t : ℕ) (p : Process A (Worker G))
        → stop ≤ t + suc fuel * 500000
        → stop
          ≤ t + around.elapsed t + (iteration mode exchange trade_type around t p).0 + fuel * 500000
    unfolding iteration
    waited stop fuel t p h = omega (arith, h, remaining-positive _ (around.elapsed t))

    worker_loop-stopped :
        (fuel t : ℕ) (p : Process A (Worker G))
        → is_stopped around.stop_at t ≡ true
        → worker_loop mode exchange trade_type around (suc fuel) t p ≡ some p
    unfolding worker_loop
    worker_loop-stopped fuel t p e = rw e refl

    worker_loop-last :
        (fuel t : ℕ) (p : Process A (Worker G))
        → is_stopped around.stop_at t ≡ false
        → is_stopped around.stop_at (later t p) ≡ true
        → worker_loop mode exchange trade_type around (suc fuel) t p ≡ some (after t p)
    unfolding worker_loop
    worker_loop-last fuel t p e₁ e₂ = rw (e₁, e₂) refl

    worker_loop-next :
        (fuel t : ℕ) (p : Process A (Worker G))
        → is_stopped around.stop_at t ≡ false
        → is_stopped around.stop_at (later t p) ≡ false
        → worker_loop mode exchange trade_type around (suc fuel) t p
          ≡ worker_loop mode exchange trade_type around fuel (later t p) (after t p)
    unfolding worker_loop
    worker_loop-next fuel t p e₁ e₂ = rw (e₁, e₂) refl

    -- `_worker_loop` comes to an end: from the instant `t` on, with the stop event set at `stop` and
    -- fuel for one iteration each half second up to then, it returns, whatever the cycles and the
    -- database do; and from the tables it started with to those it leaves, rows of positions have
    -- moved by transitions of the state machine alone, the other tables have only got more rows,
    -- and the external ids of capital flows are distinct if they were.
    pub worker_loop-stops :
        (stop fuel t : ℕ) (p : Process A (Worker G))
        → around.stop_at ≡ some stop
        → stop ≤ t + fuel * 500000
        → (q : Process A (Worker G)) × (worker_loop mode exchange trade_type around (suc fuel) t p
            ≡ some q)
          × Evolves p.store q.store
    worker_loop-stops stop zero t p e h = (
      p,
      worker_loop-stopped 0 t p (stopped_by around stop t e (omega (arith, h))),
      Evolves-refl p.store,
    )
    worker_loop-stops stop (suc fuel) t p e h = elim (Bool-cases (is_stopped around.stop_at t)) [
      | inl e₁ ↦ (p, worker_loop-stopped (suc fuel) t p e₁, Evolves-refl p.store)
      | inr e₁ ↦ elim (Bool-cases (is_stopped around.stop_at (later t p))) [
        | inl e₂ ↦ (after t p, worker_loop-last (suc fuel) t p e₁ e₂, iteration-Evolves t p)
        | inr e₂ ↦
            let (r, e₃, ev) =
              worker_loop-stops stop fuel (later t p) (after t p) e (waited stop fuel t p h) in
            (
              r,
              worker_loop-next (suc fuel) t p e₁ e₂ ∙ e₃,
              Evolves-trans _ _ _ (iteration-Evolves t p) ev,
            )
      ]
    ]
