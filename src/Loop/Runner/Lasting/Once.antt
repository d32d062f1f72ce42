-- ===== src/Loop/Runner/Lasting/Once.antt =====
-- loop/runner.py: `_run_one`, against the relation `Evolves`.
use auto_trader_claude.Base.{String, Outcome, ok, raised}
use auto_trader_claude.Number.{Number}
use auto_trader_claude.Core.Types.{Mode}
use auto_trader_claude.Core.Types.Config.{MergedConfig}
use auto_trader_claude.State.Database.{Database, Process}
use auto_trader_claude.State.Session.{Session}
use auto_trader_claude.Gateways.Venue.{Balances, Gateway}
use auto_trader_claude.Loop.World.{Host}
use auto_trader_claude.Loop.Evolution.Rows.{Evolves, Evolves-refl, evolve_snapshots}
use auto_trader_claude.Loop.Evolution.Cycle.{run_cycle-Evolves}
use auto_trader_claude.Loop.Runner.{Worker, with_venue}
use auto_trader_claude.Loop.Runner.Once.{
  flushed, add_snapshot, write_balance_snapshot, Tick, cycle_in, one_body, run_one,
}
use auto_trader_claude.Loop.Runner.Lasting.{
  Lasting, Lasting-bind, Lasting-scope, Lasting-fetch, config-Evolves, per_strategy-Evolves,
  ingest-Lasting,
}

module _ {A G : Type 0} ⦃n : Number A⦄ ⦃gateway : Gateway A G⦄ where
  flushed-Evolves :
      (r : Outcome (Unit {0})) (t s : Session A) (p : Process A (Worker G))
      → Evolves t p.store
      → Evolves t s
      → Evolves t (flushed r s p).1.store
  flushed-Evolves (ok _) t s p h k = k
  flushed-Evolves (raised e) t s p h k = h

  add_snapshot-Evolves :
      ⦃db : Database A⦄ (mode : Mode) (r : Outcome (Balances A × Balances A)) (g : G)
      (p : Process A (Worker G))
      → Evolves p.store (add_snapshot mode (r, g) p).1.store
  add_snapshot-Evolves mode (raised e) g p = Evolves-refl p.store
  add_snapshot-Evolves mode (ok (usdt, usdc)) g p =
      flushed-Evolves _ p.store _ (with_venue g p) (Evolves-refl p.store)
        (evolve_snapshots p.store _)

  write_balance_snapshot-Lasting :
      ⦃db : Database A⦄ (mode : Mode) → Lasting {A = A} (write_balance_snapshot {G = G} mode)
  unfolding write_balance_snapshot
  write_balance_snapshot-Lasting mode = record { at = λ p. add_snapshot-Evolves mode _ _ p }

module _ {A G : Type 0} ⦃n : Number A⦄ ⦃host : Host⦄ ⦃gateway : Gateway A G⦄ where
  cycle_in-Lasting :
      ⦃db : Database A⦄ (mode : Mode) (cfg : MergedConfig A) (trade_type : String) (tick : Tick)
      → Lasting {A = A} (cycle_in {G = G} mode cfg trade_type tick)
  cycle_in-Lasting mode cfg trade_type tick = record {
    at = λ p.
        run_cycle-Evolves mode cfg trade_type tick.cycle_id tick.timing p.store p.outside.venue;
  }

  module _ ⦃db : Database A⦄ (mode : Mode) (trade_type : String) (tick : Tick) where
    one_body-Lasting : Lasting {A = A} (one_body {G = G} mode trade_type tick)
    unfolding one_body
    one_body-Lasting =
        Lasting-bind _ _ (Lasting-fetch _ (per_strategy-Evolves trade_type)) (λ cfg_row.
          Lasting-bind _ _ (Lasting-fetch _ config-Evolves) (λ glob_row.
            Lasting-bind _ _ (cycle_in-Lasting mode _ trade_type tick) (λ _.
              Lasting-bind _ _ (write_balance_snapshot-Lasting mode)
                (λ _. ingest-Lasting mode tick.now))))

    pub run_one-Lasting : Lasting {A = A} (run_one {G = G} mode trade_type tick)
    unfolding run_one
    run_one-Lasting = Lasting-scope tick.now _ one_body-Lasting
