-- ===== src/Loop/Runner/Lasting.antt =====
-- loop/runner.py: what a scope, an iteration and the whole loop of a thread do to the tables, against
-- the relation `Evolves`.
pub mod Once
pub mod Thread
use Prim.Native.Nat.{◌-◌}
use auto_trader_claude.Core.Keyed.{key_or}
use auto_trader_claude.Base.{
  all_distinct, contains, Option-cases, keep, ℕ, zero, suc, ◌≡◌, refl, ◌∙◌, sym, ap, subst, String,
  Bool, true, false, Bool-cases, inl, inr, List, [], ◌∷◌, ◌++◌, Option, none, some, length, ltb,
  if◌then◌else◌, Outcome, ok, raised, Exn, Action, pure, continue, ◌>>=◌,
}
use auto_trader_claude.Number.{Number}
use auto_trader_claude.Core.Types.{Mode}
use auto_trader_claude.State.Models.{Level, CapitalFlow, StrategyConfig, StrategyConfigPerStrategy}
use auto_trader_claude.State.Session.{Session}
use auto_trader_claude.State.Repository.{log_event}
use auto_trader_claude.State.Repository.Config.{
  get_or_create_strategy_config, get_or_seed_per_strategy_config, find_strategy,
}
use auto_trader_claude.State.Database.{Database, Process, session_scope, settle}
use auto_trader_claude.Gateways.Venue.{FlowRecord, Gateway}
use auto_trader_claude.Loop.World.{Host}
use auto_trader_claude.Loop.Evolution.Rows.{
  Grows, Grows-refl, Grows-trans, Rows-refl, Evolves, Evolves-refl, Evolves-trans, evolve_events,
  evolve_settings, evolve_snapshots, evolve_flows,
}
use auto_trader_claude.Loop.Evolution.Cycle.{run_cycle-Evolves}
use auto_trader_claude.Loop.Runner.{
  interval, with_venue, Worker, write_store, fetch_store, passed_over,
}
use auto_trader_claude.Loop.Runner.Flows.{
  record_ids, stamp_ingest, flow_ids, add_flows, is_new, new_flow, flush_flows, ingest_rows,
  ingest_answer, ingest_capital_flows,
}

-- Whether `m` returns or raises, the tables evolve.
pub record Lasting {A V X : Type 0} (m : Action (Process A V) X) : Type 0 where
  pub at : (p : Process A V) → Evolves p.store (m p).1.store

module _ {A V X Y : Type 0} where
  continue-Evolves :
      (s : Session A) (r : Outcome X) (f : X → Action (Process A V) Y) (p : Process A V)
      → Evolves s p.store
      → ((x : X) → Lasting (f x))
      → Evolves s (continue r f p).1.store
  continue-Evolves s (ok x) f p h k = Evolves-trans _ _ _ h ((k x).at p)
  continue-Evolves s (raised e) f p h k = h

  pub Lasting-bind :
      (m : Action (Process A V) X) (f : X → Action (Process A V) Y)
      → Lasting m
      → ((x : X) → Lasting (f x))
      → Lasting (m >>= f)
  unfolding ◌>>=◌
  Lasting-bind m f h k = record { at = λ p. continue-Evolves p.store (m p).0 f (m p).1 (h.at p) k }

module _ {A V X : Type 0} ⦃db : Database A⦄ where
  settle-Evolves :
      (s : Session A) (r : Outcome X) (p : Process A V)
      → Evolves s p.store
      → Evolves s (settle s (r, p)).1.store
  settle-Evolves s (raised e) p h = Evolves-refl s
  settle-Evolves s (ok x) p h = committed (db.commit p.store) refl
    where
      committed :
          (c : Outcome (Unit {0})) → db.commit p.store ≡ c → Evolves s (settle s (ok x, p)).1.store
      committed (ok _) e = rw (e, settle) h
      committed (raised _) e = rw (e, settle) (Evolves-refl s)

  pub Lasting-scope :
      (now : ℕ) (body : Action (Process A V) X) → Lasting body → Lasting (session_scope now body)
  unfolding session_scope
  Lasting-scope now body h = record {
    at = λ p. settle-Evolves p.store _ _ (
        Evolves-trans _ _ _ (evolve_settings p.store now _ _ _ _)
          (h.at (record p { store = record (p.store) { now = now } })));
  }

module _ {A V : Type 0} where
  pub Lasting-write :
      (f : Session A → Session A)
      → ((s : Session A) → Evolves s (f s))
      → Lasting {V = V} (write_store f)
  unfolding write_store
  Lasting-write f h = record { at = λ p. h p.store }

  pub Lasting-fetch :
      {X : Type 0} (f : Session A → X × Session A)
      → ((s : Session A) → Evolves s (f s).1)
      → Lasting {V = V} (fetch_store f)
  unfolding fetch_store
  Lasting-fetch f h = record { at = λ p. h p.store }

module _ {A : Type 0} where
  pub log_event-Evolves :
      (mode : Mode) (exchange : String) (level : Level) (message : String) (b : Bool)
      (s : Session A)
      → Evolves s (log_event mode exchange level message b s)
  unfolding log_event
  log_event-Evolves mode exchange level message b s = evolve_events s _

  add_flows-Grows :
      (mode : Mode) (exchange : String) (ids : List String) (rows : List (FlowRecord A))
      (flows : List (CapitalFlow A))
      → Grows flows (add_flows mode exchange ids rows flows)
  add_flows-Grows mode exchange ids [] flows = Grows-refl flows
  add_flows-Grows mode exchange ids (r ∷ rows) flows = elim (Bool-cases (is_new ids r)) [
    | inl e ↦
        rw (e, add_flows)
          (Grows-trans _ _ _ (_, refl)
            (add_flows-Grows mode exchange ids rows
              (flows ++ (new_flow mode exchange (suc (length flows)) r ∷ []))))
    | inr e ↦ rw (e, add_flows) (add_flows-Grows mode exchange ids rows flows)
  ]

module _ {A : Type 0} ⦃n : Number A⦄ where
  pub config-Evolves : (s : Session A) → Evolves s (get_or_create_strategy_config s).1
  unfolding get_or_create_strategy_config
  config-Evolves s = elim (Option-cases s.strategy_config) [
    | inl e ↦ simp (e, get_or_create_strategy_config) (evolve_settings s _ _ _ _ _)
    | inr (cfg, e) ↦ simp (e, get_or_create_strategy_config) (Evolves-refl s)
  ]

  pub per_strategy-Evolves :
      (t : String) (s : Session A) → Evolves s (get_or_seed_per_strategy_config t s).1
  unfolding get_or_seed_per_strategy_config
  per_strategy-Evolves t s = elim (Option-cases (find_strategy t s.per_strategy)) [
    | inl e ↦ rw (e, get_or_seed_per_strategy_config) (evolve_settings s _ _ _ _ _)
    | inr (row, e) ↦ rw (e, get_or_seed_per_strategy_config) (Evolves-refl s)
  ]

module _ {A G : Type 0} ⦃db : Database A⦄ where
  flush-Evolves :
      (flows : List (CapitalFlow A)) (p : Process A (Worker G))
      → Grows p.store.capital_flows flows
      → Evolves p.store (flush_flows flows p).1.store
  flush-Evolves flows p g = elim (Bool-cases (all_distinct (flow_ids flows))) [
    | inl e ↦ rw (e, flush_flows) (evolve_flows p.store flows g e)
    | inr e ↦ rw (e, flush_flows) (Evolves-refl p.store)
  ]

  rows-Evolves :
      (mode : Mode) (exchange : String) (rows : List (FlowRecord A)) (p : Process A (Worker G))
      → Evolves p.store (ingest_rows mode exchange rows p).1.store
  rows-Evolves mode exchange rows p =
      elim (Bool-cases (ltb (length p.store.capital_flows) (length flows))) [
        | inl e ↦
            rw (e, ingest_rows) (flush-Evolves flows p (add_flows-Grows mode exchange _ rows _))
        | inr e ↦ rw (e, ingest_rows) (Evolves-refl p.store)
      ]
    where
      flows : List (CapitalFlow A)
      flows =
          add_flows mode exchange
            (keep (λ i. contains i (record_ids rows)) (flow_ids p.store.capital_flows)) rows
            p.store.capital_flows

  answer-Evolves :
      (mode : Mode) (exchange : String) (now : ℕ) (r : Outcome (List (FlowRecord A))) (g : G)
      (p : Process A (Worker G))
      → Evolves p.store (ingest_answer mode exchange now (r, g) p).1.store
  answer-Evolves mode exchange now (raised e) g p = Evolves-refl p.store
  answer-Evolves mode exchange now (ok []) g p = Evolves-refl p.store
  answer-Evolves mode exchange now (ok (r ∷ rows)) g p =
      rows-Evolves mode exchange (r ∷ rows) (stamp_ingest mode exchange now (with_venue g p))

  pub ingest-Lasting :
      ⦃gateway : Gateway A G⦄ (mode : Mode) (now : ℕ)
      → Lasting {A = A} (ingest_capital_flows {G = G} mode now)
  unfolding ingest_capital_flows
  ingest-Lasting ⦃gateway = gateway⦄ mode now = record {
    at = λ p. elim (Bool-cases (is_recent p)) [
      | inl e ↦ rw e (Evolves-refl p.store)
      | inr e ↦ rw e (answer-Evolves mode gateway.exchange_id now _ _ p)
    ];
  }
    where
      is_recent : Process A (Worker G) → Bool
      is_recent p =
          ltb (now - key_or (mode, gateway.exchange_id) 0 p.outside.last_capital_flow_ingest)
            interval
