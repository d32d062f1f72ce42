-- ===== src/Loop/Runner/Atomic.antt =====
-- loop/runner.py: what a `_run_one` that raises leaves.
use auto_trader_claude.Core.Types.Config.{MergedConfig}
use auto_trader_claude.Base.{
  Outcome-cases, subst, Bool, ℕ, ◌≡◌, refl, ◌∙◌, sym, ap, ◌⊎◌, inl, inr, String, Bool-cases, List,
  [], ◌∷◌, Option, none, some, Outcome, ok, raised, Exn, Action, continue, ◌>>=◌, all_distinct,
  length, ltb,
}
use Prim.Native.Nat.{◌-◌}
use auto_trader_claude.Number.{Number}
use auto_trader_claude.Core.Types.{Mode}
use auto_trader_claude.Core.Keyed.{key_or}
use auto_trader_claude.State.Session.{Session}
use auto_trader_claude.State.Models.{CapitalFlow}
use auto_trader_claude.State.Database.{Database, Process, session_scope, settle}
use auto_trader_claude.Gateways.Venue.{Balances, FlowRecord, Gateway}
use auto_trader_claude.Loop.World.{Host}
use auto_trader_claude.Loop.Runner.{Worker, fetch_store, interval, with_venue}
use auto_trader_claude.Loop.Runner.Ingested.{inserted}
use auto_trader_claude.State.Database.{rolled_back}
use auto_trader_claude.Loop.Runner.Flows.{
  flow_ids, flush_flows, ingest_rows, stamp_ingest, ingest_answer, ingest_capital_flows,
}
use auto_trader_claude.Loop.Runner.Once.{
  flush_event, cycle_in, flushed, add_snapshot, write_balance_snapshot, Tick, one_body, run_one,
}

-- What is raised, if anything, satisfies `P`.
abbrev pub Raises : {X : Type 0} → (Exn → Type 0) → Outcome X → Type 0
Raises P (ok _) = Unit
Raises P (raised e) = P e

-- the error of a UNIQUE constraint, or one that a flush raises
abbrev pub IsFlushError : {A : Type 0} → Database A → Exn → Type 0
IsFlushError {A = A} db e = (e ≡ db.integrity_error) ⊎ ((s : Session A) × (db.flush s ≡ raised e))

-- All that `m` may raise are errors of flushes.
pub record Constrained {A V X : Type 0} (db : Database A) (m : Action (Process A V) X)
    : Type 0 where
  pub at : (p : Process A V) → Raises (IsFlushError db) (m p).0

module _ {A V X Y : Type 0} (db : Database A) where
  continue-Raises :
      (r : Outcome X) (f : X → Action (Process A V) Y) (p : Process A V)
      → Raises (IsFlushError db) r
      → ((x : X) → Constrained db (f x))
      → Raises (IsFlushError db) (continue r f p).0
  continue-Raises (ok x) f p h k = (k x).at p
  continue-Raises (raised e) f p h k = h

  Constrained-bind :
      (m : Action (Process A V) X) (f : X → Action (Process A V) Y)
      → Constrained db m
      → ((x : X) → Constrained db (f x))
      → Constrained db (m >>= f)
  unfolding ◌>>=◌
  Constrained-bind m f h k = record { at = λ p. continue-Raises (m p).0 f (m p).1 (h.at p) k }

module _ {A V X : Type 0} (db : Database A) where
  Constrained-fetch : (f : Session A → X × Session A) → Constrained {V = V} db (fetch_store f)
  unfolding fetch_store
  Constrained-fetch f = record { at = λ p. tt }

module _ {A : Type 0} (db : Database A) where
  flush-IsFlushError :
      (s : Session A) (r : Outcome (Unit {0})) → db.flush s ≡ r → Raises (IsFlushError db) r
  flush-IsFlushError s (ok x) h = tt
  flush-IsFlushError s (raised e) h = inr (s, h)

module _ {A G : Type 0} ⦃n : Number A⦄ ⦃gateway : Gateway A G⦄ (db : Database A) where
  flushed-Raises :
      (r : Outcome (Unit {0})) (s : Session A) (p : Process A (Worker G))
      → Raises (IsFlushError db) r
      → Raises (IsFlushError db) (flushed r s p).0
  flushed-Raises (ok x) s p h = tt
  flushed-Raises (raised e) s p h = h

  add_snapshot-Raises :
      (mode : Mode) (r : Outcome (Balances A × Balances A)) (g : G) (p : Process A (Worker G))
      → Raises (IsFlushError db) (add_snapshot ⦃db = db⦄ mode (r, g) p).0
  add_snapshot-Raises mode (raised e) g p = tt
  add_snapshot-Raises mode (ok (usdt, usdc)) g p =
      flushed-Raises _ _ (with_venue g p) (flush-IsFlushError db _ _ refl)

  snapshot-Constrained :
      (mode : Mode) → Constrained db (write_balance_snapshot {G = G} ⦃db = db⦄ mode)
  unfolding write_balance_snapshot
  snapshot-Constrained mode = record { at = λ p. add_snapshot-Raises mode _ _ p }

module _ {A : Type 0} (db : Database A) where
  event-Raises :
      (error : Option String) (s : Session A)
      → Raises (IsFlushError db) (flush_event ⦃db = db⦄ error s)
  event-Raises none s = tt
  event-Raises (some text) s = flush-IsFlushError db s _ refl

module _ {A G : Type 0} ⦃db : Database A⦄ where
  flush-Raises :
      (flows : List (CapitalFlow A)) (p : Process A (Worker G))
      → Raises (IsFlushError db) (flush_flows flows p).0
  flush-Raises flows p = elim (Bool-cases (all_distinct (flow_ids flows))) [
    | inl e ↦ rw (e, flush_flows) tt
    | inr e ↦ rw (e, flush_flows) (inl refl)
  ]

  rows-Raises :
      (mode : Mode) (exchange : String) (rows : List (FlowRecord A)) (p : Process A (Worker G))
      → Raises (IsFlushError db) (ingest_rows mode exchange rows p).0
  rows-Raises mode exchange rows p =
      elim (Bool-cases (ltb (length p.store.capital_flows) (length flows))) [
        | inl e ↦ rw (e, ingest_rows) (flush-Raises flows p)
        | inr e ↦ rw (e, ingest_rows) tt
      ]
    where
      flows : List (CapitalFlow A)
      flows = (inserted mode exchange rows p).store.capital_flows

  answer-Raises :
      (mode : Mode) (exchange : String) (now : ℕ) (r : Outcome (List (FlowRecord A))) (g : G)
      (p : Process A (Worker G))
      → Raises (IsFlushError db) (ingest_answer mode exchange now (r, g) p).0
  answer-Raises mode exchange now (raised e) g p = tt
  answer-Raises mode exchange now (ok []) g p = tt
  answer-Raises mode exchange now (ok (r ∷ rows)) g p =
      rows-Raises mode exchange (r ∷ rows) (stamp_ingest mode exchange now (with_venue g p))

  ingest-Constrained :
      ⦃gateway : Gateway A G⦄ (mode : Mode) (now : ℕ)
      → Constrained db (ingest_capital_flows {G = G} mode now)
  unfolding ingest_capital_flows
  ingest-Constrained ⦃gateway = gateway⦄ mode now = record {
    at = λ p. elim (Bool-cases (is_recent p)) [
      | inl e ↦ rw e tt
      | inr e ↦ rw e (answer-Raises mode gateway.exchange_id now _ _ p)
    ];
  }
    where
      is_recent : Process A (Worker G) → Bool
      is_recent p =
          ltb (now - key_or (mode, gateway.exchange_id) 0 p.outside.last_capital_flow_ingest)
            interval

-- a scope that raised `e`: the tables are as before, and the rest as the body left it
pub record LeftOver {A V : Type 0} (db : Database A) (P : Exn → Type 0)
    (before reached : Process A V) (e : Exn) (q : Process A V) : Type 0 where
  pub tables : q.store ≡ before.store
  pub rest : q.outside ≡ reached.outside
  pub reason : P e ⊎ (db.commit reached.store ≡ raised e)

abbrev pub raise_to : {X : Type 0} → Exn → Outcome X
raise_to e = raised e

raised_inj : {X : Type 0} (a b : Exn) → raise_to {X = X} a ≡ raise_to {X = X} b → a ≡ b
raised_inj a b h = cc

module _ {A V X : Type 0} ⦃db : Database A⦄ (P : Exn → Type 0) (before p : Process A V) (e : Exn)
    (q : Process A V) where
  rolled_back-LeftOver :
      (e' : Exn)
      → P e' ⊎ (db.commit p.store ≡ raised e')
      → rolled_back {X = X} before.store e' p ≡ (raised e, q)
      → LeftOver db P before p e q
  rolled_back-LeftOver e' h k = record {
    tables = sym (ap (λ r. r.1.store) k);
    rest = sym (ap (λ r. r.1.outside) k);
    reason =
        subst (λ d. P d ⊎ (db.commit p.store ≡ raised d)) (raised_inj e' e (ap (λ r. r.0) k)) h;
  }

  settle-LeftOver :
      (r : Outcome X)
      → Raises P r
      → settle before.store (r, p) ≡ (raised e, q)
      → LeftOver db P before p e q
  settle-LeftOver (raised e') h k = rolled_back-LeftOver e' (inl h) k
  settle-LeftOver (ok x) h k = elim (Outcome-cases (db.commit p.store)) [
    | inl (y, c) ↦ absurd (returned x (sym (ap (λ r. r.0) (settled y c)) ∙ ap (λ r. r.0) k))
    | inr (e', c) ↦ rolled_back-LeftOver e' (inr c) (sym (unsettled e' c) ∙ k)
  ]
    where
      settled :
          (y : Unit {0}) → db.commit p.store ≡ ok y → settle before.store (ok x, p) ≡ (ok x, p)
      settled y c = rw (c, settle) refl

      unsettled :
          (d : Exn)
          → db.commit p.store ≡ raised d
          → settle before.store (ok x, p) ≡ rolled_back before.store d p
      unsettled d c = rw (c, settle) refl

      returned : (y : X) → ok y ≡ raised e → ⊥
      returned y h = cc

module _ {A G : Type 0} ⦃n : Number A⦄ ⦃host : Host⦄ ⦃gateway : Gateway A G⦄ ⦃db : Database A⦄
    (mode : Mode) (trade_type : String) (tick : Tick) where
  cycle_in-Constrained :
      (cfg : MergedConfig A) → Constrained db (cycle_in {G = G} mode cfg trade_type tick)
  cycle_in-Constrained cfg = record { at = λ p. event-Raises db _ _ }

  one_body-Constrained : Constrained db (one_body {G = G} mode trade_type tick)
  unfolding one_body
  one_body-Constrained = Constrained-bind db _ _ (Constrained-fetch db _) (λ cfg_row.
      Constrained-bind db _ _ (Constrained-fetch db _) (λ glob_row.
        Constrained-bind db _ _ (cycle_in-Constrained _) (λ _.
          Constrained-bind db _ _ (snapshot-Constrained db mode)
            (λ _. ingest-Constrained mode tick.now))))

  abbrev pub opened : Process A (Worker G) → Process A (Worker G)
  opened p = record p { store = record (p.store) { now = tick.now } }

  -- Where `_run_one` raises, and the flushes of new configuration rows and those inside of the phases
  -- of its cycle go through: none of its writes is left in the tables, those of the cycle's orders
  -- included; the venue and the stamps are as the body left them; and what is raised is an error of
  -- the database: that of the UNIQUE constraint on the external ids of capital flows, that of a
  -- flush, or that of the commit.
  pub run_one-LeftOver :
      (p : Process A (Worker G)) (e : Exn) (q : Process A (Worker G))
      → run_one mode trade_type tick p ≡ (raised e, q)
      → LeftOver db (IsFlushError db) p (one_body mode trade_type tick (opened p)).1 e q
  unfolding run_one session_scope
  run_one-LeftOver p e q h = settle-LeftOver _ p _ e q _ (one_body-Constrained.at (opened p)) h
