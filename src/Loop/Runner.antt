-- ===== src/Loop/Runner.antt =====
-- loop/runner.py: what the thread of one (mode, exchange) holds beside the database, and its writes
-- inside of a `with session_scope()` block. Times are numbers of microseconds.
pub mod Flows
pub mod Once
pub mod Thread
pub mod Activate
pub mod Account
pub mod Start
pub mod Lasting
pub mod Ingested
pub mod Atomic
use auto_trader_claude.Base.{ℕ, Outcome, ok, Action}
use auto_trader_claude.Core.Keyed.{Keyed}
use auto_trader_claude.State.Session.{Session}
use auto_trader_claude.State.Database.{Process}

-- `_last_heartbeat` and `_last_capital_flow_ingest` are dicts of the module; of their keys, a
-- thread uses its own only.
pub record Worker (G : Type 0) : Type 0 where
  pub venue : G
  pub last_heartbeat : Keyed ℕ
  pub last_capital_flow_ingest : Keyed ℕ

abbrev pub interval : ℕ
interval = 3600000000

module _ {A V : Type 0} where
  unfoldable pub write_store : (Session A → Session A) → Action (Process A V) (Unit {0})
  write_store f p = (ok tt, record p { store = f p.store })

  -- a read that may create the row
  unfoldable pub fetch_store : {X : Type 0} → (Session A → X × Session A) → Action (Process A V) X
  fetch_store f p = let (x, s) = f p.store in (ok x, record p { store = s })

  unfoldable pub query_store : {X : Type 0} → (Session A → X) → Action (Process A V) X
  query_store f p = (ok (f p.store), p)

  unfoldable pub call_outside : {X : Type 0} → Action V X → Action (Process A V) X
  call_outside m p = let (r, v) = m p.outside in (r, record p { outside = v })

module _ {A G : Type 0} where
  abbrev pub with_venue : G → Process A (Worker G) → Process A (Worker G)
  with_venue g p = record p { outside = record (p.outside) { venue = g } }

-- `try: body` with `except Exception` that passes
abbrev pub passed_over : {S : Type 0} → Action S (Unit {0}) → Action S (Unit {0})
passed_over m s = (ok tt, (m s).1)
