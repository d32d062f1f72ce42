-- ===== src/State/Database.antt =====
-- state/db.py: `session_scope` and the rows of `venue_state` that the first boot seeds. A process
-- has the committed tables, and beside them a state `V` that no rollback reaches: the venue, the
-- stamps of the runner, its workers. Sessions of other threads are not modelled, so the tables
-- that a session reads are those that the last commit left.
pub mod Seeded
use auto_trader_claude.Base.{
  ℕ, String, Bool, true, false, List, [], ◌∷◌, ◌++◌, map, contains, if◌then◌else◌, Outcome, ok,
  raised, Exn, Action,
}
use auto_trader_claude.State.Models.{VenueState}
use auto_trader_claude.State.Session.{Session}

-- What SQLAlchemy and the engine decide: whether a commit goes through, whether a flush does whose
-- rows meet every constraint, and the exception of a flush that breaks a UNIQUE constraint.
pub record Database (A : Type 0) : Type 0 where
  pub flush : Session A → Outcome (Unit {0})
  pub commit : Session A → Outcome (Unit {0})
  pub integrity_error : Exn

pub record Process (A V : Type 0) : Type 0 where
  pub store : Session A
  pub outside : V

module _ {A V X : Type 0} where
  abbrev pub rolled_back : Session A → Exn → Process A V → Outcome X × Process A V
  rolled_back before e p = (raised e, record p { store = before })

  -- the end of the `with` block, behind its body
  abbrev pub settle :
      ⦃db : Database A⦄ → Session A → Outcome X × Process A V → Outcome X × Process A V
  settle ⦃db = db⦄ before (raised e, p) = rolled_back before e p
  settle ⦃db = db⦄ before (ok x, p) = elim (db.commit p.store) [
    | ok _ ↦ (ok x, p)
    | raised e ↦ rolled_back before e p
  ]

  -- `with session_scope() as session: body`, at a time of the clock
  unfoldable pub session_scope :
      ⦃db : Database A⦄ → ℕ → Action (Process A V) X → Action (Process A V) X
  session_scope clock body p =
      settle p.store (body (record p { store = record (p.store) { now = clock } }))

abbrev venue_row : String → Bool → VenueState
venue_row exchange_id active = record {
  exchange_id = exchange_id;
  active = active;
  expected_account_id = "";
  notes = "";
}

-- the body of the loop over `defaults`
abbrev pub seed : List String → List (String × Bool) → List VenueState → List VenueState
seed existing [] rows = rows
seed existing ((exchange_id, active) ∷ defaults) rows =
    if contains exchange_id existing
    then seed existing defaults rows
    else seed existing defaults (rows ++ (venue_row exchange_id active ∷ []))

abbrev pub venue_defaults : List (String × Bool)
venue_defaults = ("binance", true) ∷ ("kucoin", true) ∷ ("hyperliquid", false) ∷ []

unfoldable pub seed_venue_defaults : List VenueState → List VenueState
seed_venue_defaults rows = seed (map (λ (r : VenueState). r.exchange_id) rows) venue_defaults rows
