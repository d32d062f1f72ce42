-- ===== src/Loop/Evolution/Orders.antt =====
-- loop/cycle.py: the marks and the close of a position, against the relation `Evolves`.
use auto_trader_claude.Base.{
  ℕ, ◌≡◌, refl, subst, String, Bool, some, ok, raised, Outcome, raise, Action, run_outcome,
  continue, ◌>>=◌,
}
use auto_trader_claude.Core.Types.{Mode, VenueLeg, Side, PositionStatus, closed, FillResult}
use auto_trader_claude.Core.Lifecycle.{LifecycleEvent, transition}
use auto_trader_claude.Core.Lifecycle.Machine.{Reach, here, next}
use auto_trader_claude.State.Models.{Position, Level}
use auto_trader_claude.State.Session.{Session, find_position}
use auto_trader_claude.Gateways.Venue.{Gateway}
use auto_trader_claude.Loop.World.{Host, World, query, write, assign}
use auto_trader_claude.Loop.Cycle.Marks.{
  close_row, set_status, set_error, status_of, status_now, closing, mark_closed, mark_status,
  set_close_error, record_trade, record_event,
}
use auto_trader_claude.Loop.Cycle.Close.{close_succeeded, close_stuck, close_position_market_fok}
use auto_trader_claude.Loop.Evolution.Rules.{
  Evolving, evolution, Evolving-assign, Evolving-insert_trade, Evolving-log_event,
}
use auto_trader_claude.Loop.Evolution.Rows.{
  update_position-Rows, Evolves, Evolves-refl, evolve_positions,
}

module _ {A : Type 0} where
  -- the row found has the status that was read
  moved :
      (pos : Position A) (event : LifecycleEvent) (s : Session A) (t : PositionStatus)
      → transition (status_now pos s) event ≡ ok t
      → (p : Position A) → find_position pos.id s.positions ≡ some p
      → Reach p.status t
  moved pos event s t e p found =
      next here event (subst (λ o. transition (status_of pos o) event ≡ ok t) found e)

module _ {A G : Type 0} where
  -- An assignment that moves the row as it is now. The status is read before.
  Evolving-guarded :
      (pos : Position A) (event : LifecycleEvent)
      (act : PositionStatus → Action (World A G) (Unit {0}))
      → ((t : PositionStatus) (w : World A G)
          → transition (status_now pos w.session) event ≡ ok t
          → Evolves w.session (act t w).1.session)
      → Evolving
          (query (status_now pos) >>= λ current. run_outcome (transition current event) >>= act)
  unfolding ◌>>=◌ query
  Evolving-guarded pos event act h = record {
    at = λ w. go w (transition (status_now pos w.session) event) refl;
  }
    where
      go :
          (w : World A G) (r : Outcome PositionStatus)
          → transition (status_now pos w.session) event ≡ r
          → Evolves w.session (continue r act w).1.session
      go w (ok t) e = h t w e
      go w (raised x) e = Evolves-refl w.session

  pub Evolving-mark_status :
      (pos : Position A) (event : LifecycleEvent) → Evolving {G = G} (mark_status pos event)
  unfolding mark_status assign write
  Evolving-mark_status pos event =
      Evolving-guarded pos event (λ t. assign pos.id (set_status t))
        λ t w e. evolve_positions w.session _ (
          update_position-Rows 0 pos.id (set_status t) w.session.positions
            λ p found. record { same = refl; moves = moved pos event w.session t e p found })

  closing-Evolves :
      (pos : Position A) (reason : String) (event : LifecycleEvent) (t : PositionStatus)
      (w : World A G)
      → transition (status_now pos w.session) event ≡ ok t
      → Evolves w.session (closing pos reason t w).1.session
  unfolding closing assign write query raise ◌>>=◌
  closing-Evolves pos reason event closed w e = evolve_positions w.session _ (
      update_position-Rows 0 pos.id (close_row w.session.now reason) w.session.positions
        λ p found. record { same = refl; moves = moved pos event w.session closed e p found })
  closing-Evolves pos reason event _ w e = Evolves-refl w.session

  pub Evolving-mark_closed :
      (pos : Position A) (reason : String) (event : LifecycleEvent)
      → Evolving {G = G} (mark_closed pos reason event)
  unfolding mark_closed
  Evolving-mark_closed pos reason event =
      Evolving-guarded pos event (closing pos reason) (closing-Evolves pos reason event)

  pub Evolving-set_close_error :
      (pos : Position A) (text : String) → Evolving {G = G} (set_close_error pos text)
  unfolding set_close_error
  Evolving-set_close_error pos text =
      Evolving-assign pos.id (set_error text) λ p. record { same = refl; moves = here }

module _ {A G : Type 0} ⦃gateway : Gateway A G⦄ where
  pub Evolving-record_trade :
      (mode : Mode) (trade_type : String) (i : ℕ) (symbol : String) (leg : VenueLeg) (side : Side)
      (fill : FillResult A)
      → Evolving {G = G} (record_trade mode trade_type i symbol leg side fill)
  unfolding record_trade
  Evolving-record_trade mode trade_type i symbol leg side fill = Evolving-insert_trade _

  pub Evolving-record_event :
      (mode : Mode) (level : Level) (message : String) (b : Bool)
      → Evolving {A = A} {G = G} (record_event mode level message b)
  unfolding record_event
  Evolving-record_event mode level message b =
      Evolving-log_event mode gateway.exchange_id level message b

pub ruleset marks = (
  evolution, Evolving-mark_status, Evolving-mark_closed, Evolving-set_close_error,
  Evolving-record_trade, Evolving-record_event,
)

module _ {A G : Type 0} ⦃host : Host⦄ ⦃gateway : Gateway A G⦄ where
  close_succeeded-Evolving :
      (pos : Position A) (mode : Mode) (reason : String) (s p : FillResult A)
      → Evolving {G = G} (close_succeeded pos mode reason s p)
  unfolding close_succeeded
  close_succeeded-Evolving pos mode reason s p = search marks depth 20

  close_stuck-Evolving :
      (pos : Position A) (mode : Mode) (s p : FillResult A)
      → Evolving {G = G} (close_stuck pos mode s p)
  unfolding close_stuck
  close_stuck-Evolving pos mode s p = search marks depth 20

  pub Evolving-close :
      (pos : Position A) (mode : Mode) (cycle_id reason : String)
      → Evolving {G = G} (close_position_market_fok pos mode cycle_id reason)
  unfolding close_position_market_fok
  Evolving-close pos mode cycle_id reason =
      search (marks, close_succeeded-Evolving, close_stuck-Evolving) depth 20
