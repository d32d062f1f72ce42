-- ===== src/Loop/Cycle/Closed.antt =====
-- loop/cycle.py: what closing a position leaves behind.
use auto_trader_claude.Base.{
  ℕ, ◌≡◌, refl, ap, String, Bool-cases, true, false, ◌&&◌, ◌<>◌, ◌==◌, inl, inr, List, [], ◌∷◌,
  ◌++◌, map, some, ok, Action, run_outcome, ◌>>=◌, arith,
}
use auto_trader_claude.Core.Types.{
  Mode, spot, futures, buy, sell, FillResult, PositionStatus, closed,
}
use auto_trader_claude.Core.Lifecycle.{flat_closed, transition, is_currently_exposed}
use auto_trader_claude.State.Models.{Position, Trade, BotEvent, error}
use auto_trader_claude.State.Session.{Session, find_position, update_position}
use auto_trader_claude.State.Repository.{insert_trade, log_event}
use auto_trader_claude.Gateways.Venue.{Gateway}
use auto_trader_claude.Loop.World.{Host, World, call, query, write, assign, add_action}
use auto_trader_claude.Loop.Idempotency.{client_order_id}
use auto_trader_claude.Loop.Cycle.Marks.{
  mark_closed, close_row, set_close_error, record_trade, record_event,
}
use auto_trader_claude.Loop.Cycle.Close.{close_succeeded, close_stuck, close_position_market_fok}

module _ {A : Type 0} where
  -- the statuses of all rows, in order
  abbrev pub statuses : List (Position A) → List PositionStatus
  statuses ps = map (λ p. p.status) ps

  update_position-statuses :
      (i : ℕ) (f : Position A → Position A) (ps : List (Position A))
      → ((p : Position A) → (f p).status ≡ p.status)
      → statuses (update_position i f ps) ≡ statuses ps
  unfolding update_position
  update_position-statuses i f [] h = refl
  update_position-statuses i f (p ∷ ps) h = elim (Bool-cases (p.id == i)) [
    | inl e ↦ rw e (ap (λ s. s ∷ statuses ps) (h p))
    | inr e ↦ rw e (ap (λ ss. p.status ∷ ss) (update_position-statuses i f ps h))
  ]

  -- An assignment that keeps the id is found again.
  find-update_position :
      (i : ℕ) (f : Position A → Position A) (ps : List (Position A)) (row : Position A)
      → find_position i ps ≡ some row
      → ((p : Position A) → (f p).id ≡ p.id)
      → find_position i (update_position i f ps) ≡ some (f row)
  unfolding find_position update_position
  find-update_position i f [] row h k = cc
  find-update_position i f (p ∷ ps) row h k = elim (Bool-cases (p.id == i)) [
    | inl e ↦ grind (arith, e, k p)
    | inr e ↦ let rest = find-update_position i f ps row in grind (arith, e, rest)
  ]

  -- A stuck close: every status and trade as before, and one event that asks for an action.
  pub record IsStuck (s t : Session A) : Type 0 where
    pub statuses_kept : statuses t.positions ≡ statuses s.positions
    pub trades_kept : t.trades ≡ s.trades
    pub reported :
        (event : BotEvent) × (t.bot_events ≡ s.bot_events ++ (event ∷ []))
        × (event.level ≡ error)
        × (event.requires_action ≡ true)

  -- A close: the row is closed, and there is a trade of it for each fill.
  pub record IsClosed (i : ℕ) (a b : FillResult A) (s t : Session A) : Type 0 where
    pub row_closed :
        (row : Position A) × (find_position i t.positions ≡ some row) × (row.status ≡ closed)
    pub traded :
        (x : Trade A) × (y : Trade A) × (t.trades ≡ (s.trades ++ (x ∷ [])) ++ (y ∷ []))
        × (x.position_id ≡ i)
        × (y.position_id ≡ i)
        × (x.quantity ≡ a.qty)
        × (y.quantity ≡ b.qty)
    pub events_kept : t.bot_events ≡ s.bot_events

closable :
    (status : PositionStatus)
    → is_currently_exposed status ≡ true
    → transition status flat_closed ≡ ok closed
unfolding transition is_currently_exposed
closable status h = ground arith

module _ {A G : Type 0} ⦃host : Host⦄ ⦃gateway : Gateway A G⦄ where
  close_stuck-IsStuck :
      (pos : Position A) (mode : Mode) (a b : FillResult A) (w : World A G)
      → ((close_stuck pos mode a b w).0 ≡ ok tt)
        × IsStuck w.session (close_stuck pos mode a b w).1.session
  unfolding close_stuck set_close_error assign write record_event log_event add_action ◌>>=◌
  close_stuck-IsStuck pos mode a b w = (
    refl,
    record {
      statuses_kept = update_position-statuses pos.id _ w.session.positions (λ p. refl);
      trades_kept = refl;
      reported = (_, refl, refl, refl);
    },
  )

  marked :
      (pos : Position A) (row : Position A) (w : World A G)
      → find_position pos.id w.session.positions ≡ some row
      → is_currently_exposed row.status ≡ true
      → mark_closed pos "" flat_closed w ≡ assign pos.id (close_row w.session.now "") w
  unfolding mark_closed query run_outcome ◌>>=◌
  marked pos row w found h = rw (found, closable row.status h) refl

  close_succeeded-IsClosed :
      (pos : Position A) (mode : Mode) (reason : String) (a b : FillResult A) (row : Position A)
      (w : World A G)
      → find_position pos.id w.session.positions ≡ some row
      → is_currently_exposed row.status ≡ true
      → ((close_succeeded pos mode reason a b w).0 ≡ ok tt)
        × IsClosed pos.id a b w.session (close_succeeded pos mode reason a b w).1.session
  unfolding close_succeeded assign write record_trade insert_trade add_action ◌>>=◌
  close_succeeded-IsClosed pos mode reason a b row w found h = rw (marked pos row w found h) (
    refl,
    record {
      row_closed = (
        close_row w.session.now "" row,
        find-update_position pos.id (close_row w.session.now "") w.session.positions row found
            (λ p. refl),
        refl,
      );
      traded = (_, _, refl, refl, refl, refl, refl);
      events_kept = refl;
    },
  )

  -- the two orders of a close
  abbrev pub spot_exit : Position A → String → Action G (FillResult A)
  spot_exit pos cycle_id =
      gateway.place_market_fok pos.spot_symbol spot sell pos.quantity
        (client_order_id cycle_id pos.spot_symbol spot sell <> "-x")

  abbrev pub perp_exit : Position A → String → Action G (FillResult A)
  perp_exit pos cycle_id =
      gateway.place_market_fok pos.perp_symbol futures buy pos.quantity
        (client_order_id cycle_id pos.perp_symbol futures buy <> "-x")

  -- Where both orders of a close are answered and at least one is refused, the close returns; every
  -- row keeps its status, no trade is recorded, even for a leg that filled, and one error event that
  -- asks for an action is logged.
  pub close_position-IsStuck :
      (pos : Position A) (mode : Mode) (cycle_id reason : String) (w : World A G)
      (a b : FillResult A) (g g' : G)
      → spot_exit pos cycle_id w.venue ≡ (ok a, g)
      → perp_exit pos cycle_id g ≡ (ok b, g')
      → a.accepted && b.accepted ≡ false
      → let out = close_position_market_fok pos mode cycle_id reason w in
        (out.0 ≡ ok tt) × IsStuck w.session out.1.session
  unfolding close_position_market_fok call ◌>>=◌
  close_position-IsStuck pos mode cycle_id reason w a b g g' h h' e =
      rw (h, h', e) (close_stuck-IsStuck pos mode a b (record w { venue = g' }))

  -- Where both orders of a close are accepted and the row is exposed, the close returns; the row is
  -- closed, one trade of the row is recorded for each fill, with its quantity, and no event is logged.
  pub close_position-IsClosed :
      (pos : Position A) (mode : Mode) (cycle_id reason : String) (w : World A G)
      (a b : FillResult A) (g g' : G) (row : Position A)
      → spot_exit pos cycle_id w.venue ≡ (ok a, g)
      → perp_exit pos cycle_id g ≡ (ok b, g')
      → a.accepted && b.accepted ≡ true
      → find_position pos.id w.session.positions ≡ some row
      → is_currently_exposed row.status ≡ true
      → let out = close_position_market_fok pos mode cycle_id reason w in
        (out.0 ≡ ok tt) × IsClosed pos.id a b w.session out.1.session
  unfolding close_position_market_fok call ◌>>=◌
  close_position-IsClosed pos mode cycle_id reason w a b g g' row h h' e found exposed =
      rw (h, h', e)
        (close_succeeded-IsClosed pos mode reason a b row (record w { venue = g' }) found exposed)
