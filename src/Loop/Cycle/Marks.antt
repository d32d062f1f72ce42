-- ===== src/Loop/Cycle/Marks.antt =====
-- loop/cycle.py: the status changes that the state machine validates, and the rows that every
-- order leaves behind.
use auto_trader_claude.Base.{
  ℕ, String, Bool, Option, none, some, Action, Exn, raise, run_outcome, ◌>>=◌,
}
use auto_trader_claude.Core.Types.{
  Mode, VenueLeg, Side, PositionStatus, opened, naked_spot, naked_perp, closed, FillResult,
}
use auto_trader_claude.Core.Lifecycle.{LifecycleEvent, transition}
use auto_trader_claude.State.Models.{Position, Trade, Level}
use auto_trader_claude.State.Session.{Session, find_position}
use auto_trader_claude.State.Repository.{insert_trade, log_event}
use auto_trader_claude.Gateways.Venue.{Gateway}
use auto_trader_claude.Loop.World.{World, query, write, assign}

abbrev pub unexpected_status : Exn
unexpected_status = record { kind = "AssertionError"; message = "unexpected next_status" }

abbrev pub text_or_none : Option String → String
text_or_none none = "None"
text_or_none (some s) = s

module _ {A : Type 0} where
  abbrev pub close_row : ℕ → String → Position A → Position A
  close_row now reason p = record p {
    status = closed;
    closed_at = some now;
    last_close_error = reason;
  }

  abbrev pub set_status : PositionStatus → Position A → Position A
  set_status status p = record p { status = status }

  abbrev pub set_error : String → Position A → Position A
  set_error text p = record p { last_close_error = text }

  -- the status of the row found
  abbrev pub status_of : Position A → Option (Position A) → PositionStatus
  status_of pos none = pos.status
  status_of pos (some p) = p.status

  -- `PositionStatus(pos.status)`, of the object as it is now
  abbrev pub status_now : Position A → Session A → PositionStatus
  status_now pos s = status_of pos (find_position pos.id s.positions)

  -- a `m.Trade` of a fill; the flush assigns the id and the time
  abbrev pub trade_row :
      Mode → String → String → ℕ → String → VenueLeg → Side → FillResult A → Trade A
  trade_row mode exchange trade_type position_id symbol venue side fill = record {
    id = 0;
    mode = mode;
    exchange = exchange;
    trade_type = trade_type;
    position_id = position_id;
    symbol = symbol;
    venue = venue;
    side = side;
    quantity = fill.qty;
    price = fill.avg_price;
    fee = fill.fee_quote;
    ts = 0;
  }

module _ {A G : Type 0} where
  -- the assertion that the next status is CLOSED
  unfoldable pub closing : Position A → String → PositionStatus → Action (World A G) (Unit {0})
  closing pos reason closed = do now ← query (λ s. s.now); assign pos.id (close_row now reason)
  closing pos reason opened = raise unexpected_status
  closing pos reason naked_spot = raise unexpected_status
  closing pos reason naked_perp = raise unexpected_status

  -- `_mark_closed`
  unfoldable pub mark_closed : Position A → String → LifecycleEvent → Action (World A G) (Unit {0})
  unfolding closing
  mark_closed pos reason event = do
    current ← query (status_now pos)
    next_status ← run_outcome (transition current event)
    closing pos reason next_status

  -- `_mark_status`
  unfoldable pub mark_status : Position A → LifecycleEvent → Action (World A G) (Unit {0})
  mark_status pos event = do
    current ← query (status_now pos)
    next_status ← run_outcome (transition current event)
    assign pos.id (set_status next_status)

  -- `pos.last_close_error = text`, flushed
  unfoldable pub set_close_error : Position A → String → Action (World A G) (Unit {0})
  unfolding assign
  set_close_error pos text = assign pos.id (set_error text)

module _ {A G : Type 0} ⦃gateway : Gateway A G⦄ where
  unfoldable pub record_trade :
      Mode → String → ℕ → String → VenueLeg → Side → FillResult A → Action (World A G) (Unit {0})
  record_trade mode trade_type position_id symbol venue side fill = write (
      insert_trade
        (trade_row mode gateway.exchange_id trade_type position_id symbol venue side fill))

  unfoldable pub record_event : Mode → Level → String → Bool → Action (World A G) (Unit {0})
  record_event mode level message requires_action =
      write (log_event mode gateway.exchange_id level message requires_action)
