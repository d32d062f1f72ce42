-- ===== src/Core/Lifecycle.antt =====
-- core/lifecycle.py: the state machine of a position.
pub mod Machine
use auto_trader_claude.Base.{
  Bool, true, false, Option, none, some, Outcome, ok, raised, Exn, String, ◌<>◌,
}
use auto_trader_claude.Core.Types.{
  PositionStatus, opened, naked_spot, naked_perp, closed, status_text,
}

pub data LifecycleEvent : Type 0 where
  open_both_legs_filled open_only_spot_filled open_only_perp_filled : LifecycleEvent
  discover_orphan_spot discover_orphan_perp hedge_recovered : LifecycleEvent
  flat_closed stale_reconciled dust_converted : LifecycleEvent

abbrev pub event_text : LifecycleEvent → String
event_text open_both_legs_filled = "open_both_legs_filled"
event_text open_only_spot_filled = "open_only_spot_filled"
event_text open_only_perp_filled = "open_only_perp_filled"
event_text discover_orphan_spot = "discover_orphan_spot"
event_text discover_orphan_perp = "discover_orphan_perp"
event_text hedge_recovered = "hedge_recovered"
event_text flat_closed = "flat_closed"
event_text stale_reconciled = "stale_reconciled"
event_text dust_converted = "dust_converted"

abbrev pub illegal_transition : String → Exn
illegal_transition text = record { kind = "IllegalTransition"; message = text }

-- `_TRANSITIONS.get(key)`
unfoldable pub transitions : PositionStatus → LifecycleEvent → Option PositionStatus
transitions opened flat_closed = some closed
transitions opened open_only_spot_filled = some naked_spot
transitions opened open_only_perp_filled = some naked_perp
transitions opened discover_orphan_spot = some naked_spot
transitions opened discover_orphan_perp = some naked_perp
transitions naked_spot hedge_recovered = some opened
transitions naked_perp hedge_recovered = some opened
transitions naked_spot flat_closed = some closed
transitions naked_perp flat_closed = some closed
transitions naked_spot stale_reconciled = some closed
transitions naked_perp stale_reconciled = some closed
transitions naked_spot dust_converted = some closed
transitions _ _ = none

unfoldable pub initial_status : LifecycleEvent → Outcome PositionStatus
initial_status open_both_legs_filled = ok opened
initial_status open_only_spot_filled = ok naked_spot
initial_status discover_orphan_spot = ok naked_spot
initial_status open_only_perp_filled = ok naked_perp
initial_status discover_orphan_perp = ok naked_perp
initial_status event =
    raised (illegal_transition ("No initial status for event " <> event_text event))

abbrev or_illegal : PositionStatus → LifecycleEvent → Option PositionStatus → Outcome PositionStatus
or_illegal current event (some next) = ok next
or_illegal current event none =
    raised (
      illegal_transition
        ("No rule for (" <> status_text current <> ", " <> event_text event <> ")"))

unfoldable pub transition : PositionStatus → LifecycleEvent → Outcome PositionStatus
unfolding transitions
transition closed event =
    raised (illegal_transition ("Cannot transition from CLOSED on " <> event_text event))
transition current event = or_illegal current event (transitions current event)

unfoldable pub is_currently_exposed : PositionStatus → Bool
is_currently_exposed opened = true
is_currently_exposed naked_spot = true
is_currently_exposed naked_perp = true
is_currently_exposed closed = false
