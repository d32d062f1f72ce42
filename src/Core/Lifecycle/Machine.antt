-- ===== src/Core/Lifecycle/Machine.antt =====
-- core/lifecycle.py against the legs of a hedged pair: what a status stands for, what an event does
-- to the legs, and where sequences of events lead.
use auto_trader_claude.Base.{◌≡◌, ap, ◌∙◌, Bool, true, false, Outcome, ok, List, [], ◌∷◌, arith}
use auto_trader_claude.Base.Outcomes.{◌>>=◌, >>=-eq-ok}
use auto_trader_claude.Core.Types.{PositionStatus, opened, naked_spot, naked_perp, closed}
use auto_trader_claude.Core.Lifecycle.{
  LifecycleEvent, open_both_legs_filled, open_only_spot_filled, open_only_perp_filled,
  discover_orphan_spot, discover_orphan_perp, hedge_recovered, flat_closed, stale_reconciled,
  dust_converted, transition,
}

-- Whether the spot leg and the perp leg are held.
abbrev pub Legs : Type 0
Legs = Bool × Bool

abbrev pub legs : PositionStatus → Legs
legs opened = (true, true)
legs naked_spot = (true, false)
legs naked_perp = (false, true)
legs closed = (false, false)

-- The legs behind an event, from those before it: an orphan or a single fill leaves the named leg,
-- a recovery restores the pair, a close or reconciliation leaves nothing, dust is the spot leg.
abbrev pub after_event : LifecycleEvent → Legs → Legs
after_event open_both_legs_filled _ = (true, true)
after_event open_only_spot_filled (s, p) = (s, false)
after_event open_only_perp_filled (s, p) = (false, p)
after_event discover_orphan_spot (s, p) = (s, false)
after_event discover_orphan_perp (s, p) = (false, p)
after_event hedge_recovered _ = (true, true)
after_event flat_closed _ = (false, false)
after_event stale_reconciled _ = (false, false)
after_event dust_converted (s, p) = (false, p)

-- A sequence of events, which stops at the first that is refused.
unfoldable pub run : PositionStatus → List LifecycleEvent → Outcome PositionStatus
run s [] = ok s
run s (e ∷ es) = do next ← transition s e; run next es

abbrev pub after_events : List LifecycleEvent → Legs → Legs
after_events [] l = l
after_events (e ∷ es) l = after_events es (after_event e l)

transition-legs :
    (s : PositionStatus) (e : LifecycleEvent) (t : PositionStatus)
    → transition s e ≡ ok t
    → legs t ≡ after_event e (legs s)
unfolding transition
transition-legs s e t h = ground arith

-- If a sequence of events is accepted from a status, then the legs of the final status are those
-- that the events, one after another, leave of the legs of the first.
pub run-legs :
    (s : PositionStatus) (es : List LifecycleEvent) (t : PositionStatus)
    → run s es ≡ ok t
    → legs t ≡ after_events es (legs s)
unfolding run
run-legs s [] t h = ground arith
run-legs s (e ∷ es) t h =
    let (u, first, rest) = >>=-eq-ok (transition s e) (λ next. run next es) h in
    run-legs u es t rest ∙ ap (after_events es) (transition-legs s e u first)

-- Statuses that events lead to.
pub data Reach (s : PositionStatus) : PositionStatus → Type 0 where
  here : Reach s s
  next :
      {t u : PositionStatus} → Reach s t → (e : LifecycleEvent) → transition t e ≡ ok u → Reach s u

pub Reach-trans : {s t u : PositionStatus} → Reach s t → Reach t u → Reach s u
Reach-trans r here = r
Reach-trans r (next q e h) = next (Reach-trans r q) e h

-- A status to which another leads by one event or more.
pub data Leads (s : PositionStatus) : PositionStatus → Type 0 where
  first : {t : PositionStatus} (e : LifecycleEvent) → transition s e ≡ ok t → Leads s t
  more :
      {t u : PositionStatus} → Leads s t → (e : LifecycleEvent) → transition t e ≡ ok u → Leads s u
