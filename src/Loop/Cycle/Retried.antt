-- ===== src/Loop/Cycle/Retried.antt =====
-- loop/cycle.py: closing again under the same cycle id, on the paper venue.
use auto_trader_claude.Base.{
  ◌≡◌, refl, ◌∙◌, ap, String, ◌<>◌, contains, Bool, true, false, ◌&&◌, if◌then◌else◌, Outcome, ok,
  raised, Action, raise, run_outcome, continue, ◌>>=◌,
}
use auto_trader_claude.Number.{Number}
use auto_trader_claude.Core.Types.{
  Mode, spot, futures, buy, sell, FillResult, PositionStatus, opened, naked_spot, naked_perp,
  closed,
}
use auto_trader_claude.Core.Lifecycle.{LifecycleEvent, flat_closed}
use auto_trader_claude.State.Models.{Position}
use auto_trader_claude.State.Session.{Session}
use auto_trader_claude.Gateways.Venue.{Gateway}
use auto_trader_claude.Gateways.Paper.{Paper}
use auto_trader_claude.Gateways.Paper.Orders.{place_market_fok, paper_gateway, refused}
use auto_trader_claude.Gateways.Paper.Placed.{
  place_market_fok-IsAnswered, seen-place_market_fok, place-duplicate,
}
use auto_trader_claude.Loop.World.{Host, World, call, query, write, assign, add_action}
use auto_trader_claude.Loop.Idempotency.{client_order_id}
use auto_trader_claude.Loop.Cycle.Marks.{
  mark_closed, closing, set_close_error, record_trade, record_event,
}
use auto_trader_claude.Loop.Cycle.Close.{close_succeeded, close_stuck, close_position_market_fok}
use auto_trader_claude.Loop.Cycle.Closed.{IsStuck, spot_exit, perp_exit, close_position-IsStuck}

-- Whatever `m` writes, it places no order.
record Quiet {A G X : Type 0} (m : Action (World A G) X) : Type 0 where
  at : (w : World A G) → (m w).1.venue ≡ w.venue

module _ {A G X Y : Type 0} where
  continue-venue :
      (r : Outcome X) (f : X → Action (World A G) Y) (w : World A G)
      → ((x : X) → Quiet (f x))
      → (continue r f w).1.venue ≡ w.venue
  continue-venue (ok x) f w h = (h x).at w
  continue-venue (raised e) f w h = refl

  Quiet-bind :
      (m : Action (World A G) X) (f : X → Action (World A G) Y)
      → Quiet m
      → ((x : X) → Quiet (f x))
      → Quiet (m >>= f)
  unfolding ◌>>=◌
  Quiet-bind m f p h = record { at = λ w. continue-venue (m w).0 f (m w).1 h ∙ p.at w }

module _ {A G : Type 0} where
  Quiet-write : (f : Session A → Session A) → Quiet {G = G} (write f)
  unfolding write
  Quiet-write f = record { at = λ w. refl }

  Quiet-query : {X : Type 0} (f : Session A → X) → Quiet {G = G} (query f)
  unfolding query
  Quiet-query f = record { at = λ w. refl }

  Quiet-run_outcome : {X : Type 0} (r : Outcome X) → Quiet {A = A} {G = G} (run_outcome r)
  unfolding run_outcome
  Quiet-run_outcome r = record { at = λ w. refl }

  Quiet-add_action : (text : String) → Quiet {A = A} {G = G} (add_action text)
  unfolding add_action
  Quiet-add_action text = record { at = λ w. refl }

  Quiet-closing :
      (pos : Position A) (reason : String) (status : PositionStatus)
      → Quiet {G = G} (closing pos reason status)
  unfolding closing assign raise
  Quiet-closing pos reason closed = Quiet-bind _ _ (Quiet-query _) (λ now. Quiet-write _)
  Quiet-closing pos reason opened = record { at = λ w. refl }
  Quiet-closing pos reason naked_spot = record { at = λ w. refl }
  Quiet-closing pos reason naked_perp = record { at = λ w. refl }

  Quiet-mark_closed :
      (pos : Position A) (reason : String) (event : LifecycleEvent)
      → Quiet {G = G} (mark_closed pos reason event)
  unfolding mark_closed
  Quiet-mark_closed pos reason event = Quiet-bind _ _ (Quiet-query _) λ current.
      Quiet-bind _ _ (Quiet-run_outcome _) λ next_status. Quiet-closing pos reason next_status

module _ {A G : Type 0} ⦃host : Host⦄ ⦃gateway : Gateway A G⦄ where
  Quiet-close_succeeded :
      (pos : Position A) (mode : Mode) (reason : String) (a b : FillResult A)
      → Quiet {G = G} (close_succeeded pos mode reason a b)
  unfolding close_succeeded record_trade
  Quiet-close_succeeded pos mode reason a b =
      Quiet-bind _ _ (Quiet-mark_closed pos "" flat_closed) λ _.
        Quiet-bind _ _ (Quiet-add_action _) λ _. Quiet-bind _ _ (Quiet-write _) λ _. Quiet-write _

  Quiet-close_stuck :
      (pos : Position A) (mode : Mode) (a b : FillResult A)
      → Quiet {G = G} (close_stuck pos mode a b)
  unfolding close_stuck set_close_error assign record_event
  Quiet-close_stuck pos mode a b =
      Quiet-bind _ _ (Quiet-write _) λ _. Quiet-bind _ _ (Quiet-write _) λ _. Quiet-add_action _

  Quiet-if :
      (t : Bool) (m k : Action (World A G) (Unit {0}))
      → Quiet m
      → Quiet k
      → Quiet (if t then m else k)
  Quiet-if true m k p q = p
  Quiet-if false m k p q = q

  close_position-venue :
      (pos : Position A) (mode : Mode) (cycle_id reason : String) (w : World A G)
      (a b : FillResult A) (g g' : G)
      → spot_exit pos cycle_id w.venue ≡ (ok a, g)
      → perp_exit pos cycle_id g ≡ (ok b, g')
      → (close_position_market_fok pos mode cycle_id reason w).1.venue ≡ g'
  unfolding close_position_market_fok call ◌>>=◌
  close_position-venue pos mode cycle_id reason w a b g g' h h' =
      rw (h, h')
        ((Quiet-if (a.accepted && b.accepted) _ _ (Quiet-close_succeeded pos mode reason a b)
            (Quiet-close_stuck pos mode a b)).at
          (record w { venue = g' }))

module _ {A : Type 0} ⦃n : Number A⦄ ⦃host : Host⦄ (exchange : String) where
  abbrev close_on_paper :
      Position A → Mode → String → String → Action (World A (Paper A)) (Unit {0})
  close_on_paper = close_position_market_fok ⦃gateway = paper_gateway exchange⦄

  -- Both orders of a close are answered, and the venue then knows the id of the spot order.
  closed_once :
      (pos : Position A) (mode : Mode) (cycle_id reason : String) (w : World A (Paper A))
      → contains
          (client_order_id cycle_id pos.spot_symbol spot sell <> "-x")
          (close_on_paper pos mode cycle_id reason w).1.venue.seen_client_order_ids
        ≡ true
  closed_once pos mode cycle_id reason w =
      let spot_id = client_order_id cycle_id pos.spot_symbol spot sell <> "-x" in
      let perp_id = client_order_id cycle_id pos.perp_symbol futures buy <> "-x" in
      let g = (place_market_fok pos.spot_symbol spot sell pos.quantity spot_id w.venue).1 in
      let g' = (place_market_fok pos.perp_symbol futures buy pos.quantity perp_id g).1 in
      let (a, h, first) =
        place_market_fok-IsAnswered w.venue pos.spot_symbol spot sell pos.quantity spot_id in
      let (b, h', second) =
        place_market_fok-IsAnswered g pos.perp_symbol futures buy pos.quantity perp_id in
      let venue_is =
        close_position-venue ⦃gateway = paper_gateway exchange⦄ pos mode cycle_id reason w a b g g'
          (ap (λ r. (r, g)) h) (ap (λ r. (r, g')) h') in
      ap (λ (v : Paper A). contains spot_id v.seen_client_order_ids) venue_is
      ∙ seen-place_market_fok g pos.perp_symbol futures buy pos.quantity perp_id spot_id
          first.remembered

  -- On the paper venue a position that is closed again under the same cycle id is stuck, whatever
  -- the first attempt and other writes between the two came to: the second attempt returns, keeps
  -- every status and trade, and logs one error event that asks for an action.
  pub close_position_twice :
      (pos : Position A) (mode : Mode) (cycle_id reason reason' : String) (w : World A (Paper A))
      (s : Session A)
      → let first = (close_on_paper pos mode cycle_id reason w).1 in
        let second = close_on_paper pos mode cycle_id reason' (record first { session = s }) in
        (second.0 ≡ ok tt) × IsStuck s second.1.session
  close_position_twice pos mode cycle_id reason reason' w s =
      let spot_id = client_order_id cycle_id pos.spot_symbol spot sell <> "-x" in
      let perp_id = client_order_id cycle_id pos.perp_symbol futures buy <> "-x" in
      let first = record (close_on_paper pos mode cycle_id reason w).1 { session = s } in
      let g = first.venue in
      let (b, h, answered) =
        place_market_fok-IsAnswered g pos.perp_symbol futures buy pos.quantity perp_id in
      let g' = (place_market_fok pos.perp_symbol futures buy pos.quantity perp_id g).1 in
      let refusal = refused pos.spot_symbol spot sell "duplicate_client_order_id" spot_id in
      close_position-IsStuck ⦃gateway = paper_gateway exchange⦄ pos mode cycle_id reason' first
        refusal b g g'
        (place-duplicate g pos.spot_symbol spot sell pos.quantity spot_id
          (closed_once pos mode cycle_id reason w))
        (ap (λ r. (r, g')) h) refl
