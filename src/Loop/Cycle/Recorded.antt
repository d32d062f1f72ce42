-- ===== src/Loop/Cycle/Recorded.antt =====
-- loop/cycle.py: what phase C writes, against what the entry leaves at the venue.
use auto_trader_claude.Base.{
  ◌≡◌, refl, ◌⊎◌, inl, inr, String, Bool, true, false, ◌&&◌, if◌then◌else◌, List, [], ◌∷◌, ◌++◌,
  Option, none, some, Outcome, ok, run_outcome, subst, sym, ap, Action, ◌>>=◌, arith,
}
use auto_trader_claude.Number.{Number}
use auto_trader_claude.Core.Types.{Mode, VenueLeg, spot, futures, buy, sell, FillResult}
use auto_trader_claude.Core.Types.Market.{ScanCandidate}
use auto_trader_claude.Core.Lifecycle.{initial_status}
use auto_trader_claude.Core.Lifecycle.Machine.{Legs, legs}
use auto_trader_claude.State.Models.{Position}
use auto_trader_claude.State.Repository.{insert_position, insert_trade, insert_rejection, log_event}
use auto_trader_claude.Gateways.Venue.{Gateway}
use auto_trader_claude.Loop.World.{
  Host, World, call, query, write, fetch, add_action, add_rejection,
}
use auto_trader_claude.Loop.Executor.{
  EntryResult, LegTiming, leg_accepted, place_both, parallel_market_fok_entry,
}
use auto_trader_claude.Loop.Executor.Outcomes.{
  expected, IsClassified, parallel_market_fok_entry-IsClassified,
}
use auto_trader_claude.Loop.Executor.Answers.{entry_reports}
use auto_trader_claude.Loop.Idempotency.{client_order_id}
use auto_trader_claude.Loop.Cycle.Entries.{place_entry}
use auto_trader_claude.Loop.Cycle.Marks.{record_trade, record_event}
use auto_trader_claude.Loop.Cycle.Fills.{
  reject, persist, persist_open, persist_leg, persist_found, persist_naked, settle_entry,
}

-- The legs that are left at the venue: a pair of fills, or a single fill that was not rolled back.
abbrev pub left : Bool → Bool → Bool → Legs
left spot_filled perp_filled rolled_back =
    if spot_filled && perp_filled
    then (true, true)
    else if rolled_back
    then (false, false)
    else (spot_filled, perp_filled)

abbrev pub leg_only : VenueLeg → Legs
leg_only spot = (true, false)
leg_only futures = (false, true)

module _ {A : Type 0} where
  abbrev pub held : EntryResult A → Legs
  held r = left (leg_accepted r.spot_fill) (leg_accepted r.perp_fill) (leg_accepted r.rollback_fill)

  -- A fill names the leg on which its order was placed.
  abbrev pub Names : VenueLeg → Option (FillResult A) → Type 0
  Names leg none = Unit
  Names leg (some f) = f.venue_leg ≡ leg

  -- The rows behind an entry: one more, for the legs that are held, or none where none is held.
  abbrev pub Recorded : Legs → List (Position A) → List (Position A) → Type 0
  Recorded l before after =
      ((l ≡ (false, false)) × (after ≡ before))
      ⊎ ((row : Position A) × (after ≡ before ++ (row ∷ [])) × (legs row.status ≡ l))

module _ {A G : Type 0} ⦃n : Number A⦄ ⦃gateway : Gateway A G⦄ where
  abbrev Settled : Legs → World A G → Outcome (Unit {0}) × World A G → Type 0
  Settled l w (r, w') = (r ≡ ok tt) × Recorded l w.session.positions w'.session.positions

  reject-Settled :
      (mode : Mode) (c : ScanCandidate A) (reason short : String) (w : World A G)
      → Settled (false, false) w (reject mode c reason short w)
  unfolding reject insert_rejection write add_rejection ◌>>=◌
  reject-Settled mode c reason short w = (refl, inl (refl, refl))

  open-Settled :
      (mode : Mode) (trade_type : String) (c : ScanCandidate A) (s p : Option (FillResult A))
      (w : World A G)
      → leg_accepted s ≡ true
      → leg_accepted p ≡ true
      → Settled (true, true) w (persist_open mode trade_type c s p w)
  unfolding persist_open persist query fetch insert_position record_trade insert_trade write
      add_action ◌>>=◌
  open-Settled mode trade_type c (some s) (some p) w hs hp = (refl, inr (_, refl, refl))
  open-Settled mode trade_type c none p w hs hp = ground (arith, hs)
  open-Settled mode trade_type c (some s) none w hs hp = ground (arith, hp)

  leg-Settled :
      (mode : Mode) (trade_type : String) (c : ScanCandidate A) (f : FillResult A) (leg : VenueLeg)
      (w : World A G)
      → Settled (leg_only leg) w (persist_leg mode trade_type c f leg w)
  unfolding persist_leg persist query fetch insert_position record_event log_event write add_action
      initial_status run_outcome ◌>>=◌
  leg-Settled mode trade_type c f spot w = (refl, inr (_, refl, refl))
  leg-Settled mode trade_type c f futures w = (refl, inr (_, refl, refl))

  found-Settled :
      (mode : Mode) (trade_type : String) (c : ScanCandidate A) (o : Option (FillResult A))
      (leg : VenueLeg) (w : World A G)
      → leg_accepted o ≡ true
      → Names leg o
      → Settled (leg_only leg) w (persist_found mode trade_type c o w)
  unfolding persist_found
  found-Settled mode trade_type c none leg w h name = ground (arith, h)
  found-Settled mode trade_type c (some f) leg w h name =
      subst (λ l. Settled (leg_only leg) w (persist_leg mode trade_type c f l w)) (sym name)
        (leg-Settled mode trade_type c f leg w)

  module _ (mode : Mode) (trade_type : String) (c : ScanCandidate A) (r : EntryResult A)
      (w : World A G) where
    settle-Settled :
        (sa pa ba : Bool)
        → leg_accepted r.spot_fill ≡ sa
        → leg_accepted r.perp_fill ≡ pa
        → Names spot r.spot_fill
        → Names futures r.perp_fill
        → Settled (left sa pa ba) w (settle_entry mode trade_type c r (expected sa pa ba) w)
    unfolding settle_entry persist_naked
    settle-Settled true true ba hs hp ns np =
        open-Settled mode trade_type c r.spot_fill r.perp_fill w hs hp
    settle-Settled false false true hs hp ns np = reject-Settled mode c r.reason r.reason w
    settle-Settled false false false hs hp ns np = reject-Settled mode c r.reason r.reason w
    settle-Settled true false true hs hp ns np =
        reject-Settled mode c "single_leg_orphan" "single_leg_orphan_rolled_back" w
    settle-Settled false true true hs hp ns np =
        reject-Settled mode c "single_leg_orphan" "single_leg_orphan_rolled_back" w
    settle-Settled true false false hs hp ns np =
        rw hs (found-Settled mode trade_type c r.spot_fill spot w hs ns)
    settle-Settled false true false hs hp ns np =
        rw hs (found-Settled mode trade_type c r.perp_fill futures w hp np)

    classified-Settled :
        IsClassified r
        → Names spot r.spot_fill
        → Names futures r.perp_fill
        → Settled (held r) w (settle_entry mode trade_type c r r.outcome w)
    classified-Settled h ns np =
        subst (λ o. Settled (held r) w (settle_entry mode trade_type c r o w)) (sym h.as_expected)
          (settle-Settled (leg_accepted r.spot_fill) (leg_accepted r.perp_fill)
            (leg_accepted r.rollback_fill) refl refl ns np)

module _ {A G : Type 0} ⦃n : Number A⦄ ⦃host : Host⦄ ⦃gateway : Gateway A G⦄ where
  abbrev pub entry_of : String → LegTiming → ScanCandidate A → A → Action G (EntryResult A)
  entry_of cycle_id timing c qty =
      parallel_market_fok_entry timing c.spot_symbol c.perp_symbol qty
        (client_order_id cycle_id c.spot_symbol spot buy)
        (client_order_id cycle_id c.perp_symbol futures sell)

  -- The answers of the venue to the two orders of an entry.
  abbrev pub answers_of :
      String → LegTiming → ScanCandidate A → A → Action G (FillResult A × FillResult A)
  answers_of cycle_id timing c qty =
      place_both timing c.spot_symbol c.perp_symbol qty
        (client_order_id cycle_id c.spot_symbol spot buy)
        (client_order_id cycle_id c.perp_symbol futures sell)

  reported-Recorded :
      (mode : Mode) (trade_type cycle_id : String) (timing : LegTiming) (c : ScanCandidate A)
      (qty : A) (w : World A G) (r : EntryResult A) (g : G)
      → entry_of cycle_id timing c qty w.venue ≡ (ok r, g)
      → Names spot r.spot_fill
      → Names futures r.perp_fill
      → let out = place_entry mode trade_type cycle_id timing c qty w in
        (out.0 ≡ ok tt) × Recorded (held r) w.session.positions out.1.session.positions
  unfolding place_entry call ◌>>=◌
  reported-Recorded mode trade_type cycle_id timing c qty w r g h ns np =
      let classified =
        parallel_market_fok_entry-IsClassified timing c.spot_symbol c.perp_symbol qty
          (client_order_id cycle_id c.spot_symbol spot buy)
          (client_order_id cycle_id c.perp_symbol futures sell) w.venue r (ap (λ x. x.0) h) in
      rw h (classified-Settled mode trade_type c r (record w { venue = g }) classified ns np)

  -- Where no answer of the venue is late, both answers name the legs of their orders, and the
  -- executor returns: the placement of an entry returns. By those answers it adds one row of
  -- positions, whose status stands for the legs that were accepted, or no row where neither was or
  -- where the rollback of the one leg that was accepted is accepted too.
  pub place_entry-Recorded :
      (mode : Mode) (trade_type cycle_id : String) (timing : LegTiming) (c : ScanCandidate A)
      (qty : A) (w : World A G) (s p : FillResult A) (r : EntryResult A) (g : G)
      → timing.spot_late ≡ false
      → timing.perp_late ≡ false
      → (answers_of cycle_id timing c qty w.venue).0 ≡ ok (s, p)
      → s.venue_leg ≡ spot
      → p.venue_leg ≡ futures
      → entry_of cycle_id timing c qty w.venue ≡ (ok r, g)
      → let out = place_entry mode trade_type cycle_id timing c qty w in
        (out.0 ≡ ok tt)
        × Recorded
            (left s.accepted p.accepted (leg_accepted r.rollback_fill))
            w.session.positions
            out.1.session.positions
  place_entry-Recorded mode trade_type cycle_id timing c qty w s p r g hs hp answers ns np h =
      let (es, ep) =
        entry_reports timing c.spot_symbol c.perp_symbol qty
          (client_order_id cycle_id c.spot_symbol spot buy)
          (client_order_id cycle_id c.perp_symbol futures sell) w.venue s p ns np answers r hs hp
          (ap (λ x. x.0) h) in
      let (returns, rows) =
        reported-Recorded mode trade_type cycle_id timing c qty w r g h
          (subst (Names spot) (sym es) ns) (subst (Names futures) (sym ep) np) in
      (
        returns,
        subst
            (λ l.
              Recorded l w.session.positions
                (place_entry mode trade_type cycle_id timing c qty w).1.session.positions)
            (λ i. left (leg_accepted (es i)) (leg_accepted (ep i)) (leg_accepted r.rollback_fill))
            rows,
      )
