-- ===== src/Loop/Evolution/Cycle.antt =====
-- loop/cycle.py: phase C and the whole cycle, against the relation `Evolves`.
use auto_trader_claude.Base.{String, Option, none, some, ok, raised, List, [], ◌∷◌, Outcome}
use auto_trader_claude.Number.{Number}
use auto_trader_claude.Core.Types.{Mode, VenueLeg, spot, futures, PositionStatus, FillResult}
use auto_trader_claude.Core.Types.Market.{ScanCandidate, BookSnapshot, SizingResult}
use auto_trader_claude.Core.Types.Config.{MergedConfig}
use auto_trader_claude.State.Models.{ModeState}
use auto_trader_claude.State.Session.{Session}
use auto_trader_claude.State.Repository.{log_event}
use auto_trader_claude.Gateways.Venue.{Gateway}
use auto_trader_claude.Loop.World.{Host, World}
use auto_trader_claude.Loop.Executor.{
  EntryOutcome, success, rejected, single_leg_orphan_recovered, single_leg_orphan_naked,
  EntryResult, LegTiming,
}
use auto_trader_claude.Loop.Cycle.Fills.{
  reject, persist, persist_open, persist_leg, persist_found, settle_entry,
}
use auto_trader_claude.Loop.Cycle.Entries.{
  place_entry, gate_entry, check_size, size_candidate, try_candidate, try_first, scan_result,
  phase_c_entries,
}
use auto_trader_claude.Loop.Cycle.Run.{trade_phases, cycle_body, handle, start, run_cycle}
use auto_trader_claude.Loop.Evolution.Rows.{Evolves, Evolves-trans, evolve_events}
use auto_trader_claude.Loop.Evolution.Rules.{Evolving}
use auto_trader_claude.Loop.Evolution.Orders.{marks}
use auto_trader_claude.Loop.Evolution.Recover.{Evolving-maintenance}
use auto_trader_claude.Loop.Evolution.Phases.{phase_a_safety-Evolving, phase_b_exits-Evolving}

module _ {A G : Type 0} ⦃n : Number A⦄ ⦃gateway : Gateway A G⦄ where
  reject-Evolving :
      (mode : Mode) (c : ScanCandidate A) (reason short : String)
      → Evolving {G = G} (reject mode c reason short)
  unfolding reject
  reject-Evolving mode c reason short = search marks depth 20

  persist-Evolving :
      (mode : Mode) (trade_type : String) (status : PositionStatus) (c : ScanCandidate A)
      (quantity spot_price perp_price : A)
      → Evolving {G = G} (persist mode trade_type status c quantity spot_price perp_price)
  unfolding persist
  persist-Evolving mode trade_type status c quantity spot_price perp_price = search marks depth 20

  persist_open-Evolving :
      (mode : Mode) (trade_type : String) (c : ScanCandidate A) (s p : Option (FillResult A))
      → Evolving {G = G} (persist_open mode trade_type c s p)
  unfolding persist_open
  persist_open-Evolving mode trade_type c (some s) (some p) =
      search (marks, persist-Evolving) depth 20
  persist_open-Evolving mode trade_type c _ _ = search marks

  persist_leg-Evolving :
      (mode : Mode) (trade_type : String) (c : ScanCandidate A) (filled : FillResult A)
      (leg : VenueLeg)
      → Evolving {G = G} (persist_leg mode trade_type c filled leg)
  unfolding persist_leg
  persist_leg-Evolving mode trade_type c filled spot = search (marks, persist-Evolving) depth 20
  persist_leg-Evolving mode trade_type c filled futures = search (marks, persist-Evolving) depth 20

  persist_found-Evolving :
      (mode : Mode) (trade_type : String) (c : ScanCandidate A) (o : Option (FillResult A))
      → Evolving {G = G} (persist_found mode trade_type c o)
  unfolding persist_found
  persist_found-Evolving mode trade_type c none = search marks
  persist_found-Evolving mode trade_type c (some f) =
      persist_leg-Evolving mode trade_type c f f.venue_leg

  settle_entry-Evolving :
      (mode : Mode) (trade_type : String) (c : ScanCandidate A) (entry : EntryResult A)
      (outcome : EntryOutcome)
      → Evolving {G = G} (settle_entry mode trade_type c entry outcome)
  unfolding settle_entry
  settle_entry-Evolving mode trade_type c entry success =
      persist_open-Evolving mode trade_type c entry.spot_fill entry.perp_fill
  settle_entry-Evolving mode trade_type c entry rejected =
      reject-Evolving mode c entry.reason entry.reason
  settle_entry-Evolving mode trade_type c entry single_leg_orphan_recovered =
      reject-Evolving mode c "single_leg_orphan" "single_leg_orphan_rolled_back"
  settle_entry-Evolving mode trade_type c entry single_leg_orphan_naked =
      persist_found-Evolving mode trade_type c _

module _ {A G : Type 0} ⦃n : Number A⦄ ⦃host : Host⦄ ⦃gateway : Gateway A G⦄ where
  module _ (mode : Mode) (config : MergedConfig A) (trade_type cycle_id : String)
      (timing : LegTiming) where
    place_entry-Evolving :
        (c : ScanCandidate A) (qty : A)
        → Evolving {G = G} (place_entry mode trade_type cycle_id timing c qty)
    unfolding place_entry
    place_entry-Evolving c qty = search (marks, settle_entry-Evolving) depth 20

    gate_entry-Evolving :
        (c : ScanCandidate A) (sizing : SizingResult A)
        → Evolving {G = G} (gate_entry mode config trade_type cycle_id timing c sizing)
    unfolding gate_entry
    gate_entry-Evolving c sizing = search (marks, reject-Evolving, place_entry-Evolving) depth 20

    check_size-Evolving :
        (c : ScanCandidate A) (sizing : SizingResult A) (equity : A)
        → Evolving {G = G} (check_size mode config trade_type cycle_id timing c sizing equity)
    unfolding check_size
    check_size-Evolving c sizing equity =
        search (marks, reject-Evolving, gate_entry-Evolving) depth 20

    size_candidate-Evolving :
        (c : ScanCandidate A) (spot_book perp_book : BookSnapshot A)
        → Evolving {G = G}
            (size_candidate mode config trade_type cycle_id timing c spot_book perp_book)
    unfolding size_candidate
    size_candidate-Evolving c spot_book perp_book = search (marks, check_size-Evolving) depth 20

    try_candidate-Evolving :
        (c : ScanCandidate A)
        → Evolving {G = G} (try_candidate mode config trade_type cycle_id timing c)
    unfolding try_candidate
    try_candidate-Evolving c = search (marks, reject-Evolving, size_candidate-Evolving) depth 20

    try_first-Evolving :
        (o : Option (ScanCandidate A))
        → Evolving {G = G} (try_first mode config trade_type cycle_id timing o)
    unfolding try_first
    try_first-Evolving none = search marks
    try_first-Evolving (some c) = try_candidate-Evolving c

    scan_result-Evolving :
        (cs : List (ScanCandidate A))
        → Evolving {G = G} (scan_result mode config trade_type cycle_id timing cs)
    unfolding scan_result
    scan_result-Evolving [] = search marks
    scan_result-Evolving (c ∷ cs) = search (marks, try_first-Evolving) depth 20

    phase_c_entries-Evolving :
        Evolving {G = G} (phase_c_entries mode config trade_type cycle_id timing)
    unfolding phase_c_entries
    phase_c_entries-Evolving = search (marks, scan_result-Evolving) depth 20

    trade_phases-Evolving :
        (state : ModeState)
        → Evolving {G = G} (trade_phases mode config trade_type cycle_id timing state)
    unfolding trade_phases
    trade_phases-Evolving state =
        search (marks, phase_b_exits-Evolving, phase_c_entries-Evolving) depth 20

    cycle_body-Evolving : Evolving {G = G} (cycle_body mode config trade_type cycle_id timing)
    unfolding cycle_body
    cycle_body-Evolving =
        search (marks, phase_a_safety-Evolving, Evolving-maintenance, trade_phases-Evolving) depth
          20

module _ {A G : Type 0} ⦃host : Host⦄ ⦃gateway : Gateway A G⦄ where
  handle-Evolves :
      (mode : Mode) (s : Session A) (r : Outcome (Unit {0})) (w : World A G)
      → Evolves s w.session
      → Evolves s (handle mode (r, w)).session
  unfolding log_event
  handle-Evolves mode s (ok x) w h = h
  handle-Evolves mode s (raised e) w h = Evolves-trans _ _ _ h (evolve_events w.session _)

module _ {A G : Type 0} ⦃n : Number A⦄ ⦃host : Host⦄ ⦃gateway : Gateway A G⦄ where
  -- One cycle, over any venue, arithmetic and timing of the legs, and whether or not it raises:
  -- every row of positions keeps its identity columns, and its status moves by transitions of the
  -- state machine alone; new rows stand behind the old ones under the next ids; and the tables of
  -- trades, events and rejections keep their rows and only get more at the end.
  pub run_cycle-Evolves :
      (mode : Mode) (config : MergedConfig A) (trade_type cycle_id : String) (timing : LegTiming)
      (s : Session A) (g : G)
      → Evolves s (run_cycle mode config trade_type cycle_id timing s g).session
  unfolding run_cycle
  run_cycle-Evolves mode config trade_type cycle_id timing s g =
      handle-Evolves mode s _ _
        ((cycle_body-Evolving mode config trade_type cycle_id timing).at (start mode cycle_id s g))
