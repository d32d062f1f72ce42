-- ===== src/Loop/Capacity.antt =====
-- loop/cycle.py: the rows of positions that phase C adds.
pub mod Limit
pub mod Rules
use Prim.Native.Nat.{◌≤◌}
use auto_trader_claude.Base.{
  ℕ, suc, ◌≡◌, refl, ap, ◌⊎◌, inl, inr, Bool-cases, String, Bool, true, false, if◌then◌else◌, leb,
  List, [], ◌∷◌, ◌++◌, length, keep, Option, none, some, Action, run_outcome, ◌>>=◌, arith,
}
use auto_trader_claude.Number.{Number}
use auto_trader_claude.Core.Types.{Mode, VenueLeg, spot, futures, PositionStatus, FillResult}
use auto_trader_claude.Core.Types.Market.{ScanCandidate, BookSnapshot, SizingResult}
use auto_trader_claude.Core.Types.Config.{MergedConfig}
use auto_trader_claude.State.Models.{Position}
use auto_trader_claude.State.Session.{Session}
use auto_trader_claude.State.Repository.{positions_currently_exposed}
use auto_trader_claude.Gateways.Venue.{Gateway}
use auto_trader_claude.Loop.World.{Host, World, call, query, add_action}
use auto_trader_claude.Loop.Executor.{
  EntryOutcome, success, rejected, single_leg_orphan_recovered, single_leg_orphan_naked,
  EntryResult, LegTiming,
}
use auto_trader_claude.Loop.Cycle.Scan.{tier1_scan}
use auto_trader_claude.Loop.Cycle.Fills.{
  reject, persist, persist_open, persist_leg, persist_found, persist_naked, settle_entry,
}
use auto_trader_claude.Loop.Cycle.Entries.{
  place_entry, gate_entry, check_size, size_candidate, try_candidate, try_first, scan_result,
  phase_c_entries,
}
use auto_trader_claude.Loop.Capacity.Rules.{
  AtMostOne, Keeping, Adding, Adding-first, Adding-bind, Adding-keep, Adding-insert_position,
  Keeping-query, keeping, adding,
}

module _ {A G : Type 0} ⦃n : Number A⦄ ⦃gateway : Gateway A G⦄ where
  reject-Keeping :
      (mode : Mode) (c : ScanCandidate A) (reason short : String)
      → Keeping {G = G} (reject mode c reason short)
  unfolding reject
  reject-Keeping mode c reason short = search keeping depth 20

  persist-Adding :
      (mode : Mode) (trade_type : String) (status : PositionStatus) (c : ScanCandidate A)
      (quantity spot_price perp_price : A)
      → Adding {G = G} (persist mode trade_type status c quantity spot_price perp_price)
  unfolding persist
  persist-Adding mode trade_type status c quantity spot_price perp_price =
      Adding-bind _ _ (Keeping-query _) (λ now. Adding-insert_position _)

  persist_open-Adding :
      (mode : Mode) (trade_type : String) (c : ScanCandidate A) (s p : Option (FillResult A))
      → Adding {G = G} (persist_open mode trade_type c s p)
  unfolding persist_open
  persist_open-Adding mode trade_type c (some s) (some p) =
      Adding-first _ _ (persist-Adding mode trade_type _ c _ _ _) (λ pos. search keeping depth 20)
  persist_open-Adding mode trade_type c none p = Adding-keep _ (search keeping)
  persist_open-Adding mode trade_type c (some s) none = Adding-keep _ (search keeping)

  persist_leg-Adding :
      (mode : Mode) (trade_type : String) (c : ScanCandidate A) (filled : FillResult A)
      (leg : VenueLeg)
      → Adding {G = G} (persist_leg mode trade_type c filled leg)
  unfolding persist_leg
  persist_leg-Adding mode trade_type c filled spot = Adding-bind _ _ (search keeping) λ status.
      Adding-first _ _ (persist-Adding mode trade_type status c _ _ _)
        λ pos. search keeping depth 20
  persist_leg-Adding mode trade_type c filled futures = Adding-bind _ _ (search keeping) λ status.
      Adding-first _ _ (persist-Adding mode trade_type status c _ _ _)
        λ pos. search keeping depth 20

  persist_found-Adding :
      (mode : Mode) (trade_type : String) (c : ScanCandidate A) (o : Option (FillResult A))
      → Adding {G = G} (persist_found mode trade_type c o)
  unfolding persist_found
  persist_found-Adding mode trade_type c none = Adding-keep _ (search keeping)
  persist_found-Adding mode trade_type c (some f) =
      persist_leg-Adding mode trade_type c f f.venue_leg

  settle_entry-Adding :
      (mode : Mode) (trade_type : String) (c : ScanCandidate A) (entry : EntryResult A)
      (outcome : EntryOutcome)
      → Adding {G = G} (settle_entry mode trade_type c entry outcome)
  unfolding settle_entry persist_naked
  settle_entry-Adding mode trade_type c entry success =
      persist_open-Adding mode trade_type c entry.spot_fill entry.perp_fill
  settle_entry-Adding mode trade_type c entry rejected =
      Adding-keep _ (reject-Keeping mode c entry.reason entry.reason)
  settle_entry-Adding mode trade_type c entry single_leg_orphan_recovered =
      Adding-keep _ (reject-Keeping mode c "single_leg_orphan" "single_leg_orphan_rolled_back")
  settle_entry-Adding mode trade_type c entry single_leg_orphan_naked =
      persist_found-Adding mode trade_type c _

module _ {A G : Type 0} ⦃n : Number A⦄ ⦃host : Host⦄ ⦃gateway : Gateway A G⦄ where
  module _ (mode : Mode) (config : MergedConfig A) (trade_type cycle_id : String)
      (timing : LegTiming) where
    place_entry-Adding :
        (c : ScanCandidate A) (qty : A)
        → Adding {G = G} (place_entry mode trade_type cycle_id timing c qty)
    unfolding place_entry
    place_entry-Adding c qty = search (adding, settle_entry-Adding) depth 20

    gate_entry-Adding :
        (c : ScanCandidate A) (sizing : SizingResult A)
        → Adding {G = G} (gate_entry mode config trade_type cycle_id timing c sizing)
    unfolding gate_entry
    gate_entry-Adding c sizing = search (adding, reject-Keeping, place_entry-Adding) depth 20

    check_size-Adding :
        (c : ScanCandidate A) (sizing : SizingResult A) (equity : A)
        → Adding {G = G} (check_size mode config trade_type cycle_id timing c sizing equity)
    unfolding check_size
    check_size-Adding c sizing equity = search (adding, reject-Keeping, gate_entry-Adding) depth 20

    size_candidate-Adding :
        (c : ScanCandidate A) (spot_book perp_book : BookSnapshot A)
        → Adding {G = G}
            (size_candidate mode config trade_type cycle_id timing c spot_book perp_book)
    unfolding size_candidate
    size_candidate-Adding c spot_book perp_book = search (adding, check_size-Adding) depth 20

    try_candidate-Adding :
        (c : ScanCandidate A)
        → Adding {G = G} (try_candidate mode config trade_type cycle_id timing c)
    unfolding try_candidate
    try_candidate-Adding c = search (adding, reject-Keeping, size_candidate-Adding) depth 20

    try_first-Adding :
        (o : Option (ScanCandidate A))
        → Adding {G = G} (try_first mode config trade_type cycle_id timing o)
    unfolding try_first
    try_first-Adding none = Adding-keep _ (search keeping)
    try_first-Adding (some c) = try_candidate-Adding c

    pub scan_result-Adding :
        (cs : List (ScanCandidate A))
        → Adding {G = G} (scan_result mode config trade_type cycle_id timing cs)
    unfolding scan_result
    scan_result-Adding [] = Adding-keep _ (search keeping)
    scan_result-Adding (c ∷ cs) = Adding-bind _ _ (Keeping-query _) (λ held. try_first-Adding _)
