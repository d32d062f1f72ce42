-- ===== src/Loop/Capacity/Limit.antt =====
-- loop/cycle.py: phase C and the limit of open positions.
use Prim.Native.Nat.{◌≤◌}
use auto_trader_claude.Base.{
  ℕ, suc, ◌≡◌, refl, ◌⊎◌, inl, inr, Bool-cases, String, leb, List, [], ◌∷◌, ◌++◌, length, keep,
  none, Action, run_outcome, ◌>>=◌, arith,
}
use auto_trader_claude.Number.{Number}
use auto_trader_claude.Core.Types.{Mode}
use auto_trader_claude.Core.Types.Config.{MergedConfig}
use auto_trader_claude.State.Models.{Position}
use auto_trader_claude.State.Repository.{positions_currently_exposed, selected}
use auto_trader_claude.Gateways.Venue.{Gateway}
use auto_trader_claude.Loop.World.{Host, World, call, query, add_action}
use auto_trader_claude.Loop.Executor.{LegTiming}
use auto_trader_claude.Loop.Cycle.Scan.{tier1_scan}
use auto_trader_claude.Loop.Cycle.Entries.{scan_result, phase_c_entries}
use auto_trader_claude.Loop.Capacity.Rules.{AtMostOne, Adding, adding}
use auto_trader_claude.Loop.Capacity.{scan_result-Adding}

module _ {A : Type 0} where
  -- how many positions of a mode are exposed, over all venues
  abbrev pub exposure : Mode → List (Position A) → ℕ
  exposure mode ps = length (keep (selected mode none) ps)

  exposure-one :
      (mode : Mode) (ps : List (Position A)) (row : Position A)
      → exposure mode (ps ++ (row ∷ [])) ≤ suc (exposure mode ps)
  exposure-one mode [] row = ground arith
  exposure-one mode (p ∷ ps) row = let rest = exposure-one mode ps row in ground (arith, rest)

  exposure-AtMostOne :
      (mode : Mode) (ps qs : List (Position A))
      → AtMostOne ps qs
      → exposure mode qs ≤ suc (exposure mode ps)
  exposure-AtMostOne mode ps qs (inl e) = rw e (omega arith)
  exposure-AtMostOne mode ps qs (inr (row, e)) = rw e (exposure-one mode ps row)

module _ {A G : Type 0} ⦃n : Number A⦄ ⦃host : Host⦄ ⦃gateway : Gateway A G⦄ where
  abbrev scanned :
      Mode → MergedConfig A → String → String → LegTiming → Action (World A G) (Unit {0})
  scanned mode config trade_type cycle_id timing = do
    rates ← call gateway.fetch_funding_rates
    candidates ← run_outcome (tier1_scan config rates)
    scan_result mode config trade_type cycle_id timing candidates

  scanned-Adding :
      (mode : Mode) (config : MergedConfig A) (trade_type cycle_id : String) (timing : LegTiming)
      → Adding {G = G} (scanned mode config trade_type cycle_id timing)
  scanned-Adding mode config trade_type cycle_id timing =
      search (adding, scan_result-Adding) depth 20

  -- Phase C, over any venue and timing and also when it raises, adds at most one row of positions;
  -- and it leaves the number of exposed positions of its mode as it was, or at most at the limit.
  pub phase_c_entries-limit :
      (mode : Mode) (config : MergedConfig A) (trade_type cycle_id : String) (timing : LegTiming)
      (w : World A G)
      → let before = w.session.positions in
        let after =
          (phase_c_entries mode config trade_type cycle_id timing w).1.session.positions in
        AtMostOne before after
        × ((exposure mode after ≡ exposure mode before)
            ⊎ (exposure mode after ≤ config.max_open_positions))
  unfolding phase_c_entries query positions_currently_exposed add_action ◌>>=◌
  phase_c_entries-limit mode config trade_type cycle_id timing w =
      let added = (scanned-Adding mode config trade_type cycle_id timing).at w in
      let before = w.session.positions in
      elim (Bool-cases (leb config.max_open_positions (exposure mode before))) [
        | inl e ↦ rw e (inl refl, inl refl)
        | inr e ↦
            let bound = exposure-AtMostOne mode before _ added in
            rw e (added, inr (ground (arith, e, bound)))
      ]
