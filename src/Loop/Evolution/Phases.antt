-- ===== src/Loop/Evolution/Phases.antt =====
-- loop/cycle.py: the phases, against the relation `Evolves`.
use auto_trader_claude.Base.{refl, String, Bool, true, false}
use auto_trader_claude.Number.{Number}
use auto_trader_claude.Core.Types.{Mode, paper, live, PositionStatus, opened}
use auto_trader_claude.Core.Types.Market.{FundingInfo}
use auto_trader_claude.Core.Types.Config.{MergedConfig}
use auto_trader_claude.Core.Lifecycle.Machine.{here}
use auto_trader_claude.State.Models.{Position}
use auto_trader_claude.Gateways.Venue.{Gateway}
use auto_trader_claude.Loop.World.{Host, assign}
use auto_trader_claude.Loop.Cycle.Safety.{
  epsilon, leg_gone, is_underlying_gone, reconcile_stale, settle_hedge, check_hedge_integrity,
  check_open, phase_a_safety,
}
use auto_trader_claude.Loop.Cycle.Exits.{
  live_funding, voluntary_exit, decide_exit, evaluate_position_exit, phase_b_exits,
}
use auto_trader_claude.Loop.Evolution.Rules.{Evolving, Evolving-assign}
use auto_trader_claude.Loop.Evolution.Orders.{marks, Evolving-close}
use auto_trader_claude.Loop.Evolution.Recover.{recover-Evolving}

module _ {A G : Type 0} ⦃n : Number A⦄ ⦃gateway : Gateway A G⦄ where
  epsilon-Evolving : (pos : Position A) → Evolving {G = G} (epsilon pos)
  unfolding epsilon
  epsilon-Evolving pos = search marks depth 20

  leg_gone-Evolving :
      (pos : Position A) (eps : A) (status : PositionStatus)
      → Evolving {G = G} (leg_gone pos eps status)
  unfolding leg_gone
  leg_gone-Evolving pos eps opened = search marks depth 20
  leg_gone-Evolving pos eps _ = search marks depth 20

  is_underlying_gone-Evolving : (pos : Position A) → Evolving {G = G} (is_underlying_gone pos)
  unfolding is_underlying_gone
  is_underlying_gone-Evolving pos = search (marks, epsilon-Evolving, leg_gone-Evolving) depth 20

  reconcile_stale-Evolving : (pos : Position A) → Evolving {G = G} (reconcile_stale pos)
  unfolding reconcile_stale
  reconcile_stale-Evolving pos = search (marks, is_underlying_gone-Evolving) depth 20

  settle_hedge-Evolving :
      (mode : Mode) (pos : Position A) (s p : Bool) → Evolving {G = G} (settle_hedge mode pos s p)
  unfolding settle_hedge
  settle_hedge-Evolving mode pos true true = search marks depth 20
  settle_hedge-Evolving mode pos true false = search marks depth 20
  settle_hedge-Evolving mode pos false true = search marks depth 20
  settle_hedge-Evolving mode pos false false = search marks depth 20

  check_hedge_integrity-Evolving :
      (mode : Mode) (pos : Position A) → Evolving {G = G} (check_hedge_integrity mode pos)
  unfolding check_hedge_integrity
  check_hedge_integrity-Evolving mode pos =
      search (marks, epsilon-Evolving, settle_hedge-Evolving) depth 20

  check_open-Evolving : (mode : Mode) (pos : Position A) → Evolving {G = G} (check_open mode pos)
  unfolding check_open
  check_open-Evolving mode pos = search (marks, check_hedge_integrity-Evolving) depth 20

module _ {A G : Type 0} ⦃n : Number A⦄ ⦃host : Host⦄ ⦃gateway : Gateway A G⦄ where
  pub phase_a_safety-Evolving :
      (mode : Mode) (config : MergedConfig A) (trade_type : String)
      → Evolving {G = G} (phase_a_safety mode config trade_type)
  unfolding phase_a_safety
  phase_a_safety-Evolving paper config trade_type = search marks
  phase_a_safety-Evolving live config trade_type =
      search (marks, reconcile_stale-Evolving, check_open-Evolving, recover-Evolving) depth 20

  live_funding-Evolving :
      (pos : Position A) (funding : FundingInfo A)
      → Evolving {G = G} (assign pos.id (live_funding funding))
  live_funding-Evolving pos funding =
      Evolving-assign pos.id _ λ p. record { same = refl; moves = here }

  voluntary_exit-Evolving :
      (mode : Mode) (config : MergedConfig A) (pos : Position A) (basis fwd : A)
      → Evolving {G = G} (voluntary_exit mode config pos basis fwd)
  unfolding voluntary_exit
  voluntary_exit-Evolving mode config pos basis fwd = search (marks, Evolving-close) depth 20

  decide_exit-Evolving :
      (mode : Mode) (config : MergedConfig A) (pos : Position A) (funding : FundingInfo A)
      (spot_mark perp_mark : A)
      → Evolving {G = G} (decide_exit mode config pos funding spot_mark perp_mark)
  unfolding decide_exit
  decide_exit-Evolving mode config pos funding spot_mark perp_mark =
      search (marks, Evolving-close, voluntary_exit-Evolving) depth 20

  evaluate_position_exit-Evolving :
      (mode : Mode) (config : MergedConfig A) (pos : Position A)
      → Evolving {G = G} (evaluate_position_exit mode config pos)
  unfolding evaluate_position_exit
  evaluate_position_exit-Evolving mode config pos =
      search (marks, live_funding-Evolving, decide_exit-Evolving) depth 20

  pub phase_b_exits-Evolving :
      (mode : Mode) (config : MergedConfig A) → Evolving {G = G} (phase_b_exits mode config)
  unfolding phase_b_exits
  phase_b_exits-Evolving mode config = search (marks, evaluate_position_exit-Evolving) depth 20
