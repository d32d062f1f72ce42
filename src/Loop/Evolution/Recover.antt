-- ===== src/Loop/Evolution/Recover.antt =====
-- loop/cycle.py: the maintenance close and the recoveries, against the relation `Evolves`.
use auto_trader_claude.Base.{refl, String}
use auto_trader_claude.Number.{Number}
use auto_trader_claude.Core.Types.{Mode, PositionStatus, naked_spot, naked_perp, FillResult}
use auto_trader_claude.Core.Types.Market.{FundingInfo, FeeInfo}
use auto_trader_claude.Core.Types.Config.{MergedConfig}
use auto_trader_claude.Core.Lifecycle.Machine.{here}
use auto_trader_claude.State.Models.{Position}
use auto_trader_claude.Gateways.Venue.{Gateway}
use auto_trader_claude.Loop.World.{Host, assign}
use auto_trader_claude.Loop.Cycle.Close.{close_all_for_maintenance}
use auto_trader_claude.Loop.Cycle.Recover.{
  spot_hedged_row, perp_hedged_row, hedge_pays, hedge_spot, sell_spot_back, hedge_or_sell,
  hedge_perp, buy_perp_back, hedge_or_buy, recover_naked_spot, recover_naked_perp,
}
use auto_trader_claude.Loop.Cycle.Safety.{recover}
use auto_trader_claude.Loop.Evolution.Rules.{Evolving, Evolving-assign}
use auto_trader_claude.Loop.Evolution.Orders.{marks, Evolving-close}

module _ {A G : Type 0} ⦃n : Number A⦄ ⦃host : Host⦄ ⦃gateway : Gateway A G⦄ where
  pub Evolving-maintenance :
      (mode : Mode) (cycle_id : String)
      → Evolving {A = A} {G = G} (close_all_for_maintenance mode cycle_id)
  unfolding close_all_for_maintenance
  Evolving-maintenance mode cycle_id = search (marks, Evolving-close) depth 20

  spot_hedged-Evolving :
      (pos : Position A) (funding : FundingInfo A) (fill : FillResult A)
      → Evolving {G = G} (assign pos.id (spot_hedged_row funding fill))
  spot_hedged-Evolving pos funding fill =
      Evolving-assign pos.id _ λ p. record { same = refl; moves = here }

  perp_hedged-Evolving :
      (pos : Position A) (fill : FillResult A)
      → Evolving {G = G} (assign pos.id (perp_hedged_row fill))
  perp_hedged-Evolving pos fill = Evolving-assign pos.id _ λ p. record { same = refl; moves = here }

  hedge_pays-Evolving :
      (config : MergedConfig A) (funding : FundingInfo A) (fees : FeeInfo A)
      → Evolving {G = G} (hedge_pays config funding fees)
  unfolding hedge_pays
  hedge_pays-Evolving config funding fees = search marks depth 20

  hedge_spot-Evolving :
      (pos : Position A) (mode : Mode) (trade_type : String) (funding : FundingInfo A) (qty : A)
      → Evolving {G = G} (hedge_spot pos mode trade_type funding qty)
  unfolding hedge_spot
  hedge_spot-Evolving pos mode trade_type funding qty =
      search (marks, spot_hedged-Evolving) depth 20

  sell_spot_back-Evolving :
      (pos : Position A) (mode : Mode) (trade_type : String) (qty : A)
      → Evolving {G = G} (sell_spot_back pos mode trade_type qty)
  unfolding sell_spot_back
  sell_spot_back-Evolving pos mode trade_type qty = search marks depth 20

  hedge_or_sell-Evolving :
      (pos : Position A) (mode : Mode) (config : MergedConfig A) (trade_type : String)
      (funding : FundingInfo A) (fees : FeeInfo A) (qty : A)
      → Evolving {G = G} (hedge_or_sell pos mode config trade_type funding fees qty)
  unfolding hedge_or_sell
  hedge_or_sell-Evolving pos mode config trade_type funding fees qty =
      search (marks, hedge_pays-Evolving, hedge_spot-Evolving, sell_spot_back-Evolving) depth 20

  recover_naked_spot-Evolving :
      (mode : Mode) (config : MergedConfig A) (trade_type : String) (pos : Position A)
      → Evolving {G = G} (recover_naked_spot mode config trade_type pos)
  unfolding recover_naked_spot
  recover_naked_spot-Evolving mode config trade_type pos =
      search (marks, hedge_or_sell-Evolving) depth 20

  hedge_perp-Evolving :
      (pos : Position A) (mode : Mode) (trade_type : String) (qty : A)
      → Evolving {G = G} (hedge_perp pos mode trade_type qty)
  unfolding hedge_perp
  hedge_perp-Evolving pos mode trade_type qty = search (marks, perp_hedged-Evolving) depth 20

  buy_perp_back-Evolving :
      (pos : Position A) (mode : Mode) (trade_type : String) (qty : A)
      → Evolving {G = G} (buy_perp_back pos mode trade_type qty)
  unfolding buy_perp_back
  buy_perp_back-Evolving pos mode trade_type qty = search marks depth 20

  hedge_or_buy-Evolving :
      (pos : Position A) (mode : Mode) (config : MergedConfig A) (trade_type : String)
      (funding : FundingInfo A) (fees : FeeInfo A) (qty : A)
      → Evolving {G = G} (hedge_or_buy pos mode config trade_type funding fees qty)
  unfolding hedge_or_buy
  hedge_or_buy-Evolving pos mode config trade_type funding fees qty =
      search (marks, hedge_pays-Evolving, hedge_perp-Evolving, buy_perp_back-Evolving) depth 20

  recover_naked_perp-Evolving :
      (mode : Mode) (config : MergedConfig A) (trade_type : String) (pos : Position A)
      → Evolving {G = G} (recover_naked_perp mode config trade_type pos)
  unfolding recover_naked_perp
  recover_naked_perp-Evolving mode config trade_type pos =
      search (marks, hedge_or_buy-Evolving) depth 20

  pub recover-Evolving :
      (mode : Mode) (config : MergedConfig A) (trade_type : String) (pos : Position A)
      (status : PositionStatus)
      → Evolving {G = G} (recover mode config trade_type pos status)
  unfolding recover
  recover-Evolving mode config trade_type pos naked_spot =
      recover_naked_spot-Evolving mode config trade_type pos
  recover-Evolving mode config trade_type pos naked_perp =
      recover_naked_perp-Evolving mode config trade_type pos
  recover-Evolving mode config trade_type pos _ = search marks
