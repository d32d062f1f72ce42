-- ===== src/Loop/Cycle/Close.antt =====
-- loop/cycle.py: `_close_position_market_fok` and `_close_all_for_maintenance`.
use auto_trader_claude.Base.{
  String, ◌<>◌, true, ◌&&◌, if◌then◌else◌, some, Action, for_each, ◌>>=◌, ◌>>◌,
}
use auto_trader_claude.Core.Types.{Mode, spot, futures, buy, sell, FillResult}
use auto_trader_claude.Core.Lifecycle.{flat_closed}
use auto_trader_claude.State.Models.{Position, error}
use auto_trader_claude.State.Repository.{positions_currently_exposed}
use auto_trader_claude.Gateways.Venue.{Gateway}
use auto_trader_claude.Loop.World.{Host, World, call, query, add_action, with_position}
use auto_trader_claude.Loop.Idempotency.{client_order_id}
use auto_trader_claude.Loop.Cycle.Marks.{
  mark_closed, set_close_error, record_trade, record_event, text_or_none,
}

module _ {A G : Type 0} ⦃host : Host⦄ ⦃gateway : Gateway A G⦄ where
  unfoldable pub close_succeeded :
      Position A → Mode → String → FillResult A → FillResult A → Action (World A G) (Unit {0})
  close_succeeded pos mode reason spot_fill perp_fill = do
    mark_closed pos "" flat_closed
    add_action ("closed:" <> pos.symbol <> ":" <> reason)
    record_trade mode pos.trade_type pos.id spot_fill.symbol spot_fill.venue_leg spot_fill.side
        spot_fill
    record_trade mode pos.trade_type pos.id perp_fill.symbol perp_fill.venue_leg perp_fill.side
        perp_fill

  unfoldable pub close_stuck :
      Position A → Mode → FillResult A → FillResult A → Action (World A G) (Unit {0})
  close_stuck pos mode spot_fill perp_fill = do
    let err =
        "close_failed:spot="
        <> text_or_none spot_fill.error
        <> ",perp="
        <> text_or_none perp_fill.error
    set_close_error pos err
    record_event mode error (err <> ":" <> pos.symbol) true
    add_action ("close_failed:" <> pos.symbol)

  -- `_close_position_market_fok`
  unfoldable pub close_position_market_fok :
      Position A → Mode → String → String → Action (World A G) (Unit {0})
  unfolding close_succeeded close_stuck
  close_position_market_fok pos mode cycle_id reason = do
    let spot_coid = client_order_id cycle_id pos.spot_symbol spot sell <> "-x"
    let perp_coid = client_order_id cycle_id pos.perp_symbol futures buy <> "-x"
    spot_fill ← call (gateway.place_market_fok pos.spot_symbol spot sell pos.quantity spot_coid)
    perp_fill ← call (gateway.place_market_fok pos.perp_symbol futures buy pos.quantity perp_coid)
    if spot_fill.accepted && perp_fill.accepted
        then close_succeeded pos mode reason spot_fill perp_fill
        else close_stuck pos mode spot_fill perp_fill

  -- `_close_all_for_maintenance`
  unfoldable pub close_all_for_maintenance : Mode → String → Action (World A G) (Unit {0})
  close_all_for_maintenance mode cycle_id = do
    exposed ← query (positions_currently_exposed mode (some gateway.exchange_id))
    for_each exposed
        (with_position λ pos. close_position_market_fok pos mode cycle_id "maintenance")
