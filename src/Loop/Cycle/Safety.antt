-- ===== src/Loop/Cycle/Safety.antt =====
-- loop/cycle.py: phase A. The rows that the first query returns are the same objects in both loops,
-- so each iteration sees what earlier ones wrote.
use auto_trader_claude.Base.{
  String, ◌<>◌, Bool, true, false, not, if◌then◌else◌, some, Action, pure, done, for_each, ◌>>=◌,
  ◌>>◌,
}
use auto_trader_claude.Number.{Number, ◌+◌, ◌-◌, ◌*◌, lt, le, decimal, nought, max, abs}
use auto_trader_claude.Core.Types.{
  Mode, paper, live, PositionStatus, opened, naked_spot, naked_perp, closed, is_open, is_naked,
}
use auto_trader_claude.Core.Types.Config.{MergedConfig}
use auto_trader_claude.Core.Lifecycle.{
  flat_closed, stale_reconciled, discover_orphan_spot, discover_orphan_perp,
}
use auto_trader_claude.State.Models.{Position, warn}
use auto_trader_claude.State.Repository.{positions_currently_exposed}
use auto_trader_claude.Gateways.Venue.{Gateway}
use auto_trader_claude.Loop.World.{Host, World, call, query, add_action, with_position}
use auto_trader_claude.Loop.Cycle.Marks.{mark_closed, mark_status, record_event}
use auto_trader_claude.Loop.Cycle.Recover.{perp_quantity, recover_naked_spot, recover_naked_perp}

module _ {A G : Type 0} ⦃n : Number A⦄ ⦃gateway : Gateway A G⦄ where
  -- half of the larger lot step
  unfoldable pub epsilon : Position A → Action (World A G) A
  epsilon pos = do
    spot_step ← call (gateway.lot_step pos.spot_symbol)
    perp_step ← call (gateway.lot_step pos.perp_symbol)
    pure (max spot_step perp_step * decimal 5 1)

  -- the test of `_is_underlying_gone`, by the status of the row
  unfoldable pub leg_gone : Position A → A → PositionStatus → Action (World A G) Bool
  leg_gone pos eps naked_spot = do
    bal ← call (gateway.fetch_balance pos.symbol)
    pure (lt (bal.spot.free + bal.spot.total) (pos.quantity - eps))
  leg_gone pos eps naked_perp = do
    perps ← call gateway.list_open_perp_positions
    pure (lt (abs (perp_quantity pos.perp_symbol nought perps)) (pos.quantity - eps))
  leg_gone pos eps opened = pure false
  leg_gone pos eps closed = pure false

  -- `_is_underlying_gone`
  unfoldable pub is_underlying_gone : Position A → Action (World A G) Bool
  unfolding epsilon leg_gone
  is_underlying_gone pos = do eps ← epsilon pos; leg_gone pos eps pos.status

  -- the body of the first loop
  unfoldable pub reconcile_stale : Position A → Action (World A G) (Unit {0})
  unfolding is_underlying_gone
  reconcile_stale pos = if not (is_naked pos.status) then done else (do
    gone ← is_underlying_gone pos
    if gone
        then (do
          mark_closed pos "stale_reconciled" stale_reconciled
          add_action ("stale_reconciled:" <> pos.symbol))
        else done)

  unfoldable pub settle_hedge : Mode → Position A → Bool → Bool → Action (World A G) (Unit {0})
  settle_hedge mode pos true true = done
  settle_hedge mode pos false false = do
    mark_closed pos "hedge_integrity:both_legs_missing" flat_closed
    add_action ("closed:" <> pos.symbol <> ":hedge_both_missing")
  settle_hedge mode pos false true = do
    mark_status pos discover_orphan_perp
    record_event mode warn ("hedge_integrity: spot leg vanished for " <> pos.symbol) false
    add_action ("naked_perp:" <> pos.symbol)
  settle_hedge mode pos true false = do
    mark_status pos discover_orphan_spot
    record_event mode warn ("hedge_integrity: perp leg vanished for " <> pos.symbol) false
    add_action ("naked_spot:" <> pos.symbol)

  -- `_check_hedge_integrity`
  unfoldable pub check_hedge_integrity : Mode → Position A → Action (World A G) (Unit {0})
  unfolding epsilon settle_hedge
  check_hedge_integrity mode pos = do
    balances ← call (gateway.fetch_balance pos.symbol)
    eps ← epsilon pos
    let spot_present = le (pos.quantity - eps) (balances.spot.free + balances.spot.total)
    perps ← call gateway.list_open_perp_positions
    let perp_qty = abs (perp_quantity pos.perp_symbol nought perps)
    let perp_present = le (pos.quantity - eps) perp_qty
    if is_open pos.status then settle_hedge mode pos spot_present perp_present else done

  -- the body of the second loop
  unfoldable pub check_open : Mode → Position A → Action (World A G) (Unit {0})
  check_open mode pos = if is_open pos.status then check_hedge_integrity mode pos else done

module _ {A G : Type 0} ⦃n : Number A⦄ ⦃host : Host⦄ ⦃gateway : Gateway A G⦄ where
  -- the body of the third loop, by the status of the row
  unfoldable pub recover :
      Mode → MergedConfig A → String → Position A → PositionStatus → Action (World A G) (Unit {0})
  unfolding recover_naked_spot recover_naked_perp
  recover mode config trade_type pos naked_spot = recover_naked_spot mode config trade_type pos
  recover mode config trade_type pos naked_perp = recover_naked_perp mode config trade_type pos
  recover mode config trade_type pos opened = done
  recover mode config trade_type pos closed = done

  -- `_phase_a_safety`
  unfoldable pub phase_a_safety : Mode → MergedConfig A → String → Action (World A G) (Unit {0})
  unfolding check_open reconcile_stale check_hedge_integrity recover
  phase_a_safety paper config trade_type = done
  phase_a_safety live config trade_type = do
    exposed ← query (positions_currently_exposed live (some gateway.exchange_id))
    for_each exposed (with_position reconcile_stale)
    (if config.hedge_integrity_check
        then for_each exposed (with_position (check_open live))
        else done)
    refreshed ← query (positions_currently_exposed live (some gateway.exchange_id))
    for_each refreshed (with_position λ pos. recover live config trade_type pos pos.status)
