-- ===== src/Loop/Cycle/Fills.antt =====
-- loop/cycle.py: phase C, what is written for each outcome of the order placement.
use auto_trader_claude.Base.{
  ℕ, String, ◌<>◌, true, if◌then◌else◌, Option, none, some, Action, raise, run_outcome, Exn, ◌>>=◌,
  ◌>>◌,
}
use auto_trader_claude.Number.{Number, nought, show}
use auto_trader_claude.Core.Types.{
  Mode, VenueLeg, spot, futures, buy, sell, PositionStatus, opened, status_text, leg_text,
  FillResult,
}
use auto_trader_claude.Core.Types.Market.{ScanCandidate}
use auto_trader_claude.Core.Lifecycle.{initial_status, open_only_spot_filled, open_only_perp_filled}
use auto_trader_claude.State.Models.{Position, warn}
use auto_trader_claude.State.Repository.{insert_position, insert_rejection}
use auto_trader_claude.Gateways.Venue.{Gateway}
use auto_trader_claude.Loop.World.{World, query, write, fetch, add_action, add_rejection}
use auto_trader_claude.Loop.Executor.{
  EntryOutcome, success, rejected, single_leg_orphan_recovered, single_leg_orphan_naked,
  EntryResult, leg_accepted,
}
use auto_trader_claude.Loop.Cycle.Marks.{record_trade, record_event}

abbrev pub assertion_error : Exn
assertion_error = record { kind = "AssertionError"; message = "" }

module _ {A : Type 0} ⦃n : Number A⦄ where
  -- `m.Position(...)`; the flush assigns the id, and the other columns take their defaults
  abbrev pub new_position :
      Mode → String → String → PositionStatus → ScanCandidate A → A → A → A → ℕ → Position A
  new_position mode exchange trade_type status c quantity spot_price perp_price now = record {
    id = 0;
    mode = mode;
    exchange = exchange;
    trade_type = trade_type;
    status = status;
    symbol = c.base_asset;
    spot_symbol = c.spot_symbol;
    perp_symbol = c.perp_symbol;
    quote_currency = c.quote_currency;
    spot_quote_currency = c.spot_quote_currency;
    quantity = quantity;
    opened_at = now;
    entry_funding_rate = c.predicted_funding_rate;
    last_funding_rate = c.predicted_funding_rate;
    spot_entry_price = spot_price;
    perp_entry_price = perp_price;
    funding_interval_hours = c.funding_interval_hours;
    funding_income_accrued = nought;
    last_funding_accrual_ts = now;
    last_close_error = "";
    closed_at = none;
  }

module _ {A G : Type 0} ⦃n : Number A⦄ ⦃gateway : Gateway A G⦄ where
  -- a rejection row, and the entry of the result
  unfoldable pub reject : Mode → ScanCandidate A → String → String → Action (World A G) (Unit {0})
  reject mode c reason short = do
    write (insert_rejection mode gateway.exchange_id c.perp_symbol reason c.predicted_funding_rate)
    add_rejection (c.perp_symbol <> ":" <> short)

  unfoldable pub persist :
      Mode → String → PositionStatus → ScanCandidate A → A → A → A → Action (World A G) (Position A)
  persist mode trade_type status c quantity spot_price perp_price = do
    now ← query (λ s. s.now)
    fetch (
        insert_position (
          new_position mode gateway.exchange_id trade_type status c quantity spot_price perp_price
            now))

  unfoldable pub persist_open :
      Mode
      → String
      → ScanCandidate A
      → Option (FillResult A)
      → Option (FillResult A)
      → Action (World A G) (Unit {0})
  unfolding persist
  persist_open mode trade_type c (some s) (some p) = do
    pos ← persist mode trade_type opened c s.qty s.avg_price p.avg_price
    record_trade mode trade_type pos.id c.spot_symbol spot buy s
    record_trade mode trade_type pos.id c.perp_symbol futures sell p
    add_action ("opened:" <> c.base_asset <> ":qty=" <> show s.qty)
  persist_open mode trade_type c _ _ = raise assertion_error

  unfoldable pub persist_leg :
      Mode → String → ScanCandidate A → FillResult A → VenueLeg → Action (World A G) (Unit {0})
  unfolding persist
  persist_leg mode trade_type c filled spot = do
    status ← run_outcome (initial_status open_only_spot_filled)
    pos ← persist mode trade_type status c filled.qty filled.avg_price nought
    record_event mode warn
        ("single_leg_orphan_naked:" <> c.base_asset <> ":" <> leg_text filled.venue_leg) true
    add_action ("naked_persisted:" <> c.base_asset <> ":" <> status_text status)
  persist_leg mode trade_type c filled futures = do
    status ← run_outcome (initial_status open_only_perp_filled)
    pos ← persist mode trade_type status c filled.qty nought filled.avg_price
    record_event mode warn
        ("single_leg_orphan_naked:" <> c.base_asset <> ":" <> leg_text filled.venue_leg) true
    add_action ("naked_persisted:" <> c.base_asset <> ":" <> status_text status)

  unfoldable pub persist_found :
      Mode → String → ScanCandidate A → Option (FillResult A) → Action (World A G) (Unit {0})
  unfolding persist_leg
  persist_found mode trade_type c none = raise assertion_error
  persist_found mode trade_type c (some filled) =
      persist_leg mode trade_type c filled filled.venue_leg

  unfoldable pub persist_naked :
      Mode
      → String
      → ScanCandidate A
      → Option (FillResult A)
      → Option (FillResult A)
      → Action (World A G) (Unit {0})
  unfolding persist_found
  persist_naked mode trade_type c s p =
      persist_found mode trade_type c (if leg_accepted s then s else p)

  -- the four branches behind the order placement
  unfoldable pub settle_entry :
      Mode → String → ScanCandidate A → EntryResult A → EntryOutcome → Action (World A G) (Unit {0})
  unfolding reject persist_open persist_naked
  settle_entry mode trade_type c entry success =
      persist_open mode trade_type c entry.spot_fill entry.perp_fill
  settle_entry mode trade_type c entry rejected = reject mode c entry.reason entry.reason
  settle_entry mode trade_type c entry single_leg_orphan_recovered =
      reject mode c "single_leg_orphan" "single_leg_orphan_rolled_back"
  settle_entry mode trade_type c entry single_leg_orphan_naked =
      persist_naked mode trade_type c entry.spot_fill entry.perp_fill
