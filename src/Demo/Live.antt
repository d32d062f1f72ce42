-- ===== src/Demo/Live.antt =====
-- Binance over a client that answers every order with a fill, and the reports, on concrete inputs.
use auto_trader_claude.State.Repository.{log_event}
use auto_trader_claude.State.Session.{Session}
use auto_trader_claude.Base.{
  suc, ◌≡◌, refl, ◌⊎◌, ℕ, true, false, List, [], ◌∷◌, none, some, ok, raised, Exn, length, keep,
}
use auto_trader_claude.Number.{literal}
use auto_trader_claude.Number.Fixed.{ℤ, fixed_number}
use auto_trader_claude.Core.Types.{paper, naked_perp, closed, futures, buy, FillResult}
use auto_trader_claude.State.Repository.Queries.{
  rejections_grouped, rejections_since, event_counts_in_window, events_since, positions_by_status,
  of_mode,
}
use auto_trader_claude.State.Repository.Queries.Counts.{sum, sum_all, total, counts-IsComplete}
use auto_trader_claude.Gateways.Ccxt.{
  Transfer, OrderBook, Order, AssetInfo, number, absent, one, Floats, Client, ErrorDedup,
  should_log,
}
use auto_trader_claude.Gateways.Ccxt.Dedup.{should_log-once}
use auto_trader_claude.Gateways.Binance.{Binance}
use auto_trader_claude.Gateways.Binance.Orders.{submit, place_market_fok}
use auto_trader_claude.Gateways.Binance.Answered.{IsAnswer, IsRefused, place_market_fok-IsAnswer}
use Prim.Native.Nat.{◌*◌}
use auto_trader_claude.Diagnostics.Snapshot.{build_snapshot}
use auto_trader_claude.Diagnostics.Snapshot.Report.{IsReport, build_snapshot-IsReport}
use auto_trader_claude.State.Models.{error}
use auto_trader_claude.Demo.{demo_host, fresh}
use auto_trader_claude.Demo.Exits.{pair}

abbrev filled_order : Order ℤ
filled_order = record {
  status = some "closed";
  filled = some (literal 2);
  average = some (literal 100);
  fee_cost = none;
}

abbrev pool : AssetInfo ℤ
pool = record {
  asset = some "USDT";
  cross_margin_free = number (literal 50);
  um_wallet_balance = number (literal 50);
  cm_wallet_balance = absent;
}

abbrev empty_book : OrderBook ℤ
empty_book = record { book_asks = []; book_bids = []; timestamp = none }

-- a deposit, one of nothing, and one without an id
abbrev paid_in : List (Transfer ℤ)
paid_in =
    record { timestamp = some 5; amount = number (literal 100); id = some "d1"; txid = none }
    ∷ record { timestamp = none; amount = absent; id = some "d2"; txid = none }
    ∷ record { timestamp = none; amount = number (literal 7); id = none; txid = none }
    ∷ []

-- a withdrawal with the id of its transaction only
abbrev paid_out : List (Transfer ℤ)
paid_out =
    record { timestamp = some 6; amount = number (literal 30); id = none; txid = some "tx9" } ∷ []

-- the state of the client is the number of orders that it took
instance abbrev demo_client : Client ℤ ℕ
demo_client = record {
  fetch_account = λ c. (ok (some "7", none), c);
  load_markets = λ force c. (ok tt, c);
  markets = λ c. [];
  fetch_funding_rates = λ c. (ok [], c);
  fetch_funding_rate = λ symbol c. (ok (record { funding_rate = none; interval = none }), c);
  fetch_order_book = λ symbol depth c. (ok empty_book, c);
  fetch_trading_fees = λ c. (ok [], c);
  fetch_balance = λ c. (ok (one pool), c);
  fetch_positions = λ c. (ok [], c);
  create_order = λ request c. (ok (some filled_order), suc c);
  fetch_deposits = λ asset c. (ok paid_in, c);
  fetch_withdrawals = λ asset c. (ok paid_out, c);
  utcnow = λ c. 9;
  from_ms = λ c ms. ok (ms * 1000);
  is_invalid_order = λ e. false;
  is_insufficient_funds = λ e. false;
}

instance abbrev demo_floats : Floats ℤ
demo_floats = record {
  float_of = λ s. none;
  malformed = λ s. record { kind = "ValueError"; message = s };
}

abbrev account : Binance ℤ ℕ
account = record { client = 0; account_id = "7"; padding_bps = literal 100; markets_loaded = false }

place_market_fok-IsAnswer_example :
    let sent = submit "BTC/USDT:USDT" buy (literal 2) "id-1" futures account in
    (fill : FillResult ℤ) × (place_market_fok "BTC/USDT:USDT" futures buy (literal 2) "id-1" account
      ≡ (ok fill, sent.1))
    × IsAnswer "id-1" fill
    × ((sent.0 ≡ ok fill) ⊎ (((e : Exn) × (sent.0 ≡ raised e)) × IsRefused fill))
place_market_fok-IsAnswer_example =
    place_market_fok-IsAnswer "BTC/USDT:USDT" futures buy (literal 2) "id-1" account

abbrev dedup : ErrorDedup
dedup = record { window = 60; seen = ("fees:NetworkError", 10) ∷ [] }

should_log-once_example :
    ((should_log "fees:NetworkError" 100 dedup).0 ≡ true)
    × (should_log "fees:NetworkError" 150 (should_log "fees:NetworkError" 100 dedup).1
        ≡ (false, (should_log "fees:NetworkError" 100 dedup).1))
should_log-once_example = should_log-once "fees:NetworkError" 100 150 dedup refl refl

abbrev busy : Session ℤ
busy = record fresh {
  rejected_candidates =
      record {
        id = 1;
        mode = paper;
        exchange = "binance";
        symbol = "BTC/USDT:USDT";
        reason = "low_profit: 3 bps";
        funding_rate = literal 0;
        ts = 7;
      }
      ∷ [];
  bot_events = (log_event paper "binance" error "lost" false fresh).bot_events;
}

counts-IsComplete_example :
    ((rejections_grouped 24 busy).0 ≡ length (rejections_since 24 busy))
    × (sum_all (rejections_grouped 24 busy).1 ≡ length (rejections_since 24 busy))
    × (total (event_counts_in_window 24 busy) ≡ length (events_since 24 busy))
    × (sum (positions_by_status (some paper) busy)
        ≡ length (keep (of_mode (some paper)) busy.positions))
counts-IsComplete_example = counts-IsComplete 24 (some paper) busy

abbrev mixed : Session ℤ
mixed = record busy {
  positions =
      pair
      ∷ record pair { id = 2; status = naked_perp }
      ∷ record pair { id = 3; status = closed }
      ∷ [];
}

build_snapshot-IsReport_example :
    IsReport mixed (build_snapshot 500 [] mixed).0
    × (build_snapshot 500 [] (build_snapshot 500 [] mixed).1 ≡ build_snapshot 500 [] mixed)
build_snapshot-IsReport_example = build_snapshot-IsReport 500 [] mixed
