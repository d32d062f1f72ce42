-- ===== src/Demo/Outage.antt =====
-- A venue that raises on every sell, so that neither the perpetual's leg nor a rollback goes through.
use auto_trader_claude.Base.{
  ◌≡◌, refl, String, true, false, some, none, Outcome, ok, raised, Exn, Action, ◌>>=◌,
}
use auto_trader_claude.Number.{literal, decimal}
use auto_trader_claude.Number.Fixed.{ℤ, fixed_number}
use auto_trader_claude.Core.Types.{paper, VenueLeg, spot, futures, Side, buy, sell, FillResult}
use auto_trader_claude.Gateways.Venue.{Gateway}
use auto_trader_claude.Gateways.Paper.{Paper}
use auto_trader_claude.Gateways.Paper.Orders.{place_market_fok, paper_gateway}
use auto_trader_claude.Loop.Executor.{EntryResult, place_both, parallel_market_fok_entry}
use auto_trader_claude.Loop.Executor.Outcomes.{differ}
use auto_trader_claude.Loop.Executor.Answers.{counts}
use auto_trader_claude.Loop.Idempotency.{client_order_id}
use auto_trader_claude.Loop.Cycle.Entries.{place_entry}
use auto_trader_claude.Loop.Cycle.Recorded.{entry_of, answers_of}
use auto_trader_claude.Loop.Cycle.Unrecorded.{place_entry_raises}
use auto_trader_claude.Demo.{demo_host, candidate, venue, prompt, world}

abbrev network_error : Exn
network_error = record { kind = "NetworkError"; message = "timed out" }

abbrev buys_only : String → VenueLeg → Side → ℤ → String → Action (Paper ℤ) (FillResult ℤ)
buys_only symbol leg buy qty coid g = place_market_fok symbol leg buy qty coid g
buys_only symbol leg sell qty coid g = (raised network_error, g)

abbrev outage : Gateway ℤ (Paper ℤ)
outage = record (paper_gateway "binance") { place_market_fok = buys_only }

abbrev entered : Outcome (EntryResult ℤ) × Paper ℤ
entered = entry_of ⦃gateway = outage⦄ "1-ab" prompt candidate (literal 2) venue

entered-raised : entered ≡ (raised network_error, entered.1)
unfolding parallel_market_fok_entry place_market_fok ◌>>=◌
entered-raised = refl

abbrev bought : FillResult ℤ
bought = record {
  symbol = "BTC/USDT";
  venue_leg = spot;
  side = buy;
  qty = literal 2;
  avg_price = decimal 10005 2;
  fee_quote = decimal 8004 5;
  accepted = true;
  error = none;
  client_order_id = "c1-ab|BTC/USDT|spot|buy";
}

abbrev refused : FillResult ℤ
refused = record {
  symbol = "BTC/USDT:USDT";
  venue_leg = futures;
  side = sell;
  qty = literal 0;
  avg_price = literal 0;
  fee_quote = literal 0;
  accepted = false;
  error = some "exception:NetworkError:timed out";
  client_order_id = "c1-ab|BTC/USDT:USDT|futur";
}

answered :
    (answers_of ⦃gateway = outage⦄ "1-ab" prompt candidate (literal 2) venue).0
    ≡ ok (bought, refused)
unfolding place_both place_market_fok client_order_id ◌>>=◌
answered = refl

place_entry_raises_example :
    (differ (counts false bought) (counts false refused) ≡ true)
    × (place_entry ⦃gateway = outage⦄ paper "arb" "1-ab" prompt candidate (literal 2) world
        ≡ (raised network_error, record world { venue = entered.1 }))
place_entry_raises_example =
    place_entry_raises ⦃gateway = outage⦄ paper "arb" "1-ab" prompt candidate (literal 2) world
      bought refused network_error entered.1 answered refl refl entered-raised
