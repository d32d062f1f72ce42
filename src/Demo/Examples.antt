-- ===== src/Demo/Examples.antt =====
-- The theorems on concrete inputs, and runs of the model.
use auto_trader_claude.Base.{◌≡◌, ◌>>=◌, refl, [], ◌∷◌, true, false, none, some, Outcome, ok, List}
use auto_trader_claude.Number.{decimal, literal, nought, neg}
use auto_trader_claude.Number.Fixed.{ℤ, fixed_number, pow_ℤ, fixed-IsOrdered, fixed-IsRounded}
use auto_trader_claude.Core.Types.{paper, spot, futures, buy, sell, opened, closed}
use auto_trader_claude.Core.Types.Market.{BookLevel, GateInputs, GateResult}
use auto_trader_claude.Core.Lifecycle.{transition, discover_orphan_spot, flat_closed}
use auto_trader_claude.Core.Lifecycle.Machine.{legs, after_events, run, run-legs}
use auto_trader_claude.Core.Math.{evaluate_gate}
use auto_trader_claude.Core.Math.Gate.{IsConservative, evaluate_gate-IsConservative}
use auto_trader_claude.Core.Sizing.{size_buy_spot_price_dependent}
use auto_trader_claude.Core.Sizing.Best.{IsBest, feasibles, size_buy-IsBest}
use auto_trader_claude.Core.Sizing.Entry.{SizingLimits, size_entry}
use auto_trader_claude.Core.Sizing.Bounds.{IsBounded, IsTruncError, size_entry-IsBounded}
use auto_trader_claude.Core.Sizing.Accepts.{AcceptsAbove, size_entry_accepts}
use auto_trader_claude.Base.Outcomes.{OrRaised}
use auto_trader_claude.Gateways.Paper.{Paper}
use auto_trader_claude.Gateways.Paper.Orders.{place_market_fok, refused}
use auto_trader_claude.Gateways.Paper.Placed.{
  Answers, place_market_fok-IsAnswered, place_market_fok_twice,
}
use auto_trader_claude.Gateways.Paper.Solvent.{IsSolvent, place_market_fok-IsSolvent}
use auto_trader_claude.Loop.Executor.{
  EntryResult, success, LegTiming, parallel_market_fok_entry, place_both,
}
use auto_trader_claude.Loop.Executor.Outcomes.{
  IsClassified, parallel_market_fok_entry-IsClassified, late_entry, timed_out,
}
use auto_trader_claude.Loop.World.{World}
use auto_trader_claude.Loop.Cycle.Run.{run_cycle}
use auto_trader_claude.Loop.Evolution.Rows.{Evolves}
use auto_trader_claude.Loop.Evolution.Cycle.{run_cycle-Evolves}
use auto_trader_claude.Demo.{demo_host, demo_gateway, book, venue, fresh, prompt, config}

abbrev first_cycle : World ℤ (Paper ℤ)
first_cycle = run_cycle paper config "binance_same_venue_funding_arb" "1-ab" prompt fresh venue

run_cycle-Evolves_example : Evolves fresh first_cycle.session
run_cycle-Evolves_example =
    run_cycle-Evolves paper config "binance_same_venue_funding_arb" "1-ab" prompt fresh venue

run-legs_example : legs closed ≡ after_events (discover_orphan_spot ∷ flat_closed ∷ []) (true, true)
unfolding run transition
run-legs_example = run-legs opened (discover_orphan_spot ∷ flat_closed ∷ []) closed refl

abbrev asks : List (BookLevel ℤ)
asks = (book "BTC/USDT" 100).asks

size_buy-IsBest_example :
    IsBest
      (size_buy_spot_price_dependent asks (literal 1000) (literal 1)).qty
      (feasibles (literal 1000) asks nought)
unfolding size_buy_spot_price_dependent
size_buy-IsBest_example = size_buy-IsBest fixed-IsOrdered asks (literal 1000) (literal 1) refl

abbrev limits : SizingLimits ℤ
limits = record {
  spot_wallet_quote_free = literal 1000;
  perp_wallet_quote_free = literal 1000;
  leverage = literal 1;
  safety = decimal 99 2;
  sub_target = decimal 75 2;
  operator_cap_qty = literal 2;
  spot_lot_step = decimal 1 3;
  perp_lot_step = decimal 1 3;
}

size_entry-IsBounded_example :
    OrRaised
      (IsTruncError ℤ)
      (IsBounded limits)
      (size_entry (book "BTC/USDT" 100) (book "BTC/USDT:USDT" 100) limits)
size_entry-IsBounded_example =
    size_entry-IsBounded fixed-IsRounded (book "BTC/USDT" 100) (book "BTC/USDT:USDT" 100) limits
      refl refl refl

abbrev inputs : GateInputs ℤ
inputs = record {
  funding_rate = decimal 1 2;
  funding_interval_hours = literal 8760;
  entry_basis_bps = literal 3;
  spot_fee_bps = literal 4;
  perp_fee_bps = literal 4;
  swap_basis_bps = nought;
  exit_basis_buffer_multiple = literal 3;
}

abbrev gate : GateResult ℤ
gate = record {
  net_apy = decimal 75 4;
  net_per_window_bps = literal 75;
  fees_rt_bps = literal 16;
  basis_rt_signed_bps = neg (literal 9);
  funding_per_window_bps = literal 100;
}

evaluate_gate-IsConservative_example : IsConservative inputs gate
unfolding evaluate_gate pow_ℤ
evaluate_gate-IsConservative_example =
    evaluate_gate-IsConservative fixed-IsOrdered inputs gate refl refl refl refl refl

place_market_fok-IsAnswered_example :
    Answers venue "BTC/USDT" buy
      (literal 2)
      "c1"
      (place_market_fok "BTC/USDT" spot buy (literal 2) "c1" venue)
place_market_fok-IsAnswered_example =
    place_market_fok-IsAnswered venue "BTC/USDT" spot buy (literal 2) "c1"

place_market_fok_twice_example :
    let g = (place_market_fok "BTC/USDT" spot buy (literal 2) "c1" venue).1 in
    place_market_fok "BTC/USDT" spot buy (literal 1) "c1" g
    ≡ (ok (refused "BTC/USDT" spot buy "duplicate_client_order_id" "c1"), g)
place_market_fok_twice_example =
    place_market_fok_twice venue "BTC/USDT" "BTC/USDT" spot spot buy buy (literal 2) (literal 1)
      "c1"

venue-IsSolvent : IsSolvent venue
venue-IsSolvent = record { spot = ((refl, refl), tt); futures = ((refl, refl), tt) }

place_market_fok-IsSolvent_example :
    IsSolvent (place_market_fok "BTC/USDT" spot buy (literal 2) "c1" venue).1
place_market_fok-IsSolvent_example =
    place_market_fok-IsSolvent fixed-IsOrdered venue "BTC/USDT" spot buy (literal 2) "c1"
      venue-IsSolvent

size_entry_accepts_example :
    OrRaised
      (IsTruncError ℤ)
      AcceptsAbove
      (size_entry (book "BTC/USDT" 100) (book "BTC/USDT:USDT" 100) limits)
size_entry_accepts_example =
    size_entry_accepts fixed-IsOrdered (book "BTC/USDT" 100) (book "BTC/USDT:USDT" 100) limits

abbrev both_late : LegTiming
both_late = record { perp_first = false; spot_late = true; perp_late = true }

late_entry_example :
    parallel_market_fok_entry {A = ℤ} both_late "BTC/USDT" "BTC/USDT:USDT"
      (literal 2)
      "c1"
      "c2"
      venue
    ≡ (
      ok (timed_out "BTC/USDT" "BTC/USDT:USDT" "c1" "c2"),
      (place_both {A = ℤ} both_late "BTC/USDT" "BTC/USDT:USDT" (literal 2) "c1" "c2" venue).1,
    )
late_entry_example = late_entry false "BTC/USDT" "BTC/USDT:USDT" (literal 2) "c1" "c2" venue

abbrev entered : Outcome (EntryResult ℤ)
entered =
    (parallel_market_fok_entry {A = ℤ} prompt "BTC/USDT" "BTC/USDT:USDT" (literal 2) "c1" "c2"
      venue).0

abbrev entry : EntryResult ℤ
entry = record {
  outcome = success;
  spot_fill = some (record {
    symbol = "BTC/USDT";
    venue_leg = spot;
    side = buy;
    qty = literal 2;
    avg_price = decimal 10005 2;
    fee_quote = decimal 8004 5;
    accepted = true;
    error = none;
    client_order_id = "c1";
  });
  perp_fill = some (record {
    symbol = "BTC/USDT:USDT";
    venue_leg = futures;
    side = sell;
    qty = literal 2;
    avg_price = decimal 9995 2;
    fee_quote = decimal 7996 5;
    accepted = true;
    error = none;
    client_order_id = "c2";
  });
  rollback_fill = none;
  reason = "";
}

entered-ok : entered ≡ ok entry
unfolding parallel_market_fok_entry place_market_fok ◌>>=◌
entered-ok = refl

parallel_market_fok_entry-IsClassified_example : IsClassified entry
parallel_market_fok_entry-IsClassified_example =
    parallel_market_fok_entry-IsClassified prompt "BTC/USDT" "BTC/USDT:USDT" (literal 2) "c1" "c2"
      venue entry entered-ok
