-- ===== src/Demo/Entries.antt =====
-- The theorems on what the loop records, on concrete inputs.
use Prim.Native.Nat.{◌≤◌}
use auto_trader_claude.Base.{◌⊎◌, ◌≡◌, refl, [], Outcome, ok, ◌>>=◌, true, false, some, none}
use auto_trader_claude.Number.{decimal, literal}
use auto_trader_claude.Number.Fixed.{ℤ, fixed_number}
use auto_trader_claude.Core.Types.{paper, spot, futures, buy, sell, FillResult}
use auto_trader_claude.Gateways.Paper.{Paper}
use auto_trader_claude.Gateways.Paper.Orders.{place_market_fok}
use auto_trader_claude.Loop.Idempotency.{client_order_id}
use auto_trader_claude.Loop.Executor.{EntryResult, success, place_both, parallel_market_fok_entry}
use auto_trader_claude.Loop.Cycle.Entries.{place_entry, phase_c_entries}
use auto_trader_claude.Loop.Cycle.Recorded.{
  Recorded, left, entry_of, answers_of, place_entry-Recorded,
}
use auto_trader_claude.Loop.Capacity.Rules.{AtMostOne}
use auto_trader_claude.Loop.Capacity.Limit.{exposure, phase_c_entries-limit}
use auto_trader_claude.Demo.{demo_host, demo_gateway, venue, prompt, config, candidate, world}

abbrev entered : Outcome (EntryResult ℤ) × Paper ℤ
entered = entry_of "1-ab" prompt candidate (literal 2) venue

abbrev spot_answer : FillResult ℤ
spot_answer = record {
  symbol = "BTC/USDT";
  venue_leg = spot;
  side = buy;
  qty = literal 2;
  avg_price = decimal 10005 2;
  fee_quote = decimal 8004 5;
  accepted = true;
  error = none;
  client_order_id = "c1-ab|BTC/USDT|spot|buy";
}

abbrev perp_answer : FillResult ℤ
perp_answer = record {
  symbol = "BTC/USDT:USDT";
  venue_leg = futures;
  side = sell;
  qty = literal 2;
  avg_price = decimal 9995 2;
  fee_quote = decimal 7996 5;
  accepted = true;
  error = none;
  client_order_id = "c1-ab|BTC/USDT:USDT|futur";
}

abbrev placed : EntryResult ℤ
placed = record {
  outcome = success;
  spot_fill = some spot_answer;
  perp_fill = some perp_answer;
  rollback_fill = none;
  reason = "";
}

answered : (answers_of "1-ab" prompt candidate (literal 2) venue).0 ≡ ok (spot_answer, perp_answer)
unfolding place_both place_market_fok client_order_id ◌>>=◌
answered = refl

entered-ok : entered ≡ (ok placed, entered.1)
unfolding parallel_market_fok_entry place_market_fok client_order_id ◌>>=◌
entered-ok = refl

place_entry-Recorded_example :
    let out = place_entry paper "arb" "1-ab" prompt candidate (literal 2) world in
    (out.0 ≡ ok tt) × Recorded (left true true false) [] out.1.session.positions
place_entry-Recorded_example =
    place_entry-Recorded paper "arb" "1-ab" prompt candidate (literal 2) world spot_answer
      perp_answer placed entered.1 refl refl answered refl refl entered-ok

phase_c_entries-limit_example :
    let after = (phase_c_entries paper config "arb" "1-ab" prompt world).1.session.positions in
    AtMostOne [] after × ((exposure paper after ≡ 0) ⊎ (exposure paper after ≤ 1))
phase_c_entries-limit_example = phase_c_entries-limit paper config "arb" "1-ab" prompt world
