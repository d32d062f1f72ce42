-- ===== src/Demo/Exits.antt =====
-- The theorems on closing a position, on concrete inputs.
use auto_trader_claude.Base.{◌≡◌, refl, [], ◌∷◌, Outcome, ok, true, none, String}
use auto_trader_claude.Number.{decimal, literal, nought}
use auto_trader_claude.Number.Fixed.{ℤ, fixed_number}
use auto_trader_claude.Core.Types.{
  paper, spot, futures, Side, VenueLeg, buy, sell, opened, FillResult,
}
use auto_trader_claude.Core.Lifecycle.{is_currently_exposed}
use auto_trader_claude.State.Models.{Position}
use auto_trader_claude.State.Session.{find_position}
use auto_trader_claude.Gateways.Paper.{Paper}
use auto_trader_claude.Gateways.Paper.Orders.{place_market_fok, refused}
use auto_trader_claude.Loop.World.{World}
use auto_trader_claude.Loop.Idempotency.{client_order_id}
use auto_trader_claude.Loop.Cycle.Close.{close_position_market_fok}
use auto_trader_claude.Loop.Cycle.Closed.{
  IsStuck, IsClosed, spot_exit, perp_exit, close_position-IsStuck, close_position-IsClosed,
}
use auto_trader_claude.Loop.Cycle.Retried.{close_position_twice}
use auto_trader_claude.Loop.Cycle.Run.{start}
use auto_trader_claude.Demo.{demo_host, demo_gateway, venue, fresh}

abbrev pub pair : Position ℤ
pair = record {
  id = 1;
  mode = paper;
  exchange = "binance";
  trade_type = "arb";
  status = opened;
  symbol = "BTC";
  spot_symbol = "BTC/USDT";
  perp_symbol = "BTC/USDT:USDT";
  quote_currency = "USDT";
  spot_quote_currency = "USDT";
  quantity = literal 2;
  opened_at = 3;
  entry_funding_rate = decimal 5 3;
  last_funding_rate = decimal 5 3;
  spot_entry_price = literal 100;
  perp_entry_price = literal 100;
  funding_interval_hours = literal 8;
  funding_income_accrued = nought;
  last_funding_accrual_ts = 3;
  last_close_error = "";
  closed_at = none;
}

abbrev holding : World ℤ (Paper ℤ)
holding = start paper "1-ab" (record fresh { positions = pair ∷ [] }) venue

-- a venue without the perpetual's book
abbrev bare : World ℤ (Paper ℤ)
bare = start paper "1-ab" (record fresh { positions = pair ∷ [] }) (record venue { books = [] })

abbrev exit_fill : String → VenueLeg → Side → ℤ → ℤ → String → FillResult ℤ
exit_fill symbol leg side avg_price fee coid = record {
  symbol = symbol;
  venue_leg = leg;
  side = side;
  qty = literal 2;
  avg_price = avg_price;
  fee_quote = fee;
  accepted = true;
  error = none;
  client_order_id = coid;
}

abbrev spot_sold : FillResult ℤ
spot_sold =
    exit_fill "BTC/USDT" spot sell (decimal 9995 2) (decimal 7996 5) "cexit|BTC/USDT|spot|sell-x"

abbrev perp_bought : FillResult ℤ
perp_bought =
    exit_fill "BTC/USDT:USDT" futures buy (decimal 10005 2) (decimal 8004 5)
      "cexit|BTC/USDT:USDT|futur-x"

abbrev sold : Outcome (FillResult ℤ) × Paper ℤ
sold = spot_exit pair "exit" holding.venue

abbrev bought : Outcome (FillResult ℤ) × Paper ℤ
bought = perp_exit pair "exit" sold.1

sold-ok : sold ≡ (ok spot_sold, sold.1)
unfolding place_market_fok client_order_id
sold-ok = refl

bought-ok : bought ≡ (ok perp_bought, bought.1)
unfolding place_market_fok client_order_id
bought-ok = refl

close_position-IsClosed_example :
    let out = close_position_market_fok pair paper "exit" "stop_loss" holding in
    (out.0 ≡ ok tt) × IsClosed 1 spot_sold perp_bought holding.session out.1.session
unfolding is_currently_exposed find_position
close_position-IsClosed_example =
    close_position-IsClosed pair paper "exit" "stop_loss" holding spot_sold perp_bought sold.1
      bought.1 pair sold-ok bought-ok refl refl refl

abbrev unsold : FillResult ℤ
unsold = refused "BTC/USDT" spot sell "no_book" "cexit|BTC/USDT|spot|sell-x"

abbrev unbought : FillResult ℤ
unbought = refused "BTC/USDT:USDT" futures buy "no_book" "cexit|BTC/USDT:USDT|futur-x"

abbrev tried : Outcome (FillResult ℤ) × Paper ℤ
tried = spot_exit pair "exit" bare.venue

abbrev tried_both : Outcome (FillResult ℤ) × Paper ℤ
tried_both = perp_exit pair "exit" tried.1

tried-ok : tried ≡ (ok unsold, tried.1)
unfolding place_market_fok client_order_id
tried-ok = refl

tried_both-ok : tried_both ≡ (ok unbought, tried_both.1)
unfolding place_market_fok client_order_id
tried_both-ok = refl

close_position-IsStuck_example :
    let out = close_position_market_fok pair paper "exit" "stop_loss" bare in
    (out.0 ≡ ok tt) × IsStuck bare.session out.1.session
close_position-IsStuck_example =
    close_position-IsStuck pair paper "exit" "stop_loss" bare unsold unbought tried.1 tried_both.1
      tried-ok tried_both-ok refl

close_position_twice_example :
    let first = (close_position_market_fok pair paper "exit" "stop_loss" holding).1 in
    let second =
      close_position_market_fok pair paper "exit" "forward_profit"
        (record first { session = holding.session }) in
    (second.0 ≡ ok tt) × IsStuck holding.session second.1.session
close_position_twice_example =
    close_position_twice "binance" pair paper "exit" "stop_loss" "forward_profit" holding
      holding.session
