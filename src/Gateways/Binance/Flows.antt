-- ===== src/Gateways/Binance/Flows.antt =====
-- gateways/binance.py: `list_capital_flow_records`, and the gateway as a whole.
use auto_trader_claude.Base.{List, [], Action, ◌>>=◌}
use auto_trader_claude.Number.{Number}
use auto_trader_claude.Gateways.Venue.{FlowRecord, Gateway}
use auto_trader_claude.Gateways.Ccxt.{Floats, Client}
use auto_trader_claude.Gateways.Binance.{
  Binance, ask, or_default, expected_account_id, actual_account_id, lot_step, fetch_funding_rates,
  fetch_predicted_funding, snapshot_book, fetch_balance, list_open_perp_positions,
}
use auto_trader_claude.Gateways.Binance.Fees.{fetch_fees}
use auto_trader_claude.Gateways.Binance.Orders.{place_market_fok}
use auto_trader_claude.Gateways.Binance.Transfers.{flow_rows}

module _ {A C : Type 0} ⦃n : Number A⦄ ⦃floats : Floats A⦄ ⦃client : Client A C⦄ where
  unfoldable pub list_capital_flow_records : Action (Binance A C) (List (FlowRecord A))
  unfolding ask
  list_capital_flow_records = do
    deps ← or_default [] (ask (client.fetch_deposits "USDT"))
    wdrs ← or_default [] (ask (client.fetch_withdrawals "USDT"))
    λ g. (flow_rows (client.from_ms g.client) (client.utcnow g.client) deps wdrs, g)

  abbrev pub binance_gateway : Gateway A (Binance A C)
  binance_gateway = record {
    exchange_id = "binance";
    lot_step = lot_step;
    fetch_funding_rates = fetch_funding_rates;
    fetch_predicted_funding = fetch_predicted_funding;
    snapshot_book = λ symbol. snapshot_book symbol 20;
    fetch_fees = fetch_fees;
    fetch_balance = fetch_balance;
    list_open_perp_positions = list_open_perp_positions;
    place_market_fok = place_market_fok;
    list_capital_flow_records = list_capital_flow_records;
    expected_account_id = expected_account_id;
    actual_account_id = actual_account_id;
  }
