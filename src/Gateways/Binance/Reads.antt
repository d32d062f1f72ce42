-- ===== src/Gateways/Binance/Reads.antt =====
-- gateways/binance.py: `list_capital_flow_records` as a whole.
use auto_trader_claude.Number.{Number}
use auto_trader_claude.Gateways.Binance.{Binance}
