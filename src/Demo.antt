-- ===== src/Demo.antt =====
-- Fixtures: a venue with two books, a configuration, a candidate and the world before a cycle.
pub mod Entries
pub mod Examples
pub mod Exits
pub mod Outage
pub mod Runner
pub mod Startup
pub mod Live
use auto_trader_claude.Base.{String, ◌<>◌, [], ◌∷◌, none, true, false, ℕ, Exn}
use auto_trader_claude.Number.{decimal, literal, neg}
use auto_trader_claude.Number.Fixed.{ℤ, pos, fixed_number}
use auto_trader_claude.Core.Types.Market.{BookSnapshot, FundingInfo, WalletBalance, ScanCandidate}
use auto_trader_claude.Core.Types.Config.{MergedConfig, default_config}
use auto_trader_claude.State.Session.{Session}
use auto_trader_claude.Gateways.Venue.{Gateway}
use auto_trader_claude.Gateways.Paper.{Paper}
use auto_trader_claude.Gateways.Paper.Orders.{paper_gateway}
use auto_trader_claude.Loop.World.{Host, World}
use auto_trader_claude.Loop.Executor.{LegTiming}
use auto_trader_claude.Loop.Cycle.Run.{start}
use auto_trader_claude.Core.Types.{paper}

instance abbrev pub demo_host : Host
demo_host = record {
  sha256_hex = λ s. s;
  str_ℕ = λ _. "1";
  repr = λ e. e.kind <> "(" <> e.message <> ")";
  quote = λ s. "'" <> s <> "'";
}

instance abbrev pub demo_gateway : Gateway ℤ (Paper ℤ)
demo_gateway = paper_gateway "binance"

abbrev pub book : String → ℕ → BookSnapshot ℤ
book symbol mid = record {
  symbol = symbol;
  bids = record { price = literal mid; depth = literal 20 } ∷ [];
  asks = record { price = literal mid; depth = literal 20 } ∷ [];
  mid_price = literal mid;
  taken_at = 0;
}

abbrev pub rich_funding : FundingInfo ℤ
rich_funding = record {
  symbol = "BTC/USDT:USDT";
  predicted_rate = decimal 5 3;
  interval_hours = literal 8;
  next_funding_ts = 0;
}

abbrev pub wallet : WalletBalance ℤ
wallet = record { free = literal 1000; total = literal 1000 }

abbrev pub venue : Paper ℤ
venue = record {
  slippage_bps = literal 5;
  fee_bps = literal 4;
  account_id = "paper-account";
  track_wallet_drawdown = true;
  books = ("BTC/USDT", book "BTC/USDT" 100) ∷ ("BTC/USDT:USDT", book "BTC/USDT:USDT" 100) ∷ [];
  funding = ("BTC/USDT:USDT", rich_funding) ∷ [];
  fees = [];
  spot_balances = ("USDT", wallet) ∷ [];
  futures_balances = ("USDT", wallet) ∷ [];
  lots = [];
  open_perps = [];
  seen_client_order_ids = [];
  capital_flow_records = [];
}

abbrev pub fresh : Session ℤ
fresh = record {
  now = 7;
  strategy_config = none;
  per_strategy = [];
  mode_states = [];
  venue_states = [];
  positions = [];
  trades = [];
  bot_events = [];
  rejected_candidates = [];
  balance_snapshots = [];
  capital_flows = [];
}

abbrev pub prompt : LegTiming
prompt = record { perp_first = false; spot_late = false; perp_late = false }

abbrev pub config : MergedConfig ℤ
config = default_config

abbrev pub candidate : ScanCandidate ℤ
candidate = record {
  symbol = "BTC/USDT:USDT";
  spot_symbol = "BTC/USDT";
  perp_symbol = "BTC/USDT:USDT";
  base_asset = "BTC";
  quote_currency = "USDT";
  spot_quote_currency = "USDT";
  predicted_funding_rate = decimal 5 3;
  funding_interval_hours = literal 8;
  approx_net_apy = literal 1;
}

abbrev pub world : World ℤ (Paper ℤ)
world = start paper "1-ab" fresh venue
