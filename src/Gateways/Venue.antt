-- ===== src/Gateways/Venue.antt =====
-- gateways/base.py: the calls of `Gateway` that the loop makes, over the state `G` of a venue. Any
-- call may raise, and may change the venue's state.
use auto_trader_claude.Base.{ℕ, String, List, Action}
use auto_trader_claude.Core.Types.{VenueLeg, Side, FillResult}
use auto_trader_claude.Core.Types.Market.{BookSnapshot, FundingInfo, FeeInfo, WalletBalance}

-- `dict[VenueLeg, WalletBalance]`
pub record Balances (A : Type 0) : Type 0 where
  pub spot : WalletBalance A
  pub futures : WalletBalance A

-- One record of `list_capital_flow_records`.
pub record FlowRecord (A : Type 0) : Type 0 where
  pub ts : ℕ
  pub amount_usdt : A
  pub flow_type : String
  pub external_id : String
  pub note : String

pub record Gateway (A G : Type 0) : Type 0 where
  pub exchange_id : String
  pub lot_step : String → Action G A
  pub fetch_funding_rates : Action G (List (FundingInfo A))
  pub fetch_predicted_funding : String → Action G (FundingInfo A)
  pub snapshot_book : String → Action G (BookSnapshot A)
  pub fetch_fees : String → String → Action G (FeeInfo A)
  pub fetch_balance : String → Action G (Balances A)
  pub list_open_perp_positions : Action G (List (String × A))
  pub place_market_fok : String → VenueLeg → Side → A → String → Action G (FillResult A)
  pub list_capital_flow_records : Action G (List (FlowRecord A))
  pub expected_account_id : Action G String
  pub actual_account_id : Action G String
