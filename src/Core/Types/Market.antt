-- ===== src/Core/Types/Market.antt =====
-- core/types.py: books, funding, fees, balances, candidates and the records of the gate. A point in
-- time is a number of microseconds.
use auto_trader_claude.Base.{ℕ, String, List, Option}

pub record BookLevel (A : Type 0) : Type 0 where
  pub price : A
  pub depth : A

pub record BookSnapshot (A : Type 0) : Type 0 where
  pub symbol : String
  pub bids : List (BookLevel A)
  pub asks : List (BookLevel A)
  pub mid_price : A
  pub taken_at : ℕ

pub record FundingInfo (A : Type 0) : Type 0 where
  pub symbol : String
  pub predicted_rate : A
  pub interval_hours : A
  pub next_funding_ts : ℕ

pub record FeeInfo (A : Type 0) : Type 0 where
  pub spot_fee_bps : A
  pub perp_fee_bps : A

pub record WalletBalance (A : Type 0) : Type 0 where
  pub free : A
  pub total : A

pub record ScanCandidate (A : Type 0) : Type 0 where
  pub symbol : String
  pub spot_symbol : String
  pub perp_symbol : String
  pub base_asset : String
  pub quote_currency : String
  pub spot_quote_currency : String
  pub predicted_funding_rate : A
  pub funding_interval_hours : A
  pub approx_net_apy : A

pub record SizingResult (A : Type 0) : Type 0 where
  pub target_qty : A
  pub forecast_spot_avg_price : A
  pub forecast_perp_avg_price : A
  pub spot_binding_qty : A
  pub perp_binding_qty : A
  pub rejection_reason : Option String

pub record GateInputs (A : Type 0) : Type 0 where
  pub funding_rate : A
  pub funding_interval_hours : A
  pub entry_basis_bps : A
  pub spot_fee_bps : A
  pub perp_fee_bps : A
  pub swap_basis_bps : A
  pub exit_basis_buffer_multiple : A

pub record GateResult (A : Type 0) : Type 0 where
  pub net_apy : A
  pub net_per_window_bps : A
  pub fees_rt_bps : A
  pub basis_rt_signed_bps : A
  pub funding_per_window_bps : A
