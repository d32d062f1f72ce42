-- ===== src/State/Models.antt =====
-- state/models.py: one record for each table that the loop and the diagnostics use. A status, mode,
-- leg or side column holds only the texts of its enumeration, so it is one here. `updated_at`
-- columns, which nothing reads, and the deprecated columns of the configuration are left out.
use auto_trader_claude.Base.{ℕ, String, Bool, Option}
use auto_trader_claude.Core.Types.{Mode, VenueLeg, Side, PositionStatus}

pub record StrategyConfig (A : Type 0) : Type 0 where
  pub max_open_positions : ℕ
  pub max_trades_per_day : ℕ
  pub loop_seconds : ℕ
  pub paper_starting_equity : A
  pub paper_slippage_bps : A
  pub paper_fee_bps : A
  pub hedge_integrity_check : Bool
  pub delisting_check : Bool
  pub cycle_error_rate_threshold : A
  pub slippage_alert_bps : A

pub record StrategyConfigPerStrategy (A : Type 0) : Type 0 where
  pub trade_type : String
  pub entry_min_net_apy : A
  pub exit_min_net_apy : A
  pub exit_basis_buffer_multiple : A
  pub max_exit_basis_bps : A
  pub stop_loss_pct : A
  pub basis_dislocation_exit_bps : A
  pub min_position_pct : A
  pub max_position_pct : A
  pub sub_target_sizing_factor : A
  pub perp_leverage : ℕ
  pub max_perp_leverage : ℕ
  pub auto_transfer_enabled : Bool
  pub auto_quote_swap_enabled : Bool
  pub futures_buffer_pct : A
  pub depeg_guard_bps : A

pub record ModeState : Type 0 where
  pub mode : Mode
  pub entry_enabled : Bool
  pub exit_enabled : Bool
  pub maintenance_mode : Bool

pub record VenueState : Type 0 where
  pub exchange_id : String
  pub active : Bool
  pub expected_account_id : String
  pub notes : String

pub record Position (A : Type 0) : Type 0 where
  pub id : ℕ
  pub mode : Mode
  pub exchange : String
  pub trade_type : String
  pub status : PositionStatus
  pub symbol : String
  pub spot_symbol : String
  pub perp_symbol : String
  pub quote_currency : String
  pub spot_quote_currency : String
  pub quantity : A
  pub opened_at : ℕ
  pub entry_funding_rate : A
  pub last_funding_rate : A
  pub spot_entry_price : A
  pub perp_entry_price : A
  pub funding_interval_hours : A
  pub funding_income_accrued : A
  pub last_funding_accrual_ts : ℕ
  pub last_close_error : String
  pub closed_at : Option ℕ

pub record Trade (A : Type 0) : Type 0 where
  pub id : ℕ
  pub mode : Mode
  pub exchange : String
  pub trade_type : String
  pub position_id : ℕ
  pub symbol : String
  pub venue : VenueLeg
  pub side : Side
  pub quantity : A
  pub price : A
  pub fee : A
  pub ts : ℕ

pub data Level : Type 0 where
  info warn error : Level

pub record BotEvent : Type 0 where
  pub id : ℕ
  pub mode : Mode
  pub exchange : String
  pub level : Level
  pub message : String
  pub ts : ℕ
  pub requires_action : Bool

pub record RejectedCandidate (A : Type 0) : Type 0 where
  pub id : ℕ
  pub mode : Mode
  pub exchange : String
  pub symbol : String
  pub reason : String
  pub funding_rate : A
  pub ts : ℕ

pub record BalanceSnapshot (A : Type 0) : Type 0 where
  pub id : ℕ
  pub mode : Mode
  pub exchange : String
  pub ts : ℕ
  pub spot_free_usdt : A
  pub futures_free_usdt : A
  pub total_equity_usdt : A
  pub source : Mode
  pub spot_usdt : A
  pub futures_usdt : A
  pub total_usdt : A

pub record CapitalFlow (A : Type 0) : Type 0 where
  pub id : ℕ
  pub mode : Mode
  pub exchange : String
  pub ts : ℕ
  pub amount_usdt : A
  pub flow_type : String
  pub note : String
  pub detected_by : String
  pub external_id : String
  pub kind : String
