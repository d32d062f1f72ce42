-- ===== src/Core/Types/Config.antt =====
-- core/types.py: `MergedConfig`. Integer fields are naturals; the schema admits no negative ones.
use auto_trader_claude.Base.{ℕ, Bool, true}
use auto_trader_claude.Number.{Number, literal, decimal, neg}

pub record MergedConfig (A : Type 0) : Type 0 where
  pub entry_min_net_apy : A
  pub exit_min_net_apy : A
  pub exit_basis_buffer_multiple : A
  pub max_exit_basis_bps : A
  pub stop_loss_pct : A
  pub basis_dislocation_exit_bps : A
  pub min_position_pct : A
  pub max_position_pct : A
  pub sub_target_sizing_factor : A
  pub perp_leverage : ℕ
  pub max_perp_leverage : ℕ
  pub auto_transfer_enabled : Bool
  pub auto_quote_swap_enabled : Bool
  pub futures_buffer_pct : A
  pub depeg_guard_bps : A
  pub max_open_positions : ℕ
  pub max_trades_per_day : ℕ
  pub loop_seconds : ℕ
  pub paper_starting_equity : A
  pub paper_slippage_bps : A
  pub paper_fee_bps : A
  pub hedge_integrity_check : Bool
  pub delisting_check : Bool
  pub cycle_error_rate_threshold : A
  pub slippage_alert_bps : A

-- the defaults of the class
abbrev pub default_config : {A : Type 0} ⦃n : Number A⦄ → MergedConfig A
default_config = record {
  entry_min_net_apy = decimal 20 2;
  exit_min_net_apy = decimal 5 2;
  exit_basis_buffer_multiple = literal 3;
  max_exit_basis_bps = literal 5;
  stop_loss_pct = neg (decimal 2 2);
  basis_dislocation_exit_bps = literal 50;
  min_position_pct = decimal 5 3;
  max_position_pct = decimal 10 2;
  sub_target_sizing_factor = decimal 75 2;
  perp_leverage = 1;
  max_perp_leverage = 1;
  auto_transfer_enabled = true;
  auto_quote_swap_enabled = true;
  futures_buffer_pct = decimal 20 2;
  depeg_guard_bps = literal 25;
  max_open_positions = 1;
  max_trades_per_day = 8;
  loop_seconds = 30;
  paper_starting_equity = literal 1000;
  paper_slippage_bps = literal 5;
  paper_fee_bps = literal 4;
  hedge_integrity_check = true;
  delisting_check = true;
  cycle_error_rate_threshold = decimal 10 2;
  slippage_alert_bps = literal 10;
}
