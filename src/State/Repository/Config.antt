-- ===== src/State/Repository/Config.antt =====
-- state/repository.py: the singletons, which are created with the columns' defaults when missing.
use auto_trader_claude.Base.{
  String, true, false, List, [], ◌∷◌, ◌++◌, Option, none, some, str_eq, if◌then◌else◌,
}
use auto_trader_claude.Number.{Number, literal, decimal, neg}
use auto_trader_claude.Core.Types.{Mode, same_mode}
use auto_trader_claude.State.Models.{
  StrategyConfig, StrategyConfigPerStrategy, ModeState, VenueState,
}
use auto_trader_claude.State.Session.{Session}

abbrev new_mode_state : Mode → ModeState
new_mode_state mode = record {
  mode = mode;
  entry_enabled = true;
  exit_enabled = true;
  maintenance_mode = false;
}

abbrev pub find_mode_state : Mode → List ModeState → Option ModeState
find_mode_state mode [] = none
find_mode_state mode (r ∷ rows) =
    if same_mode r.mode mode then some r else find_mode_state mode rows

abbrev pub find_venue_state : String → List VenueState → Option VenueState
find_venue_state x [] = none
find_venue_state x (r ∷ rows) = if str_eq r.exchange_id x then some r else find_venue_state x rows

module _ {A : Type 0} where
  unfoldable pub get_or_create_mode_state : Mode → Session A → ModeState × Session A
  get_or_create_mode_state mode s = elim (find_mode_state mode s.mode_states) [
    | some row ↦ (row, s)
    | none ↦
        let row = new_mode_state mode in
        (row, record s { mode_states = s.mode_states ++ (row ∷ []) })
  ]

  unfoldable pub get_venue_state : String → Session A → Option VenueState
  get_venue_state exchange_id s = find_venue_state exchange_id s.venue_states

  abbrev pub find_strategy :
      String → List (StrategyConfigPerStrategy A) → Option (StrategyConfigPerStrategy A)
  find_strategy t [] = none
  find_strategy t (r ∷ rows) = if str_eq r.trade_type t then some r else find_strategy t rows

module _ {A : Type 0} ⦃n : Number A⦄ where
  abbrev new_strategy_config : StrategyConfig A
  new_strategy_config = record {
    max_open_positions = 1;
    max_trades_per_day = 8;
    loop_seconds = 30;
    paper_starting_equity = literal 1000;
    paper_slippage_bps = literal 5;
    paper_fee_bps = literal 4;
    hedge_integrity_check = true;
    delisting_check = true;
    cycle_error_rate_threshold = decimal 10 2;
    slippage_alert_bps = literal 10;
  }

  abbrev new_per_strategy : String → StrategyConfigPerStrategy A
  new_per_strategy trade_type = record {
    trade_type = trade_type;
    entry_min_net_apy = decimal 20 2;
    exit_min_net_apy = decimal 5 2;
    exit_basis_buffer_multiple = literal 3;
    max_exit_basis_bps = literal 5;
    stop_loss_pct = neg (decimal 2 2);
    basis_dislocation_exit_bps = literal 50;
    min_position_pct = decimal 5 3;
    max_position_pct = decimal 10 2;
    sub_target_sizing_factor = decimal 75 2;
    perp_leverage = 1;
    max_perp_leverage = 1;
    auto_transfer_enabled = true;
    auto_quote_swap_enabled = true;
    futures_buffer_pct = decimal 20 2;
    depeg_guard_bps = literal 25;
  }

  unfoldable pub get_or_create_strategy_config : Session A → StrategyConfig A × Session A
  get_or_create_strategy_config s = elim s.strategy_config [
    | some cfg ↦ (cfg, s)
    | none ↦ (new_strategy_config, record s { strategy_config = some new_strategy_config })
  ]

  unfoldable pub get_or_seed_per_strategy_config :
      String → Session A → StrategyConfigPerStrategy A × Session A
  get_or_seed_per_strategy_config trade_type s = elim (find_strategy trade_type s.per_strategy) [
    | some row ↦ (row, s)
    | none ↦
        let row = new_per_strategy trade_type in
        (row, record s { per_strategy = s.per_strategy ++ (row ∷ []) })
  ]
