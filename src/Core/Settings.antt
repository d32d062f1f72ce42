-- ===== src/Core/Settings.antt =====
-- core/config.py: the settings read from the environment, and the registry of gateways.
use auto_trader_claude.Base.{
  String, str_eq, truthy, Bool, List, [], map, Option, none, some, Dict, lookup, get_or,
  if◌then◌else◌,
}
use auto_trader_claude.Core.Types.{Mode}
use auto_trader_claude.Core.Keyed.{Keyed, find_key, put_key}

pub record EnvConfig : Type 0 where
  pub binance_api_key : String
  pub binance_api_secret : String
  pub kucoin_api_key : String
  pub kucoin_api_secret : String
  pub kucoin_passphrase : String
  pub hyperliquid_wallet_address : String
  pub hyperliquid_private_key : String
  pub binance_expected_account_id : String
  pub kucoin_expected_account_id : String
  pub hyperliquid_expected_account_id : String
  pub dashboard_user : String
  pub dashboard_password : String
  pub diagnostics_token : String
  pub paper_mode_only : Bool

-- `a or b`, where `a` may be None
abbrev either_text : Option String → String → String
either_text none b = b
either_text (some a) b = if truthy a then a else b

unfoldable pub load_env : Dict String → EnvConfig
load_env environ = record {
  binance_api_key = get_or "BINANCE_API_KEY" "" environ;
  binance_api_secret = get_or "BINANCE_API_SECRET" "" environ;
  kucoin_api_key = get_or "KUCOIN_API_KEY" "" environ;
  kucoin_api_secret = get_or "KUCOIN_API_SECRET" "" environ;
  kucoin_passphrase =
      either_text (lookup "KUCOIN_API_PASSPHRASE" environ) (get_or "KUCOIN_PASSPHRASE" "" environ);
  hyperliquid_wallet_address = get_or "HYPERLIQUID_WALLET_ADDRESS" "" environ;
  hyperliquid_private_key = get_or "HYPERLIQUID_PRIVATE_KEY" "" environ;
  binance_expected_account_id = get_or "BINANCE_EXPECTED_ACCOUNT_ID" "" environ;
  kucoin_expected_account_id = get_or "KUCOIN_EXPECTED_ACCOUNT_ID" "" environ;
  hyperliquid_expected_account_id = get_or "HYPERLIQUID_EXPECTED_ACCOUNT_ID" "" environ;
  dashboard_user = get_or "DASHBOARD_USER" "admin" environ;
  dashboard_password = get_or "DASHBOARD_PASSWORD" "" environ;
  diagnostics_token = get_or "DIAGNOSTICS_TOKEN" "" environ;
  paper_mode_only = str_eq (get_or "PAPER_MODE_ONLY" "" environ) "1";
}

module _ {V : Type 0} where
  unfoldable pub register_gateway : Mode → String → V → Keyed V → Keyed V
  register_gateway mode exchange_id gateway registry = put_key (mode, exchange_id) gateway registry

  unfoldable pub get_gateway : Mode → String → Keyed V → Option V
  get_gateway mode exchange_id registry = find_key (mode, exchange_id) registry

  unfoldable pub list_gateways : Keyed V → List (Mode × (String × V))
  list_gateways registry = map (λ e. (e.0.0, (e.0.1, e.1))) registry

  unfoldable pub clear_registry : Keyed V → Keyed V
  clear_registry registry = []
