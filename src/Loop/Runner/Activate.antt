-- ===== src/Loop/Runner/Activate.antt =====
-- loop/runner.py: which venues the runner activates.
pub mod Twice
use auto_trader_claude.Base.{
  String, str_eq, strip, split, truthy, Bool, true, false, not, ◌&&◌, List, [], ◌∷◌, map, keep,
  contains, Dict, get_or, if◌then◌else◌,
}
use auto_trader_claude.Core.Settings.{EnvConfig}
use auto_trader_claude.State.Models.{VenueState}

unfoldable pub has_credentials : String → EnvConfig → Bool
has_credentials exchange_id env =
    if str_eq exchange_id "binance"
    then truthy env.binance_api_key && truthy env.binance_api_secret
    else if str_eq exchange_id "kucoin"
    then (truthy env.kucoin_api_key && truthy env.kucoin_api_secret) && truthy env.kucoin_passphrase
    else if str_eq exchange_id "hyperliquid"
    then truthy env.hyperliquid_wallet_address && truthy env.hyperliquid_private_key
    else false

-- the set of ids in ACTIVE_EXCHANGES, empty where it is not set
unfoldable pub legacy_set : Dict String → List String
legacy_set environ =
    let legacy = strip (get_or "ACTIVE_EXCHANGES" "" environ) in
    if truthy legacy then keep truthy (map strip (split 44 legacy)) else []

abbrev pub is_filled : List String → Bool
is_filled [] = false
is_filled (_ ∷ _) = true

-- `a != b`
abbrev differ : Bool → Bool → Bool
differ true b = not b
differ false b = b

-- `row.active` behind the override, which is written where it disagrees
abbrev pub override : Bool → Bool → Bool → Bool
override is_set wanted active = if is_set && differ wanted active then wanted else active

abbrev pub overridden : List String → VenueState → VenueState
overridden legacy row = record row {
  active = override (is_filled legacy) (contains row.exchange_id legacy) row.active;
}

abbrev pub is_startable : EnvConfig → VenueState → Bool
is_startable env row = row.active && has_credentials row.exchange_id env

-- the loop over the rows: the ids to activate, and the rows as it leaves them
unfoldable pub activate : List String → EnvConfig → List VenueState → List String × List VenueState
activate legacy env [] = ([], [])
activate legacy env (row ∷ rows) =
    let (out, rest) = activate legacy env rows in
    let row' = overridden legacy row in
    (if is_startable env row' then row'.exchange_id ∷ out else out, row' ∷ rest)
