-- ===== src/Gateways/Binance.antt =====
-- gateways/binance.py: `BinanceGateway`, over a ccxt client. What it logs, and the `ErrorDedup` that
-- thins its log out, are left out.
pub mod Orders
pub mod Converted
pub mod Fees
pub mod Flows
pub mod Transfers
pub mod Answered
pub mod Listed
pub mod Reads
use Prim.Native.Char.{code}
use auto_trader_claude.Base.{
  ℕ, String, ◌<>◌, str_eq, truthy, upper, extends, Bool, true, false, not, ◌&&◌, ◌||◌, ◌==◌, List,
  [], ◌∷◌, ◌++◌, map, Option, none, some, Dict, lookup, if◌then◌else◌, Outcome, ok, raised, Exn,
  Action, pure, run_outcome, ◌>>=◌, ◌>>◌,
}
use auto_trader_claude.Number.{
  Number, nought, literal, decimal, quotient, neg, abs, lt, le, is_zero, ◌+◌, ◌-◌, ◌*◌,
}
use auto_trader_claude.Core.Types.{VenueLeg, spot, futures, Side, buy, sell, FillResult}
use auto_trader_claude.Core.Types.Market.{
  BookLevel, BookSnapshot, FundingInfo, FeeInfo, WalletBalance,
}
use auto_trader_claude.Gateways.Venue.{Balances, FlowRecord}
use auto_trader_claude.Gateways.Ccxt.{
  Value, absent, number, text, AssetInfo, BalanceInfo, assets, one, other, RateInfo, PerpPosition,
  Market, OrderRequest, Order, Floats, Client, text_or_empty, or_nought, taken_at, book_from_ccxt,
  refusal, Field, missing, null, present, field_or,
}

pub record Binance (A C : Type 0) : Type 0 where
  pub client : C
  pub account_id : String
  pub padding_bps : A
  pub markets_loaded : Bool

unfoldable pub is_real_spot_asset : String → Bool
is_real_spot_asset symbol = not (extends "LD" (upper symbol) || extends "BFR" (upper symbol))

-- `interval[:-1]`, where `interval.endswith("h")`
abbrev without_h : String → Option String
without_h String.[] = none
without_h (String.◌∷◌ c s) = elim (without_h s) [
  | some t ↦ some (String.◌∷◌ c t)
  | none ↦ if (code c == 104) && not (truthy s) then some String.[] else none
]

module _ {A C : Type 0} where
  -- a call of the client
  unfoldable pub ask : {X : Type 0} → Action C X → Action (Binance A C) X
  ask m g = let (r, c) = m g.client in (r, record g { client = c })

  -- `try: ...` with `except Exception: return default`
  abbrev pub or_default : {X : Type 0} → X → Action (Binance A C) X → Action (Binance A C) X
  or_default default m g = elim (m g).0 [
    | ok x ↦ (ok x, (m g).1)
    | raised e ↦ (ok default, (m g).1)
  ]

abbrev pub first_text : Option String → Option String → String
first_text (some a) b = if truthy a then a else text_or_empty b
first_text none b = text_or_empty b

module _ {A C : Type 0} ⦃client : Client A C⦄ where
  unfoldable pub expected_account_id : Action (Binance A C) String
  expected_account_id g = (ok g.account_id, g)

  unfoldable pub actual_account_id : Action (Binance A C) String
  unfolding ask
  actual_account_id =
      or_default ""
        (do (uid, account_alias) ← ask client.fetch_account; pure (first_text uid account_alias))

  unfoldable pub load_markets : Bool → Action (Binance A C) (Unit {0})
  unfolding ask
  load_markets force g =
      if force || not g.markets_loaded
      then (do ask (client.load_markets force); λ h. (ok tt, record h { markets_loaded = true })) g
      else (ok tt, g)

  -- the market, or {} where the client has none under the symbol
  abbrev pub market : String → Action (Binance A C) (Option (Market A))
  market symbol = do load_markets false; λ g. (ok (lookup symbol (client.markets g.client)), g)

module _ {A : Type 0} where
  -- a field of a market, which has none of them where it is {}
  abbrev market_field : (Market A → Field A) → Option (Market A) → Field A
  market_field field none = missing
  market_field field (some m) = field m

  abbrev asset_or_empty : Option (AssetInfo A) → AssetInfo A
  asset_or_empty (some info) = info
  asset_or_empty none = record {
    asset = none;
    cross_margin_free = absent;
    um_wallet_balance = absent;
    cm_wallet_balance = absent;
  }

  abbrev find_asset : String → List (AssetInfo A) → Option (AssetInfo A)
  find_asset a [] = none
  find_asset a (info ∷ rest) = elim info.asset [
    | some x ↦ if str_eq x a then some info else find_asset a rest
    | none ↦ find_asset a rest
  ]

  abbrev asset_info : String → BalanceInfo A → AssetInfo A
  asset_info a (assets infos) = asset_or_empty (find_asset a infos)
  asset_info a (one info) = info
  asset_info a other = asset_or_empty none

module _ {A : Type 0} ⦃n : Number A⦄ where
  -- `float(d.get("min", 5.0) or 5.0)`
  abbrev or_least : Field A → A
  or_least (present a) = if is_zero a then literal 5 else a
  or_least _ = literal 5

  abbrev pub no_balances : Balances A
  no_balances = record {
    spot = record { free = nought; total = nought };
    futures = record { free = nought; total = nought };
  }

  abbrev signed : Option String → A → A
  signed (some s) a = if str_eq s "long" then a * literal 1 else a * neg (literal 1)
  signed none a = a * neg (literal 1)

  abbrev open_positions : List (PerpPosition A) → List (String × A)
  open_positions [] = []
  open_positions (p ∷ ps) =
      let rest = open_positions ps in
      let contracts = or_nought p.contracts in
      if is_zero contracts then rest else (p.perp_symbol, signed p.position_side contracts) ∷ rest

module _ {A : Type 0} ⦃n : Number A⦄ ⦃floats : Floats A⦄ where
  abbrev hours_or : Option String → A
  hours_or none = literal 8
  hours_or (some digits) = elim (floats.float_of digits) [ none ↦ literal 8 | some a ↦ a ]

  -- `float(interval[:-1])`, or 8.0
  abbrev pub interval_hours : Option String → A
  interval_hours none = hours_or (without_h "8h")
  interval_hours (some interval) = hours_or (without_h interval)

  abbrev funding_infos : ℕ → List (String × RateInfo A) → List (FundingInfo A)
  funding_infos now [] = []
  funding_infos now ((sym, info) ∷ raw) =
      let out = funding_infos now raw in
      elim info.funding_rate [
        | none ↦ out
        | some rate ↦
            record {
              symbol = sym;
              predicted_rate = rate;
              interval_hours = interval_hours info.interval;
              next_funding_ts = now;
            }
            ∷ out
      ]

  -- `_parse_float`
  unfoldable pub parse_float : Value A → A
  parse_float absent = nought
  parse_float (number a) = a
  parse_float (text s) = elim (floats.float_of s) [ none ↦ nought | some a ↦ a ]

  abbrev pub pooled_balances : String → AssetInfo A → Balances A
  pooled_balances asset info =
      let spot_free =
        parse_float info.cross_margin_free
        + parse_float info.um_wallet_balance
        + parse_float info.cm_wallet_balance in
      if is_real_spot_asset asset
      then record {
        spot = record { free = spot_free; total = spot_free };
        futures = record { free = spot_free; total = nought };
      }
      else no_balances

module _ {A C : Type 0} ⦃n : Number A⦄ ⦃client : Client A C⦄ where
  unfoldable pub tick_size : String → Action (Binance A C) A
  unfolding load_markets
  tick_size symbol = do
    m ← market symbol
    run_outcome (field_or (decimal 1 2) (market_field (λ (m : Market A). m.price_precision) m))

  unfoldable pub lot_step : String → Action (Binance A C) A
  unfolding load_markets
  lot_step symbol = do
    m ← market symbol
    run_outcome (field_or (decimal 1 3) (market_field (λ (m : Market A). m.amount_precision) m))

  unfoldable pub min_notional : String → Action (Binance A C) A
  unfolding load_markets
  min_notional symbol = do
    m ← market symbol
    pure (or_least (market_field (λ (m : Market A). m.min_cost) m))

  unfoldable pub snapshot_book : String → ℕ → Action (Binance A C) (BookSnapshot A)
  unfolding ask book_from_ccxt
  snapshot_book symbol depth = do
    ob ← ask (client.fetch_order_book symbol depth)
    λ g. (book_from_ccxt (client.from_ms g.client) (client.utcnow g.client) ob symbol, g)

  unfoldable pub list_open_perp_positions : Action (Binance A C) (List (String × A))
  unfolding ask
  list_open_perp_positions =
      or_default [] (do positions ← ask client.fetch_positions; pure (open_positions positions))

module _ {A C : Type 0} ⦃n : Number A⦄ ⦃floats : Floats A⦄ ⦃client : Client A C⦄ where
  unfoldable pub fetch_funding_rates : Action (Binance A C) (List (FundingInfo A))
  unfolding ask
  fetch_funding_rates = or_default [] (do
    raw ← ask client.fetch_funding_rates
    λ g. (ok (funding_infos (client.utcnow g.client) raw), g))

  unfoldable pub fetch_predicted_funding : String → Action (Binance A C) (FundingInfo A)
  unfolding ask
  fetch_predicted_funding perp_symbol = do
    info ← ask (client.fetch_funding_rate perp_symbol)
    λ g. (
      ok (record {
        symbol = perp_symbol;
        predicted_rate = or_nought info.funding_rate;
        interval_hours = interval_hours info.interval;
        next_funding_ts = client.utcnow g.client;
      }),
      g,
    )

  unfoldable pub fetch_balance : String → Action (Binance A C) (Balances A)
  unfolding ask
  fetch_balance asset =
      or_default no_balances
        (do raw ← ask client.fetch_balance; pure (pooled_balances asset (asset_info asset raw)))
