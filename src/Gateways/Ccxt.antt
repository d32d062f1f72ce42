-- ===== src/Gateways/Ccxt.antt =====
-- gateways/_ccxt_helpers.py; and the calls of ccxt that the live venues make, as a parameter: a
-- client over a state `C`, any call of which may raise. A field of an answer that ccxt may leave
-- out is an option.
pub mod Dedup
use Prim.Native.Nat.{◌-◌}
use auto_trader_claude.Base.{
  ℕ, String, ◌<>◌, str_eq, lower, Bool, true, false, ◌&&◌, ◌||◌, List, [], ◌∷◌, map, Option, none,
  some, Dict, lookup, insert, ltb, if◌then◌else◌, Exn, Action, truthy, Outcome, ok, raised,
}
use auto_trader_claude.Base.Outcomes.{◌>>=◌}
use auto_trader_claude.Number.{Number, nought, literal, quotient, ◌+◌, lt, is_zero}
use auto_trader_claude.Core.Types.{VenueLeg, Side, FillResult}
use auto_trader_claude.Core.Types.Market.{BookLevel, BookSnapshot}

pub record OrderBook (A : Type 0) : Type 0 where
  pub book_asks : List (A × A)
  pub book_bids : List (A × A)
  pub timestamp : Option ℕ

pub record Order (A : Type 0) : Type 0 where
  pub status : Option String
  pub filled : Option A
  pub average : Option A
  pub fee_cost : Option A

-- A number under a key of a dict: no such key, a None, or the number.
pub data Field (A : Type 0) : Type 0 where
  missing null : Field A
  present : A → Field A

-- A value of a raw answer of the exchange.
pub data Value (A : Type 0) : Type 0 where
  absent : Value A
  number : A → Value A
  text : String → Value A

-- One asset of Binance's balance; `info` is a list of them, one of them, or something else.
pub record AssetInfo (A : Type 0) : Type 0 where
  pub asset : Option String
  pub cross_margin_free : Value A
  pub um_wallet_balance : Value A
  pub cm_wallet_balance : Value A

pub data BalanceInfo (A : Type 0) : Type 0 where
  assets : List (AssetInfo A) → BalanceInfo A
  one : AssetInfo A → BalanceInfo A
  other : BalanceInfo A

pub record RateInfo (A : Type 0) : Type 0 where
  pub funding_rate : Option A
  pub interval : Option String

pub record PerpPosition (A : Type 0) : Type 0 where
  pub perp_symbol : String
  pub contracts : Option A
  pub position_side : Option String

pub record Market (A : Type 0) : Type 0 where
  pub price_precision : Field A
  pub amount_precision : Field A
  pub min_cost : Field A

-- A deposit or a withdrawal; its time in milliseconds.
pub record Transfer (A : Type 0) : Type 0 where
  pub timestamp : Option ℕ
  pub amount : Value A
  pub id : Option String
  pub txid : Option String

pub record OrderRequest (A : Type 0) : Type 0 where
  pub symbol : String
  pub is_limit : Bool
  pub side : Side
  pub amount : A
  pub price : Option A
  pub client_order_id : String

-- `float(s)`, where it does not raise, and the ValueError where it does
pub record Floats (A : Type 0) : Type 0 where
  pub float_of : String → Option A
  pub malformed : String → Exn

pub record Client (A C : Type 0) : Type 0 where
  pub fetch_account : Action C (Option String × Option String)
  pub load_markets : Bool → Action C (Unit {0})
  pub markets : C → Dict (Market A)
  pub fetch_funding_rates : Action C (List (String × RateInfo A))
  pub fetch_funding_rate : String → Action C (RateInfo A)
  pub fetch_order_book : String → ℕ → Action C (OrderBook A)
  pub fetch_trading_fees : Action C (Dict (Field A))
  pub fetch_balance : Action C (BalanceInfo A)
  pub fetch_positions : Action C (List (PerpPosition A))
  pub create_order : OrderRequest A → Action C (Option (Order A))
  pub fetch_deposits : String → Action C (List (Transfer A))
  pub fetch_withdrawals : String → Action C (List (Transfer A))
  pub utcnow : C → ℕ
  -- `datetime.fromtimestamp(ms / 1000)`, which raises on a time out of range
  pub from_ms : C → ℕ → Outcome ℕ
  -- whether an exception is a `ccxt.InvalidOrder`, or a `ccxt.InsufficientFunds`
  pub is_invalid_order : Exn → Bool
  pub is_insufficient_funds : Exn → Bool

-- `x or ""`
abbrev pub text_or_empty : Option String → String
text_or_empty none = ""
text_or_empty (some s) = s

-- a time of ccxt, in microseconds; now, if it has none
abbrev pub taken_at : (ℕ → Outcome ℕ) → ℕ → Option ℕ → Outcome ℕ
taken_at from_ms now none = ok now
taken_at from_ms now (some ts) = from_ms ts

abbrev pub null_error : Exn
null_error = record {
  kind = "TypeError";
  message = "float() argument must be a string or a real number, not 'NoneType'";
}

-- `float(d.get(key, default))`
abbrev pub field_or : {A : Type 0} → A → Field A → Outcome A
field_or default missing = ok default
field_or default null = raised null_error
field_or default (present a) = ok a

abbrev pub text_amount :
    {A : Type 0} ⦃n : Number A⦄ ⦃floats : Floats A⦄ → String → Option A → Outcome A
text_amount s (some a) = ok a
text_amount ⦃floats = floats⦄ s none = if truthy s then raised (floats.malformed s) else ok nought

-- `float(x or 0.0)` of a value of a raw answer
abbrev pub amount_of : {A : Type 0} ⦃n : Number A⦄ ⦃floats : Floats A⦄ → Value A → Outcome A
amount_of absent = ok nought
amount_of (number a) = ok a
amount_of ⦃floats = floats⦄ (text s) = text_amount s (floats.float_of s)

module _ {A : Type 0} ⦃n : Number A⦄ where
  -- `float(x or 0.0)`
  abbrev pub or_nought : Option A → A
  or_nought none = nought
  or_nought (some a) = a

  abbrev pub levels : List (A × A) → List (BookLevel A)
  levels rows = map (λ ((p, a) : A × A). record { price = p; depth = a }) rows

  abbrev pub mid_of : List (BookLevel A) → List (BookLevel A) → A
  mid_of (a ∷ asks) (b ∷ bids) = quotient (a.price + b.price) (literal 2)
  mid_of _ _ = nought

  unfoldable pub book_from_ccxt :
      (ℕ → Outcome ℕ) → ℕ → OrderBook A → String → Outcome (BookSnapshot A)
  book_from_ccxt from_ms now orderbook symbol = do
    at ← taken_at from_ms now orderbook.timestamp
    ok (record {
      symbol = symbol;
      bids = levels orderbook.book_bids;
      asks = levels orderbook.book_asks;
      mid_price = mid_of (levels orderbook.book_asks) (levels orderbook.book_bids);
      taken_at = at;
    })

  abbrev pub refusal : String → VenueLeg → Side → String → String → FillResult A
  refusal symbol leg side error coid = record {
    symbol = symbol;
    venue_leg = leg;
    side = side;
    qty = nought;
    avg_price = nought;
    fee_quote = nought;
    accepted = false;
    error = some error;
    client_order_id = coid;
  }

  abbrev pub fill_of : Order A → String → VenueLeg → Side → String → FillResult A
  fill_of order symbol leg side coid = record {
    symbol = symbol;
    venue_leg = leg;
    side = side;
    qty = or_nought order.filled;
    avg_price = or_nought order.average;
    fee_quote = or_nought order.fee_cost;
    accepted = true;
    error = none;
    client_order_id = coid;
  }

  -- `status in {"closed", "filled"} and filled > 0.0`
  abbrev pub is_filled_order : Order A → Bool
  is_filled_order order =
      let status = lower (text_or_empty order.status) in
      (str_eq status "closed" || str_eq status "filled") && lt nought (or_nought order.filled)

  unfoldable pub order_to_fill_result :
      Option (Order A) → String → VenueLeg → Side → String → FillResult A
  order_to_fill_result none symbol leg side coid = refusal symbol leg side "empty_response" coid
  order_to_fill_result (some order) symbol leg side coid =
      if is_filled_order order
      then fill_of order symbol leg side coid
      else refusal symbol leg side ("fok_rejected:" <> lower (text_or_empty order.status)) coid

-- `ErrorDedup`: what it logged last, by key. Times are numbers of seconds.
pub record ErrorDedup : Type 0 where
  pub window : ℕ
  pub seen : Dict ℕ

abbrev pub is_recent : ErrorDedup → ℕ → Option ℕ → Bool
is_recent dedup now none = false
is_recent dedup now (some last) = ltb (now - last) dedup.window

unfoldable pub should_log : String → ℕ → ErrorDedup → Bool × ErrorDedup
should_log key now dedup =
    if is_recent dedup now (lookup key dedup.seen)
    then (false, dedup)
    else (true, record dedup { seen = insert key now dedup.seen })
