-- ===== src/Gateways/Binance/Fees.antt =====
-- gateways/binance.py: `fetch_fees`.
use auto_trader_claude.Base.{
  String, Option, none, some, Dict, lookup, Outcome, ok, raised, Action, pure, run_outcome, ◌>>=◌,
}
use auto_trader_claude.Number.{Number, literal, decimal, ◌*◌}
use auto_trader_claude.Core.Types.Market.{FeeInfo}
use auto_trader_claude.Gateways.Ccxt.{Field, Client, field_or}
use auto_trader_claude.Gateways.Binance.{Binance, ask, or_default}

module _ {A : Type 0} where
  -- `float(fees.get(symbol, {}).get("taker", default))`
  abbrev taker_or : A → Option (Field A) → Outcome A
  taker_or default none = ok default
  taker_or default (some taker) = field_or default taker

module _ {A : Type 0} ⦃n : Number A⦄ where
  abbrev default_fees : FeeInfo A
  default_fees = record { spot_fee_bps = literal 6; perp_fee_bps = literal 6 }

  abbrev in_bps : Outcome A → Outcome A → Outcome (FeeInfo A)
  in_bps (ok spot_taker) (ok perp_taker) = ok (record {
    spot_fee_bps = spot_taker * literal 10000;
    perp_fee_bps = perp_taker * literal 10000;
  })
  in_bps (raised e) _ = raised e
  in_bps (ok _) (raised e) = raised e

  -- the end of `fetch_fees`, behind the call; `none` where that raised
  abbrev fees_of : String → String → Option (Dict (Field A)) → Outcome (FeeInfo A)
  fees_of spot_symbol perp_symbol none = ok default_fees
  fees_of spot_symbol perp_symbol (some fees) =
      in_bps (taker_or (decimal 6 4) (lookup spot_symbol fees))
        (taker_or (decimal 6 4) (lookup perp_symbol fees))

module _ {A C : Type 0} ⦃n : Number A⦄ ⦃client : Client A C⦄ where
  unfoldable pub fetch_fees : String → String → Action (Binance A C) (FeeInfo A)
  unfolding ask
  fetch_fees spot_symbol perp_symbol = do
    answer ← or_default none (do fees ← ask client.fetch_trading_fees; pure (some fees))
    run_outcome (fees_of spot_symbol perp_symbol answer)
