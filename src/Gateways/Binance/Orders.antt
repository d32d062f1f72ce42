-- ===== src/Gateways/Binance/Orders.antt =====
-- gateways/binance.py: `place_market_fok`.
use auto_trader_claude.Base.{
  String, ◌<>◌, true, false, List, ◌∷◌, none, some, if◌then◌else◌, Outcome, ok, raised, Exn, Action,
  pure, ◌>>=◌,
}
use auto_trader_claude.Number.{Number, literal, quotient, ◌+◌, ◌-◌, ◌*◌}
use auto_trader_claude.Core.Types.{VenueLeg, spot, futures, Side, buy, sell, FillResult}
use auto_trader_claude.Core.Types.Market.{BookLevel}
use auto_trader_claude.Gateways.Ccxt.{OrderRequest, Client, order_to_fill_result, refusal}
use auto_trader_claude.Gateways.Binance.{Binance, ask, snapshot_book}

module _ {A : Type 0} ⦃n : Number A⦄ where
  -- the price beyond the top of the book, padded to the adverse side
  abbrev pub limit_price : A → Side → A → A → A
  limit_price padding_bps buy ask_price bid_price =
      ask_price * (literal 1 + quotient padding_bps (literal 10000))
  limit_price padding_bps sell ask_price bid_price =
      bid_price * (literal 1 - quotient padding_bps (literal 10000))

  abbrev pub market_order : String → Side → A → String → OrderRequest A
  market_order symbol side qty coid = record {
    symbol = symbol;
    is_limit = false;
    side = side;
    amount = qty;
    price = none;
    client_order_id = coid;
  }

-- the `except` clauses
abbrev pub order_error : {A C : Type 0} → Client A C → Exn → String
order_error client e =
    if client.is_invalid_order e
    then "invalid_order:" <> e.message
    else if client.is_insufficient_funds e
    then "insufficient_funds:" <> e.message
    else "exception:" <> e.kind <> ":" <> e.message

module _ {A C : Type 0} ⦃n : Number A⦄ ⦃client : Client A C⦄ (symbol : String) (side : Side)
    (qty : A) (coid : String) where
  abbrev pub send : VenueLeg → OrderRequest A → Action (Binance A C) (FillResult A)
  send leg request = do
    order ← ask (client.create_order request)
    pure (order_to_fill_result order symbol leg side coid)

  abbrev pub spot_order :
      List (BookLevel A) → List (BookLevel A) → Action (Binance A C) (FillResult A)
  spot_order (a ∷ asks) (b ∷ bids) g =
      send spot
        (record (market_order symbol side qty coid) {
          is_limit = true;
          price = some (limit_price g.padding_bps side a.price b.price);
        })
        g
  spot_order _ _ g = (ok (refusal symbol spot side "empty_book" coid), g)

  -- the body of the `try`
  unfoldable pub submit : VenueLeg → Action (Binance A C) (FillResult A)
  unfolding ask order_to_fill_result
  submit futures = send futures (market_order symbol side qty coid)
  submit spot = do ob ← snapshot_book symbol 5; spot_order ob.asks ob.bids

  -- behind the `try`
  abbrev pub answered :
      VenueLeg → Outcome (FillResult A) × Binance A C → Outcome (FillResult A) × Binance A C
  answered leg (ok fill, g) = (ok fill, g)
  answered leg (raised e, g) = (ok (refusal symbol leg side (order_error client e) coid), g)

module _ {A C : Type 0} ⦃n : Number A⦄ ⦃client : Client A C⦄ where
  unfoldable pub place_market_fok :
      String → VenueLeg → Side → A → String → Action (Binance A C) (FillResult A)
  unfolding submit
  place_market_fok symbol leg side qty coid g =
      answered symbol side qty coid leg (submit symbol side qty coid leg g)
