-- ===== src/Gateways/Paper/Orders.antt =====
-- gateways/paper.py: order placement and the wallets, and the whole as a `Gateway`.
use auto_trader_claude.Base.{
  String, has, before, after, true, false, ◌||◌, ◌&&◌, if◌then◌else◌, List, [], ◌∷◌, Option, none,
  some, Dict, lookup, get_or, insert, contains, Outcome, ok, Action,
}
use auto_trader_claude.Number.{
  Number, ◌+◌, ◌-◌, ◌*◌, lt, le, literal, nought, neg, min, max, quotient,
}
use auto_trader_claude.Core.Types.{VenueLeg, spot, futures, Side, buy, sell, FillResult}
use auto_trader_claude.Core.Types.Market.{BookLevel, BookSnapshot, WalletBalance}
use auto_trader_claude.Core.Sizing.{total_depth}
use auto_trader_claude.Gateways.Venue.{Gateway}
use auto_trader_claude.Gateways.Paper.{
  Paper, lot_step, fetch_funding_rates, fetch_predicted_funding, snapshot_book, fetch_fees,
  empty_wallet, fetch_balance, list_open_perp_positions, list_capital_flow_records, account_id,
}

module _ {A : Type 0} ⦃n : Number A⦄ where
  -- `_mutate_balance`
  unfoldable pub mutate_balance : String → A → Dict (WalletBalance A) → Dict (WalletBalance A)
  mutate_balance asset free_delta bucket =
      let cur = get_or asset empty_wallet bucket in
      insert asset
        (record {
          free = max nought (cur.free + free_delta);
          total = max nought (cur.total + free_delta);
        })
        bucket

  -- the base asset moves in a spot wallet only
  abbrev move_base : VenueLeg → String → A → Dict (WalletBalance A) → Dict (WalletBalance A)
  move_base spot base delta bucket = mutate_balance base delta bucket
  move_base futures base delta bucket = bucket

  -- `_apply_wallet_delta`, on the bucket of the leg
  unfoldable pub wallet_delta :
      VenueLeg
      → String
      → String
      → Side
      → A
      → A
      → A
      → Dict (WalletBalance A)
      → Dict (WalletBalance A)
  unfolding mutate_balance
  wallet_delta leg base quote buy qty avg_price fee_quote bucket =
      move_base leg base qty (mutate_balance quote (neg (qty * avg_price + fee_quote)) bucket)
  wallet_delta leg base quote sell qty avg_price fee_quote bucket =
      move_base leg base (neg qty) (mutate_balance quote (qty * avg_price - fee_quote) bucket)

  abbrev on_bucket :
      VenueLeg → (Dict (WalletBalance A) → Dict (WalletBalance A)) → Paper A → Paper A
  on_bucket spot f g = record g { spot_balances = f g.spot_balances }
  on_bucket futures f g = record g { futures_balances = f g.futures_balances }

  abbrev pub refused : String → VenueLeg → Side → String → String → FillResult A
  refused symbol leg side error coid = record {
    symbol = symbol;
    venue_leg = leg;
    side = side;
    qty = nought;
    avg_price = nought;
    fee_quote = nought;
    accepted = false;
    error = some error;
    client_order_id = coid;
  }

  abbrev pub side_levels : Side → BookSnapshot A → List (BookLevel A)
  side_levels buy book = book.asks
  side_levels sell book = book.bids

  -- the fill loop: what the remaining quantity costs
  unfoldable pub spend : List (BookLevel A) → A → A → A
  spend [] remaining spent = spent
  spend (lvl ∷ levels) remaining spent =
      let take_qty = min lvl.depth remaining in
      let rest = spend levels (remaining - take_qty) (spent + take_qty * lvl.price) in
      if le remaining nought then spent else rest

  abbrev slip_sign : Side → A
  slip_sign buy = literal 1
  slip_sign sell = neg (literal 1)

  abbrev pub slipped : Paper A → Side → A → A
  slipped g side avg = avg * (literal 1 + quotient g.slippage_bps (literal 10000) * slip_sign side)

  abbrev pub draw_down : String → VenueLeg → Side → A → A → A → Paper A → Paper A
  draw_down symbol leg side qty avg_price fee g =
      if g.track_wallet_drawdown && has b'/' symbol
      then on_bucket leg
          (wallet_delta leg (before b'/' symbol) (before b':' (before b'/' (after b'/' symbol)))
            side qty avg_price fee)
          g
      else g

  abbrev pub filled :
      String → VenueLeg → Side → A → A → A → String → Paper A → Outcome (FillResult A) × Paper A
  filled symbol leg side qty avg_price fee coid g = (
    ok (record {
      symbol = symbol;
      venue_leg = leg;
      side = side;
      qty = qty;
      avg_price = avg_price;
      fee_quote = fee;
      accepted = true;
      error = none;
      client_order_id = coid;
    }),
    draw_down symbol leg side qty avg_price fee g,
  )

  -- fill or kill against a book
  unfoldable pub match_book :
      BookSnapshot A → String → VenueLeg → Side → A → String → Action (Paper A) (FillResult A)
  unfolding spend wallet_delta
  match_book book symbol leg side qty coid g =
      let levels = side_levels side book in
      if lt (total_depth nought levels) qty || le qty nought
      then (ok (refused symbol leg side "fok_rejected" coid), g)
      else let avg_price = slipped g side (quotient (spend levels qty nought) qty) in
        filled symbol leg side qty avg_price (qty * avg_price * quotient g.fee_bps (literal 10000))
          coid g

  abbrev pub match_found :
      Option (BookSnapshot A)
      → String
      → VenueLeg
      → Side
      → A
      → String
      → Action (Paper A) (FillResult A)
  match_found none symbol leg side qty coid g = (ok (refused symbol leg side "no_book" coid), g)
  match_found (some book) symbol leg side qty coid g = match_book book symbol leg side qty coid g

  unfoldable pub place_market_fok :
      String → VenueLeg → Side → A → String → Action (Paper A) (FillResult A)
  unfolding match_book total_depth
  place_market_fok symbol leg side qty coid g =
      if contains coid g.seen_client_order_ids
      then (ok (refused symbol leg side "duplicate_client_order_id" coid), g)
      else let g' = record g { seen_client_order_ids = coid ∷ g.seen_client_order_ids } in
        match_found (lookup symbol g'.books) symbol leg side qty coid g'

  -- the venue under an exchange id
  abbrev pub paper_gateway : String → Gateway A (Paper A)
  paper_gateway exchange_id = record {
    exchange_id = exchange_id;
    lot_step = lot_step;
    fetch_funding_rates = fetch_funding_rates;
    fetch_predicted_funding = fetch_predicted_funding;
    snapshot_book = snapshot_book;
    fetch_fees = fetch_fees;
    fetch_balance = fetch_balance;
    list_open_perp_positions = list_open_perp_positions;
    place_market_fok = place_market_fok;
    list_capital_flow_records = list_capital_flow_records;
    expected_account_id = account_id;
    actual_account_id = account_id;
  }
