-- ===== src/Gateways/Paper/Solvent.antt =====
-- gateways/paper.py: the signs of the wallets.
use auto_trader_claude.Base.{
  String, str_eq, contains, has, Bool-cases, ◌||◌, ◌&&◌, inl, inr, [], ◌∷◌, Option, none, some, All,
  Dict, lookup, insert, arith,
}
use auto_trader_claude.Number.{Number, lt, le, nought, max}
use auto_trader_claude.Number.Order.{IsOrdered, ◌≼◌, le_refl, le_of_lt}
use auto_trader_claude.Core.Types.{VenueLeg, spot, futures, Side, buy, sell}
use auto_trader_claude.Core.Types.Market.{BookSnapshot, WalletBalance}
use auto_trader_claude.Core.Sizing.{total_depth}
use auto_trader_claude.Gateways.Paper.{Paper}
use auto_trader_claude.Gateways.Paper.Orders.{
  mutate_balance, wallet_delta, place_market_fok, match_book, match_found, draw_down, side_levels,
}

module _ {A : Type 0} ⦃n : Number A⦄ where
  abbrev Nonneg : String × WalletBalance A → Type 0
  Nonneg (asset, w) = (nought ≼ w.free) × (nought ≼ w.total)

  -- No wallet of either kind is below zero.
  pub record IsSolvent (g : Paper A) : Type 0 where
    pub spot : All Nonneg g.spot_balances
    pub futures : All Nonneg g.futures_balances

  module _ (laws : IsOrdered A) where
    max_nonneg : (a : A) → nought ≼ max nought a
    max_nonneg a = ground (arith, le_of_lt laws nought a, le_refl laws nought)

    insert-All :
        (k : String) (w : WalletBalance A) (d : Dict (WalletBalance A))
        → (nought ≼ w.free) × (nought ≼ w.total)
        → All Nonneg d
        → All Nonneg (insert k w d)
    insert-All k w [] h all = (h, tt)
    insert-All k w ((j, v) ∷ d) h (p, all) = elim (Bool-cases (str_eq j k)) [
      | inl e ↦ rw e (h, all)
      | inr e ↦ rw e (p, insert-All k w d h all)
    ]

    mutate_balance-All :
        (asset : String) (delta : A) (d : Dict (WalletBalance A))
        → All Nonneg d
        → All Nonneg (mutate_balance asset delta d)
    unfolding mutate_balance
    mutate_balance-All asset delta d all = insert-All asset _ d (max_nonneg _, max_nonneg _) all

    wallet_delta-All :
        (leg : VenueLeg) (base quote : String) (side : Side) (qty avg_price fee : A)
        (d : Dict (WalletBalance A))
        → All Nonneg d
        → All Nonneg (wallet_delta leg base quote side qty avg_price fee d)
    unfolding wallet_delta
    wallet_delta-All spot base quote buy qty avg_price fee d all =
        mutate_balance-All base _ _ (mutate_balance-All quote _ d all)
    wallet_delta-All spot base quote sell qty avg_price fee d all =
        mutate_balance-All base _ _ (mutate_balance-All quote _ d all)
    wallet_delta-All futures base quote buy qty avg_price fee d all =
        mutate_balance-All quote _ d all
    wallet_delta-All futures base quote sell qty avg_price fee d all =
        mutate_balance-All quote _ d all

    draw_down-IsSolvent :
        (symbol : String) (leg : VenueLeg) (side : Side) (qty avg_price fee : A) (g : Paper A)
        → IsSolvent g
        → IsSolvent (draw_down symbol leg side qty avg_price fee g)
    draw_down-IsSolvent symbol spot side qty avg_price fee g h =
        elim (Bool-cases (g.track_wallet_drawdown && has b'/' symbol)) [
          | inl e ↦ rw e (record {
            spot = wallet_delta-All spot _ _ side qty avg_price fee _ h.spot;
            futures = h.futures;
          })
          | inr e ↦ rw e h
        ]
    draw_down-IsSolvent symbol futures side qty avg_price fee g h =
        elim (Bool-cases (g.track_wallet_drawdown && has b'/' symbol)) [
          | inl e ↦ rw e (record {
            spot = h.spot;
            futures = wallet_delta-All futures _ _ side qty avg_price fee _ h.futures;
          })
          | inr e ↦ rw e h
        ]

    match-IsSolvent :
        (found : Option (BookSnapshot A)) (symbol : String) (leg : VenueLeg) (side : Side) (qty : A)
        (coid : String) (g : Paper A)
        → IsSolvent g
        → IsSolvent (match_found found symbol leg side qty coid g).1
    unfolding match_book
    match-IsSolvent none symbol leg side qty coid g h = h
    match-IsSolvent (some book) symbol leg side qty coid g h =
        let levels = side_levels side book in
        elim (Bool-cases (lt (total_depth nought levels) qty || le qty nought)) [
          | inl e ↦ rw e h
          | inr e ↦ rw e (draw_down-IsSolvent symbol leg side qty _ _ g h)
        ]

    -- An order leaves no wallet below zero where none was before.
    pub place_market_fok-IsSolvent :
        (g : Paper A) (symbol : String) (leg : VenueLeg) (side : Side) (qty : A) (coid : String)
        → IsSolvent g
        → IsSolvent (place_market_fok symbol leg side qty coid g).1
    unfolding place_market_fok
    place_market_fok-IsSolvent g symbol leg side qty coid h =
        elim (Bool-cases (contains coid g.seen_client_order_ids)) [
          | inl e ↦ rw e h
          | inr e ↦
              let g' = record g { seen_client_order_ids = coid ∷ g.seen_client_order_ids } in
              let kept : IsSolvent g' = record { spot = h.spot; futures = h.futures } in
              rw e (match-IsSolvent (lookup symbol g.books) symbol leg side qty coid g' kept)
        ]
