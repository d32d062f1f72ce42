-- ===== src/Gateways/Paper/Placed.antt =====
-- gateways/paper.py: what an order does to the venue.
use auto_trader_claude.Base.{
  ◌≡◌, refl, String, eq_iff, contains, has, Bool-cases, true, false, ◌||◌, ◌&&◌, ◌⊎◌, inl, inr,
  List, ◌∷◌, Option, none, some, lookup, Outcome, ok, arith, ap, ◌∙◌,
}
use auto_trader_claude.Number.{Number, ◌*◌, lt, le, literal, nought, quotient}
use auto_trader_claude.Core.Types.{VenueLeg, spot, futures, Side, FillResult}
use auto_trader_claude.Core.Types.Market.{BookSnapshot}
use auto_trader_claude.Core.Sizing.{total_depth}
use auto_trader_claude.Gateways.Paper.{Paper}
use auto_trader_claude.Gateways.Paper.Orders.{
  place_market_fok, match_book, match_found, side_levels, refused, draw_down, slipped, spend,
  filled,
}

contains-head : (s : String) (xs : List String) → contains s (s ∷ xs) ≡ true
contains-head s xs = rw ((eq_iff s s).1 refl) refl

module _ {A : Type 0} ⦃n : Number A⦄ where
  -- the depth that an order may take
  abbrev pub depth_of : Option (BookSnapshot A) → Side → A
  depth_of none side = nought
  depth_of (some book) side = total_depth nought (side_levels side book)

  pub record IsFilled (g : Paper A) (symbol : String) (side : Side) (qty : A) (coid : String)
      (fill : FillResult A) : Type 0 where
    pub fresh : contains coid g.seen_client_order_ids ≡ false
    pub whole : fill.qty ≡ qty
    pub something : le qty nought ≡ false
    pub within_depth : lt (depth_of (lookup symbol g.books) side) qty ≡ false

  pub record IsRefused (g g' : Paper A) (fill : FillResult A) : Type 0 where
    pub nothing : fill.qty ≡ nought
    pub spot_kept : g'.spot_balances ≡ g.spot_balances
    pub futures_kept : g'.futures_balances ≡ g.futures_balances

  pub record IsAnswered (g g' : Paper A) (symbol : String) (side : Side) (qty : A) (coid : String)
      (fill : FillResult A) : Type 0 where
    pub remembered : contains coid g'.seen_client_order_ids ≡ true
    pub books_kept : g'.books ≡ g.books
    pub answers : fill.client_order_id ≡ coid
    pub all_or_nothing :
        ((fill.accepted ≡ true) × IsFilled g symbol side qty coid fill)
        ⊎ ((fill.accepted ≡ false) × IsRefused g g' fill)

  draw_down_keeps :
      (symbol : String) (leg : VenueLeg) (side : Side) (qty avg_price fee : A) (g : Paper A)
      → let g' = draw_down symbol leg side qty avg_price fee g in
        (g'.seen_client_order_ids ≡ g.seen_client_order_ids) × (g'.books ≡ g.books)
  draw_down_keeps symbol spot side qty avg_price fee g =
      elim (Bool-cases (g.track_wallet_drawdown && has b'/' symbol)) [
        | inl e ↦ rw e (refl, refl)
        | inr e ↦ rw e (refl, refl)
      ]
  draw_down_keeps symbol futures side qty avg_price fee g =
      elim (Bool-cases (g.track_wallet_drawdown && has b'/' symbol)) [
        | inl e ↦ rw e (refl, refl)
        | inr e ↦ rw e (refl, refl)
      ]

  -- an answer together with the state behind it
  abbrev pub Answers :
      Paper A → String → Side → A → String → Outcome (FillResult A) × Paper A → Type 0
  Answers g symbol side qty coid (r, g') =
      (fill : FillResult A) × (r ≡ ok fill) × IsAnswered g g' symbol side qty coid fill

  refused-Answers :
      (g : Paper A) (symbol : String) (leg : VenueLeg) (side : Side) (qty : A) (error coid : String)
      (seen : List String)
      → contains coid seen ≡ true
      → Answers g symbol side qty coid
          (ok (refused symbol leg side error coid), record g { seen_client_order_ids = seen })
  refused-Answers g symbol leg side qty error coid seen h = (
    refused symbol leg side error coid,
    refl,
    record {
      remembered = h;
      books_kept = refl;
      answers = refl;
      all_or_nothing = inr (refl, record { nothing = refl; spot_kept = refl; futures_kept = refl });
    },
  )

  filled-Answers :
      (g : Paper A) (book : BookSnapshot A) (symbol : String) (leg : VenueLeg) (side : Side)
      (qty avg_price fee : A) (coid : String) (seen : List String)
      → contains coid seen ≡ true
      → contains coid g.seen_client_order_ids ≡ false
      → lookup symbol g.books ≡ some book
      → (lt (total_depth nought (side_levels side book)) qty || le qty nought) ≡ false
      → Answers g symbol side qty coid (
          filled symbol leg side qty avg_price fee coid (record g { seen_client_order_ids = seen }))
  filled-Answers g book symbol leg side qty avg_price fee coid seen h fresh e enough =
      let kept =
        draw_down_keeps symbol leg side qty avg_price fee
          (record g { seen_client_order_ids = seen }) in
      (
        _,
        refl,
        record {
          remembered = ap (contains coid) kept.0 ∙ h;
          books_kept = kept.1;
          answers = refl;
          all_or_nothing = inl (
            refl,
            record {
              fresh = fresh;
              whole = refl;
              something = ground (arith, enough);
              within_depth = rw e (ground (arith, enough));
            },
          );
        },
      )

  match-Answers :
      (g : Paper A) (found : Option (BookSnapshot A)) (symbol : String) (leg : VenueLeg)
      (side : Side) (qty : A) (coid : String) (seen : List String)
      → contains coid seen ≡ true
      → contains coid g.seen_client_order_ids ≡ false
      → lookup symbol g.books ≡ found
      → Answers g symbol side qty coid
          (match_found found symbol leg side qty coid (record g { seen_client_order_ids = seen }))
  unfolding match_book
  match-Answers g none symbol leg side qty coid seen h fresh e =
      refused-Answers g symbol leg side qty "no_book" coid seen h
  match-Answers g (some book) symbol leg side qty coid seen h fresh e =
      let levels = side_levels side book in
      let avg_price = slipped g side (quotient (spend levels qty nought) qty) in
      let fee = qty * avg_price * quotient g.fee_bps (literal 10000) in
      elim (Bool-cases (lt (total_depth nought levels) qty || le qty nought)) [
        | inl e' ↦ rw e' (refused-Answers g symbol leg side qty "fok_rejected" coid seen h)
        | inr e' ↦
            rw e' (filled-Answers g book symbol leg side qty avg_price fee coid seen h fresh e e')
      ]

  seen-match :
      (found : Option (BookSnapshot A)) (symbol : String) (leg : VenueLeg) (side : Side) (qty : A)
      (coid : String) (g : Paper A)
      → (match_found found symbol leg side qty coid g).1.seen_client_order_ids
        ≡ g.seen_client_order_ids
  unfolding match_book
  seen-match none symbol leg side qty coid g = refl
  seen-match (some book) symbol leg side qty coid g =
      let levels = side_levels side book in
      let avg_price = slipped g side (quotient (spend levels qty nought) qty) in
      let fee = qty * avg_price * quotient g.fee_bps (literal 10000) in
      elim (Bool-cases (lt (total_depth nought levels) qty || le qty nought)) [
        | inl e ↦ rw e refl
        | inr e ↦ rw e (draw_down_keeps symbol leg side qty avg_price fee g).0
      ]

  -- Every order is answered, and the answer carries its id, which the venue then remembers. It is
  -- either accepted, where the id was new, the quantity was above zero and within the depth of the
  -- side of the book that it takes, and the fill has all of it; or refused, where the fill has no
  -- quantity and no wallet changes. The books never change.
  pub place_market_fok-IsAnswered :
      (g : Paper A) (symbol : String) (leg : VenueLeg) (side : Side) (qty : A) (coid : String)
      → Answers g symbol side qty coid (place_market_fok symbol leg side qty coid g)
  unfolding place_market_fok
  place_market_fok-IsAnswered g symbol leg side qty coid =
      elim (Bool-cases (contains coid g.seen_client_order_ids)) [
        | inl e ↦ rw e (
            refused-Answers g symbol leg side qty "duplicate_client_order_id" coid
              g.seen_client_order_ids e)
        | inr e ↦ rw e (
            match-Answers g (lookup symbol g.books) symbol leg side qty coid
              (coid ∷ g.seen_client_order_ids) (contains-head coid g.seen_client_order_ids) e refl)
      ]

  -- An order under an id that was used before is refused as a duplicate and changes nothing,
  -- whatever became of the first one and whatever the second one asks for.
  pub place_market_fok_twice :
      (g : Paper A) (symbol symbol' : String) (leg leg' : VenueLeg) (side side' : Side)
      (qty qty' : A) (coid : String)
      → let g' = (place_market_fok symbol leg side qty coid g).1 in
        place_market_fok symbol' leg' side' qty' coid g'
        ≡ (ok (refused symbol' leg' side' "duplicate_client_order_id" coid), g')
  unfolding place_market_fok
  place_market_fok_twice g symbol symbol' leg leg' side side' qty qty' coid =
      let (fill, e, answered) = place_market_fok-IsAnswered g symbol leg side qty coid in
      rw answered.remembered refl

  -- a used id stays used
  pub seen-place_market_fok :
      (g : Paper A) (symbol : String) (leg : VenueLeg) (side : Side) (qty : A) (coid used : String)
      → contains used g.seen_client_order_ids ≡ true
      → contains used (place_market_fok symbol leg side qty coid g).1.seen_client_order_ids ≡ true
  unfolding place_market_fok
  seen-place_market_fok g symbol leg side qty coid used h =
      elim (Bool-cases (contains coid g.seen_client_order_ids)) [
        | inl e ↦ rw e h
        | inr e ↦
            let g' = record g { seen_client_order_ids = coid ∷ g.seen_client_order_ids } in
            rw e (
              ap (contains used) (seen-match (lookup symbol g.books) symbol leg side qty coid g')
              ∙ ground (arith, h))
      ]

  pub place-duplicate :
      (g : Paper A) (symbol : String) (leg : VenueLeg) (side : Side) (qty : A) (coid : String)
      → contains coid g.seen_client_order_ids ≡ true
      → place_market_fok symbol leg side qty coid g
        ≡ (ok (refused symbol leg side "duplicate_client_order_id" coid), g)
  unfolding place_market_fok
  place-duplicate g symbol leg side qty coid h = rw h refl
