-- ===== src/Gateways/Binance/Answered.antt =====
-- gateways/binance.py: what the caller of `place_market_fok` gets back.
use auto_trader_claude.Base.{
  and-right, Exn, ◌≡◌, refl, ◌⊎◌, inl, inr, String, true, false, Bool-cases, List, [], ◌∷◌, Option,
  none, some, Outcome, ok, raised, Action, pure, continue, ◌>>=◌,
}
use auto_trader_claude.Number.{Number, nought, lt}
use auto_trader_claude.Core.Types.{VenueLeg, spot, futures, Side, FillResult}
use auto_trader_claude.Core.Types.Market.{BookLevel}
use auto_trader_claude.Gateways.Ccxt.{
  Order, OrderRequest, Client, is_filled_order, order_to_fill_result, refusal,
}
use auto_trader_claude.Gateways.Binance.{Binance}
use auto_trader_claude.Gateways.Binance.Orders.{
  send, spot_order, submit, answered, order_error, place_market_fok,
}

module _ {A : Type 0} ⦃n : Number A⦄ where
  abbrev pub IsFilled : FillResult A → Type 0
  IsFilled fill = (fill.accepted ≡ true) × (fill.error ≡ none) × (lt nought fill.qty ≡ true)

  abbrev pub IsRefused : FillResult A → Type 0
  IsRefused fill =
      (fill.accepted ≡ false)
      × (fill.qty ≡ nought)
      × ((reason : String) × (fill.error ≡ some reason))

  -- an answer to the order with this client order id
  abbrev pub IsAnswer : String → FillResult A → Type 0
  IsAnswer coid fill = (fill.client_order_id ≡ coid) × (IsFilled fill ⊎ IsRefused fill)

  refusal-IsAnswer :
      (symbol : String) (leg : VenueLeg) (side : Side) (error coid : String)
      → IsAnswer coid (refusal symbol leg side error coid)
  refusal-IsAnswer symbol leg side error coid = (refl, inr (refl, refl, (error, refl)))

  order-IsAnswer :
      (o : Option (Order A)) (symbol : String) (leg : VenueLeg) (side : Side) (coid : String)
      → IsAnswer coid (order_to_fill_result o symbol leg side coid)
  unfolding order_to_fill_result
  order-IsAnswer none symbol leg side coid = refusal-IsAnswer symbol leg side "empty_response" coid
  order-IsAnswer (some order) symbol leg side coid = elim (Bool-cases (is_filled_order order)) [
    | inl e ↦ rw e (refl, inl (refl, refl, and-right _ _ e))
    | inr e ↦ rw e (refusal-IsAnswer symbol leg side _ coid)
  ]

-- What is returned, if anything, satisfies `P`.
abbrev pub Returns : {X : Type 0} → (X → Type 0) → Outcome X → Type 0
Returns P (ok x) = P x
Returns P (raised e) = Unit

-- What `m` returns, if anything, satisfies `P`.
pub record Giving {S X : Type 0} (P : X → Type 0) (m : Action S X) : Type 0 where
  pub at : (s : S) → Returns P (m s).0

module _ {S X Y : Type 0} (P : Y → Type 0) where
  continue-Returns :
      (r : Outcome X) (f : X → Action S Y) (s : S)
      → ((x : X) → Giving P (f x))
      → Returns P (continue r f s).0
  continue-Returns (ok x) f s h = (h x).at s
  continue-Returns (raised e) f s h = tt

  pub Giving-bind :
      (m : Action S X) (f : X → Action S Y) → ((x : X) → Giving P (f x)) → Giving P (m >>= f)
  unfolding ◌>>=◌
  Giving-bind m f h = record { at = λ s. continue-Returns (m s).0 f (m s).1 h }

module _ {A C : Type 0} ⦃n : Number A⦄ ⦃client : Client A C⦄ (symbol : String) (side : Side)
    (qty : A) (coid : String) where
  send-Giving :
      (leg : VenueLeg) (request : OrderRequest A)
      → Giving (IsAnswer {A = A} coid) (send {C = C} symbol side qty coid leg request)
  unfolding pure
  send-Giving leg request =
      Giving-bind _ _ _ (λ o. record { at = λ g. order-IsAnswer o symbol leg side coid })

  spot_order-Giving :
      (asks bids : List (BookLevel A))
      → Giving (IsAnswer {A = A} coid) (spot_order {C = C} symbol side qty coid asks bids)
  spot_order-Giving (a ∷ asks) (b ∷ bids) = record { at = λ g. (send-Giving spot _).at g }
  spot_order-Giving [] bids = record {
    at = λ g. refusal-IsAnswer symbol spot side "empty_book" coid;
  }
  spot_order-Giving (a ∷ asks) [] = record {
    at = λ g. refusal-IsAnswer symbol spot side "empty_book" coid;
  }

  submit-Giving :
      (leg : VenueLeg) → Giving (IsAnswer {A = A} coid) (submit {C = C} symbol side qty coid leg)
  unfolding submit
  submit-Giving futures = send-Giving futures _
  submit-Giving spot = Giving-bind _ _ _ (λ ob. spot_order-Giving ob.asks ob.bids)

  answered-IsAnswer :
      (leg : VenueLeg) (r : Outcome (FillResult A)) (h : Binance A C)
      → Returns (IsAnswer coid) r
      → (fill : FillResult A) × (answered symbol side qty coid leg (r, h) ≡ (ok fill, h))
        × IsAnswer coid fill
        × ((r ≡ ok fill) ⊎ (((e : Exn) × (r ≡ raised e)) × IsRefused fill))
  answered-IsAnswer leg (ok fill) h a = (fill, refl, a, inl refl)
  answered-IsAnswer leg (raised e) h a = (
    _,
    refl,
    refusal-IsAnswer symbol leg side (order_error client e) coid,
    inr ((e, refl), (refl, refl, (order_error client e, refl))),
  )

module _ {A C : Type 0} ⦃n : Number A⦄ ⦃client : Client A C⦄ where
  -- `place_market_fok` of Binance raises nothing, whatever the client does; its answer carries the
  -- order's own client order id, and is either accepted with a positive quantity and no error, or
  -- refused with no quantity and a reason. It is refused wherever the client raised, and the
  -- client's state is then whatever the raising call made of it.
  pub place_market_fok-IsAnswer :
      (symbol : String) (leg : VenueLeg) (side : Side) (qty : A) (coid : String) (g : Binance A C)
      → (fill : FillResult A) × (place_market_fok symbol leg side qty coid g
          ≡ (ok fill, (submit symbol side qty coid leg g).1))
        × IsAnswer coid fill
        × (((submit symbol side qty coid leg g).0 ≡ ok fill)
            ⊎ (((e : Exn) × ((submit symbol side qty coid leg g).0 ≡ raised e)) × IsRefused fill))
  unfolding place_market_fok
  place_market_fok-IsAnswer symbol leg side qty coid g =
      answered-IsAnswer symbol side qty coid leg _ _ ((submit-Giving symbol side qty coid leg).at g)
