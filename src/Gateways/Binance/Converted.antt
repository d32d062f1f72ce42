-- ===== src/Gateways/Binance/Converted.antt =====
-- gateways/binance.py: the conversions of times and amounts, row by row.
use auto_trader_claude.Base.{
  ℕ, ◌≡◌, refl, ◌∙◌, inl, inr, String, truthy, Bool, true, false, Bool-cases, List, [], ◌∷◌, ◌++◌,
  map, map-append, keep, All-append, Option, none, some, Outcome, ok, raised, Exn, if◌then◌else◌,
}
use auto_trader_claude.Base.Outcomes.{◌>>=◌, OrRaised}
use auto_trader_claude.Number.{Number}
use auto_trader_claude.Number.Order.{IsOrdered}
use auto_trader_claude.Gateways.Venue.{FlowRecord}
use auto_trader_claude.Gateways.Ccxt.{
  Transfer, Floats, Value, absent, number, text, text_amount, amount_of, taken_at,
}
use auto_trader_claude.Gateways.Binance.Transfers.{
  add_deposit, add_withdrawal, deposits_of, withdrawals_of, flow_rows,
}
use auto_trader_claude.Gateways.Binance.Listed.{
  deposit_id, withdrawal_id, IsConversionError, IsFlow, brings, takes, AreListed, deposit-AreListed,
  withdrawal-AreListed,
}

-- what holds of `r` where it is known to raise errors that satisfy `E` only
known :
    {X : Type 0} (E : Exn → Type 0) (q r : Outcome X)
    → q ≡ r
    → OrRaised E (λ _. Unit {0}) r
    → OrRaised E (λ x. q ≡ ok x) r
known E q (ok x) e h = e
known E q (raised x) e h = h

known_time :
    {A : Type 0} (from_ms : ℕ → Outcome ℕ) (floats : Floats A) (ms : ℕ) (r : Outcome ℕ)
    → from_ms ms ≡ r
    → OrRaised (IsConversionError from_ms floats) (λ _. Unit {0}) r
known_time from_ms floats ms (ok t) h = tt
known_time from_ms floats ms (raised e) h = inl (ms, h)

text-converts :
    {A : Type 0} ⦃n : Number A⦄ ⦃floats : Floats A⦄ (from_ms : ℕ → Outcome ℕ) (s : String)
    (o : Option A)
    → OrRaised (IsConversionError from_ms floats) (λ _. Unit {0}) (text_amount s o)
text-converts from_ms s (some a) = tt
text-converts from_ms s none = elim (Bool-cases (truthy s)) [
  | inl e ↦ rw e (inr (s, refl))
  | inr e ↦ rw e tt
]

kept-AreListed :
    {A X : Type 0} ⦃n : Number A⦄ (f : X → String) (x : X) (xs : List X)
    (rows : List (FlowRecord A)) (b : Bool)
    → AreListed (if b then f x ∷ map f xs else map f xs) rows
    → AreListed (map f (if b then x ∷ xs else xs)) rows
kept-AreListed f x xs rows true h = h
kept-AreListed f x xs rows false h = h

-- three conversions, one behind the other, and what is made of them
three :
    {X Y Z W : Type 0} (E : Exn → Type 0) (P : Y → Type 0) (Q : Z → Type 0) (R : W → Type 0)
    (r : Outcome X) (q : Outcome Y) (o : Outcome Z) (put : X → Y → Z → W)
    → OrRaised E (λ _. Unit {0}) r
    → OrRaised E P q
    → OrRaised E Q o
    → ((x : X) (y : Y) (z : Z) → P y → Q z → R (put x y z))
    → OrRaised E R (r >>= λ x. q >>= λ y. o >>= λ z. ok (put x y z))
three E P Q R (ok x) (ok y) (ok z) put a b c h = h x y z b c
three E P Q R (ok x) (ok y) (raised e) put a b c h = c
three E P Q R (ok x) (raised e) o put a b c h = b
three E P Q R (raised e) q o put a b c h = a

module _ {A : Type 0} ⦃n : Number A⦄ (laws : IsOrdered A) ⦃floats : Floats A⦄
    (from_ms : ℕ → Outcome ℕ) (now : ℕ) where
  abbrev IsError : Exn → Type 0
  IsError = IsConversionError from_ms floats

  time-converts : (o : Option ℕ) → OrRaised IsError (λ _. Unit {0}) (taken_at from_ms now o)
  time-converts none = tt
  time-converts (some ms) = known_time from_ms floats ms _ refl

  amount-converts : (v : Value A) → OrRaised IsError (λ a. amount_of v ≡ ok a) (amount_of v)
  amount-converts absent = refl
  amount-converts (number a) = refl
  amount-converts (text s) =
      known IsError (amount_of {A = A} (text s)) (amount_of (text s)) refl
        (text-converts from_ms s (floats.float_of s))

  deposits-AreListed :
      (deps : List (Transfer A))
      → OrRaised IsError
          (AreListed (map deposit_id (keep brings deps)))
          (deposits_of from_ms now deps)
  unfolding deposits_of
  deposits-AreListed [] = record { flows = tt; listed = refl }
  deposits-AreListed (d ∷ deps) =
      three IsError (λ a. amount_of d.amount ≡ ok a) (AreListed (map deposit_id (keep brings deps)))
        (AreListed (map deposit_id (keep brings (d ∷ deps)))) (taken_at from_ms now d.timestamp)
        (amount_of d.amount) (deposits_of from_ms now deps) (add_deposit d)
        (time-converts d.timestamp) (amount-converts d.amount) (deposits-AreListed deps)
        (λ ts amt rest e h.
          kept-AreListed deposit_id d (keep brings deps) (add_deposit d ts amt rest) (brings d)
            (deposit-AreListed laws d (map deposit_id (keep brings deps)) ts amt rest e h))

  withdrawals-AreListed :
      (wdrs : List (Transfer A))
      → OrRaised IsError
          (AreListed (map withdrawal_id (keep takes wdrs)))
          (withdrawals_of from_ms now wdrs)
  unfolding withdrawals_of
  withdrawals-AreListed [] = record { flows = tt; listed = refl }
  withdrawals-AreListed (w ∷ wdrs) =
      three IsError (λ a. amount_of w.amount ≡ ok a)
        (AreListed (map withdrawal_id (keep takes wdrs)))
        (AreListed (map withdrawal_id (keep takes (w ∷ wdrs)))) (taken_at from_ms now w.timestamp)
        (amount_of w.amount) (withdrawals_of from_ms now wdrs) (add_withdrawal w)
        (time-converts w.timestamp) (amount-converts w.amount) (withdrawals-AreListed wdrs)
        (λ ts size rest e h.
          kept-AreListed withdrawal_id w (keep takes wdrs) (add_withdrawal w ts size rest) (takes w)
            (withdrawal-AreListed laws w (map withdrawal_id (keep takes wdrs)) ts size rest e h))

  pub flow_rows-AreListed :
      (deps wdrs : List (Transfer A))
      → OrRaised IsError
          (AreListed (map deposit_id (keep brings deps) ++ map withdrawal_id (keep takes wdrs)))
          (flow_rows from_ms now deps wdrs)
  unfolding flow_rows
  flow_rows-AreListed deps wdrs =
      let came_ids = map deposit_id (keep brings deps) in
      let went_ids = map withdrawal_id (keep takes wdrs) in
      three IsError (AreListed came_ids) (AreListed went_ids) (AreListed (came_ids ++ went_ids))
        (ok tt) (deposits_of from_ms now deps) (withdrawals_of from_ms now wdrs)
        (λ _ came went. came ++ went) tt (deposits-AreListed deps) (withdrawals-AreListed wdrs)
        (λ _ came went h k. record {
          flows = All-append IsFlow came went h.flows k.flows;
          listed =
              map-append (λ (r : FlowRecord A). r.external_id) came went
              ∙ (λ i. h.listed i ++ k.listed i);
        })
