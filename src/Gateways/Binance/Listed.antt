-- ===== src/Gateways/Binance/Listed.antt =====
-- gateways/binance.py: the rows of `list_capital_flow_records`, against what the client answered.
use auto_trader_claude.Base.{
  ℕ, ◌≡◌, refl, ap, ◌⊎◌, inl, inr, String, ◌<>◌, truthy, Bool, true, false, not, ◌&&◌, Bool-cases,
  List, [], ◌∷◌, map, All, Outcome, ok, raised, Exn, if◌then◌else◌, arith,
}
use auto_trader_claude.Number.{Number, nought, neg, abs, le, lt, is_zero}
use auto_trader_claude.Number.Order.{IsOrdered, pos_of_not_le, abs_nonneg}
use auto_trader_claude.Gateways.Venue.{FlowRecord}
use auto_trader_claude.Gateways.Ccxt.{Transfer, Floats, amount_of}
use auto_trader_claude.Gateways.Binance.{first_text}
use auto_trader_claude.Gateways.Binance.Transfers.{add_deposit, add_withdrawal}

-- what a call answered, or nothing where it raised
abbrev pub answered : {X : Type 0} → Outcome (List X) → List X
answered (ok xs) = xs
answered (raised e) = []

module _ {A : Type 0} where
  abbrev pub ids : List (FlowRecord A) → List String
  ids rows = map (λ (r : FlowRecord A). r.external_id) rows

  abbrev pub id_of : Transfer A → String
  id_of t = first_text t.id t.txid

  abbrev pub deposit_id : Transfer A → String
  deposit_id t = "binance:deposit:" <> id_of t

  abbrev pub withdrawal_id : Transfer A → String
  withdrawal_id t = "binance:withdrawal:" <> id_of t

  -- An error of a conversion: of a time, or of a text to a number.
  abbrev pub IsConversionError : (ℕ → Outcome ℕ) → Floats A → Exn → Type 0
  IsConversionError from_ms floats e =
      ((t : ℕ) × (from_ms t ≡ raised e)) ⊎ ((s : String) × (e ≡ floats.malformed s))

module _ {A : Type 0} ⦃n : Number A⦄ where
  -- money that came in, above zero, or that went out, below zero
  abbrev pub IsFlow : FlowRecord A → Type 0
  IsFlow r =
      ((r.flow_type ≡ "deposit") × (lt nought r.amount_usdt ≡ true))
      ⊎ ((r.flow_type ≡ "withdrawal") × (lt r.amount_usdt nought ≡ true))

  abbrev is_above : Outcome A → Bool
  is_above (ok a) = lt nought a
  is_above (raised e) = false

  abbrev is_moved : Outcome A → Bool
  is_moved (ok a) = not (is_zero (neg (abs a)))
  is_moved (raised e) = false

  module _ ⦃floats : Floats A⦄ where
    -- a deposit with an id and an amount above zero
    abbrev pub brings : Transfer A → Bool
    brings t = truthy (id_of t) && is_above (amount_of t.amount)

    -- a withdrawal with an id, whose negated amount is not zero
    abbrev pub takes : Transfer A → Bool
    takes t = truthy (id_of t) && is_moved (amount_of t.amount)

  -- The rows are flows, and have these ids.
  pub record AreListed (expected : List String) (rows : List (FlowRecord A)) : Type 0 where
    pub flows : All IsFlow rows
    pub listed : ids rows ≡ expected

module _ {A : Type 0} ⦃n : Number A⦄ (laws : IsOrdered A) where
  is_zero_of_pos : (a : A) → lt nought a ≡ true → is_zero a ≡ true → ⊥
  is_zero_of_pos a h k = ground (arith, h, k)

  below_of_moved : (a : A) → is_zero (neg (abs a)) ≡ false → lt (neg (abs a)) nought ≡ true
  below_of_moved a h =
      let nonpos = laws.neg_nonpos (abs a) (abs_nonneg laws a) in
      ground (arith, h, nonpos, laws.lt-eq-not-le nought (neg (abs a)))

  module _ ⦃floats : Floats A⦄ where
    pub deposit-AreListed :
        (d : Transfer A) (expected : List String) (ts : ℕ) (amt : A) (rest : List (FlowRecord A))
        → amount_of d.amount ≡ ok amt
        → AreListed expected rest
        → AreListed
            (if brings d then deposit_id d ∷ expected else expected)
            (add_deposit d ts amt rest)
    deposit-AreListed d expected ts amt rest e h = rw e (elim (Bool-cases (truthy (id_of d))) [
      | inl i ↦ elim (Bool-cases (le amt nought)) [
        | inl z ↦ rw (i, z, laws.lt-eq-not-le nought amt) (rw z h)
        | inr p ↦
            let pos = pos_of_not_le laws amt p in
            rw (i, p, pos)
              (record {
                flows = (inl (refl, pos), h.flows);
                listed = ap (λ l. deposit_id d ∷ l) h.listed;
              })
      ]
      | inr i ↦ rw i h
    ])

    pub withdrawal-AreListed :
        (w : Transfer A) (expected : List String) (ts : ℕ) (size : A) (rest : List (FlowRecord A))
        → amount_of w.amount ≡ ok size
        → AreListed expected rest
        → AreListed
            (if takes w then withdrawal_id w ∷ expected else expected)
            (add_withdrawal w ts size rest)
    withdrawal-AreListed w expected ts size rest e h = rw e (elim (Bool-cases (truthy (id_of w))) [
      | inl i ↦ elim (Bool-cases (is_zero (neg (abs size)))) [
        | inl z ↦ rw (i, z) h
        | inr m ↦
            rw (i, m)
              (record {
                flows = (inr (refl, below_of_moved size m), h.flows);
                listed = ap (λ l. withdrawal_id w ∷ l) h.listed;
              })
      ]
      | inr i ↦ rw i h
    ])
