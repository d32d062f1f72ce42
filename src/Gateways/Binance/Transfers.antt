-- ===== src/Gateways/Binance/Transfers.antt =====
-- gateways/binance.py: the rows that `list_capital_flow_records` makes of deposits and withdrawals.
-- The times and the amounts are converted outside of its handlers, also those of a transfer that
-- gives no row.
use auto_trader_claude.Base.{
  ℕ, String, ◌<>◌, truthy, not, ◌||◌, List, [], ◌∷◌, ◌++◌, if◌then◌else◌, Outcome, ok,
}
use auto_trader_claude.Base.Outcomes.{◌>>=◌}
use auto_trader_claude.Number.{Number, nought, neg, abs, le, is_zero}
use auto_trader_claude.Gateways.Venue.{FlowRecord}
use auto_trader_claude.Gateways.Ccxt.{Transfer, Floats, amount_of, taken_at}
use auto_trader_claude.Gateways.Binance.{first_text}

module _ {A : Type 0} where
  abbrev pub deposit_of : ℕ → A → String → FlowRecord A
  deposit_of ts amt ext_id = record {
    ts = ts;
    amount_usdt = amt;
    flow_type = "deposit";
    external_id = "binance:deposit:" <> ext_id;
    note = "Binance external deposit";
  }

  abbrev pub withdrawal_of : ℕ → A → String → FlowRecord A
  withdrawal_of ts amt ext_id = record {
    ts = ts;
    amount_usdt = amt;
    flow_type = "withdrawal";
    external_id = "binance:withdrawal:" <> ext_id;
    note = "Binance external withdrawal";
  }

module _ {A : Type 0} ⦃n : Number A⦄ where
  -- a row in front of those behind it, unless the transfer has no id or brings nothing
  abbrev pub add_deposit : Transfer A → ℕ → A → List (FlowRecord A) → List (FlowRecord A)
  add_deposit d ts amt rest =
      let ext_id = first_text d.id d.txid in
      if not (truthy ext_id) || le amt nought then rest else deposit_of ts amt ext_id ∷ rest

  abbrev pub add_withdrawal : Transfer A → ℕ → A → List (FlowRecord A) → List (FlowRecord A)
  add_withdrawal w ts size rest =
      let amt = neg (abs size) in
      let ext_id = first_text w.id w.txid in
      if not (truthy ext_id) || is_zero amt then rest else withdrawal_of ts amt ext_id ∷ rest

module _ {A : Type 0} ⦃n : Number A⦄ ⦃floats : Floats A⦄ where
  unfoldable pub deposits_of :
      (ℕ → Outcome ℕ) → ℕ → List (Transfer A) → Outcome (List (FlowRecord A))
  deposits_of from_ms now [] = ok []
  deposits_of from_ms now (d ∷ deps) = do
    ts ← taken_at from_ms now d.timestamp
    amt ← amount_of d.amount
    rest ← deposits_of from_ms now deps
    ok (add_deposit d ts amt rest)

  unfoldable pub withdrawals_of :
      (ℕ → Outcome ℕ) → ℕ → List (Transfer A) → Outcome (List (FlowRecord A))
  withdrawals_of from_ms now [] = ok []
  withdrawals_of from_ms now (w ∷ wdrs) = do
    ts ← taken_at from_ms now w.timestamp
    size ← amount_of w.amount
    rest ← withdrawals_of from_ms now wdrs
    ok (add_withdrawal w ts size rest)

  unfoldable pub flow_rows :
      (ℕ → Outcome ℕ) → ℕ → List (Transfer A) → List (Transfer A) → Outcome (List (FlowRecord A))
  unfolding deposits_of withdrawals_of
  flow_rows from_ms now deps wdrs = do
    came ← deposits_of from_ms now deps
    went ← withdrawals_of from_ms now wdrs
    ok (came ++ went)
