-- ===== src/Gateways/Ccxt/Dedup.antt =====
-- gateways/_ccxt_helpers.py: `ErrorDedup`.
use Prim.Native.Nat.{◌-◌}
use auto_trader_claude.Base.{
  ℕ, ◌≡◌, refl, ◌∙◌, ap, String, str_eq, str_eq_refl, true, false, Bool-cases, inl, inr, [], ◌∷◌,
  some, Dict, lookup, insert, ltb,
}
use auto_trader_claude.Gateways.Ccxt.{ErrorDedup, is_recent, should_log}

lookup-insert : {V : Type 0} (k : String) (v : V) (d : Dict V) → lookup k (insert k v d) ≡ some v
lookup-insert k v [] = rw (str_eq_refl k) refl
lookup-insert k v ((j, w) ∷ d) = elim (Bool-cases (str_eq j k)) [
  | inl e ↦ rw (e, e) refl
  | inr e ↦ rw (e, e) (lookup-insert k v d)
]

seen_of :
    (key : String) (now : ℕ) (dedup : ErrorDedup)
    → is_recent dedup now (lookup key dedup.seen) ≡ false
    → should_log key now dedup ≡ (true, record dedup { seen = insert key now dedup.seen })
unfolding should_log
seen_of key now dedup e = rw e refl

quiet :
    (key : String) (now : ℕ) (dedup : ErrorDedup)
    → is_recent dedup now (lookup key dedup.seen) ≡ true
    → should_log key now dedup ≡ (false, dedup)
unfolding should_log
quiet key now dedup e = rw e refl

-- A key that was not logged within the window is logged, and up to the end of the window that starts
-- then it is not logged again.
pub should_log-once :
    (key : String) (now later : ℕ) (dedup : ErrorDedup)
    → is_recent dedup now (lookup key dedup.seen) ≡ false
    → ltb (later - now) dedup.window ≡ true
    → ((should_log key now dedup).0 ≡ true)
      × (should_log key later (should_log key now dedup).1 ≡ (false, (should_log key now dedup).1))
should_log-once key now later dedup e soon = rw (seen_of key now dedup e) (
  refl,
  quiet key later _ (
      ap (is_recent (record dedup { seen = insert key now dedup.seen }) later)
        (lookup-insert key now dedup.seen)
      ∙ soon),
)
