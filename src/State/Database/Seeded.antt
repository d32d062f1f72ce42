-- ===== src/State/Database/Seeded.antt =====
-- state/db.py: `_seed_venue_defaults` on every boot.
use auto_trader_claude.Base.{
  if◌then◌else◌, ◌≡◌, refl, ◌∙◌, sym, ap, String, Bool, true, not, Bool-cases, inl, inr, List, [],
  ◌∷◌, ◌++◌, map, keep, contains, map-append, contains-merged, member_later, str_eq_refl,
}
use mathlib.Core.List.{append_assoc, append-nil}
use auto_trader_claude.State.Models.{VenueState}
use auto_trader_claude.State.Database.{venue_row, seed, venue_defaults, seed_venue_defaults}

abbrev pub venue_ids : List VenueState → List String
venue_ids rows = map (λ (r : VenueState). r.exchange_id) rows

abbrev default_ids : List (String × Bool) → List String
default_ids defaults = map (λ (d : String × Bool). d.0) defaults

-- the rows that `seed` adds
abbrev added : List String → List (String × Bool) → List VenueState
added existing [] = []
added existing ((x, active) ∷ defaults) =
    if contains x existing
    then added existing defaults
    else venue_row x active ∷ added existing defaults

seed-added :
    (existing : List String) (defaults : List (String × Bool)) (rows : List VenueState)
    → seed existing defaults rows ≡ rows ++ added existing defaults
seed-added existing [] rows = sym (append-nil rows)
seed-added existing ((x, active) ∷ defaults) rows = elim (Bool-cases (contains x existing)) [
  | inl e ↦ rw e (seed-added existing defaults rows)
  | inr e ↦ rw e (seed-added existing defaults _ ∙ append_assoc rows _ _)
]

added-ids :
    (existing : List String) (defaults : List (String × Bool))
    → venue_ids (added existing defaults)
      ≡ keep (λ i. not (contains i existing)) (default_ids defaults)
added-ids existing [] = refl
added-ids existing ((x, active) ∷ defaults) = elim (Bool-cases (contains x existing)) [
  | inl e ↦ rw e (added-ids existing defaults)
  | inr e ↦ rw e (ap (λ l. x ∷ l) (added-ids existing defaults))
]

added-none :
    (existing : List String) (defaults : List (String × Bool))
    → ((i : String) → contains i (default_ids defaults) ≡ true → contains i existing ≡ true)
    → added existing defaults ≡ []
added-none existing [] h = refl
added-none existing ((x, active) ∷ defaults) h =
    rw (h x (rw (str_eq_refl x) refl))
      (added-none existing defaults (λ i m. h i (member_later x i (default_ids defaults) m)))

seeded-ids :
    (rows : List VenueState)
    → venue_ids (seed_venue_defaults rows)
      ≡ venue_ids rows ++ keep (λ i. not (contains i (venue_ids rows))) (default_ids venue_defaults)
unfolding seed_venue_defaults
seeded-ids rows =
    ap venue_ids (seed-added (venue_ids rows) venue_defaults rows)
    ∙ map-append _ rows _
    ∙ ap (λ l. venue_ids rows ++ l) (added-ids (venue_ids rows) venue_defaults)

seeded-again :
    (rows : List VenueState)
    → seed_venue_defaults (seed_venue_defaults rows) ≡ seed_venue_defaults rows
unfolding seed_venue_defaults
seeded-again rows =
    seed-added (venue_ids (seed_venue_defaults rows)) venue_defaults (seed_venue_defaults rows)
    ∙ ap (λ l. seed_venue_defaults rows ++ l)
        (added-none (venue_ids (seed_venue_defaults rows)) venue_defaults (λ i m.
          ap (contains i) (seeded-ids rows)
          ∙ contains-merged i (venue_ids rows) (default_ids venue_defaults) m))
    ∙ append-nil (seed_venue_defaults rows)

-- Seeding the venues keeps every row that is there, in front and as it is; puts behind them a row
-- for each default venue that has none, and for no other; and seeding again changes nothing.
pub seed_venue_defaults-Seeded :
    (rows : List VenueState)
    → ((more : List VenueState) × (seed_venue_defaults rows ≡ rows ++ more))
      × (venue_ids (seed_venue_defaults rows)
          ≡ venue_ids rows
            ++ keep
                (λ i. not (contains i (venue_ids rows)))
                ("binance" ∷ "kucoin" ∷ "hyperliquid" ∷ []))
      × (seed_venue_defaults (seed_venue_defaults rows) ≡ seed_venue_defaults rows)
unfolding seed_venue_defaults
seed_venue_defaults-Seeded rows =
    ((_, seed-added (venue_ids rows) venue_defaults rows), seeded-ids rows, seeded-again rows)
