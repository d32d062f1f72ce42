-- ===== src/Loop/Runner/Activate/Twice.antt =====
-- loop/runner.py: `_exchanges_to_activate`, and a second boot with the same environment.
use auto_trader_claude.Base.{
  ◌≡◌, refl, ◌∙◌, ap, String, Bool, true, false, List, [], ◌∷◌, contains, All, if◌then◌else◌,
}
use auto_trader_claude.Core.Settings.{EnvConfig}
use auto_trader_claude.State.Models.{VenueState}
use auto_trader_claude.Loop.Runner.Activate.{
  is_filled, override, overridden, is_startable, activate,
}

override-true : (wanted active : Bool) → override true wanted active ≡ wanted
override-true true true = refl
override-true true false = refl
override-true false true = refl
override-true false false = refl

override_twice :
    (is_set wanted active : Bool)
    → override is_set wanted (override is_set wanted active) ≡ override is_set wanted active
override_twice true true true = refl
override_twice true true false = refl
override_twice true false true = refl
override_twice true false false = refl
override_twice false wanted active = refl

-- what the set asks of a row
abbrev pub Obeys : List String → VenueState → Type 0
Obeys legacy row = is_filled legacy ≡ true → row.active ≡ contains row.exchange_id legacy

overridden-Obeys : (legacy : List String) (row : VenueState) → Obeys legacy (overridden legacy row)
overridden-Obeys legacy row h = rw h (override-true (contains row.exchange_id legacy) row.active)

overridden_twice :
    (legacy : List String) (row : VenueState)
    → overridden legacy (overridden legacy row) ≡ overridden legacy row
overridden_twice legacy row =
    ap (λ b. record row { active = b })
      (override_twice (is_filled legacy) (contains row.exchange_id legacy) row.active)

module _ (legacy : List String) (env : EnvConfig) where
  abbrev stepped : VenueState → List String × List VenueState → List String × List VenueState
  stepped row (out, rest) =
      (if is_startable env row then row.exchange_id ∷ out else out, row ∷ rest)

  -- On every boot, whatever the table says: where ACTIVE_EXCHANGES names a venue, each row ends as
  -- active exactly if the set has its id; and a boot that follows, with the same environment,
  -- activates the same venues and changes no row.
  pub activate-Obeys :
      (rows : List VenueState)
      → All (Obeys legacy) (activate legacy env rows).1
        × (activate legacy env (activate legacy env rows).1 ≡ activate legacy env rows)
  unfolding activate
  activate-Obeys [] = (tt, refl)
  activate-Obeys (row ∷ rows) =
      let (obeyed, again) = activate-Obeys rows in
      (
        (overridden-Obeys legacy row, obeyed),
        ap (stepped (overridden legacy (overridden legacy row))) again
            ∙ ap (λ r. stepped r (activate legacy env rows)) (overridden_twice legacy row),
      )
