-- ===== src/Base/Outcomes.antt =====
-- `do` blocks of computations that may raise and change no state.
use mathlib.Core.Path.{◌≡◌, refl, subst}
use auto_trader_claude.Base.Actions.{Outcome, ok, raised, Exn}

infixl 5 ◌>>=◌
abbrev pub ◌>>=◌ {ℓ κ} : {X : Type ℓ} {Y : Type κ} → Outcome X → (X → Outcome Y) → Outcome Y
ok x >>= f = f x
raised e >>= f = raised e

-- Inversion of a chain that returned.
pub >>=-eq-ok {ℓ κ} :
    {X : Type ℓ} {Y : Type κ} (m : Outcome X) (f : X → Outcome Y) {y : Y}
    → (m >>= f) ≡ ok y
    → (x : X) × (m ≡ ok x) × (f x ≡ ok y)
>>=-eq-ok (ok x) f h = (x, refl, h)
>>=-eq-ok (raised e) f h = cc

-- What is returned satisfies `P`, and what is raised satisfies `E`.
abbrev pub OrRaised : {X : Type 0} → (Exn → Type 0) → (X → Type 0) → Outcome X → Type 0
OrRaised E P (ok x) = P x
OrRaised E P (raised e) = E e

module _ (E : Exn → Type 0) {X : Type 0} where
  pub bind-OrRaised :
      {Y : Type 0} (P : X → Type 0) (Q : Y → Type 0) (r : Outcome X) (f : X → Outcome Y)
      → ((x : X) → P x → OrRaised E Q (f x))
      → OrRaised E P r
      → OrRaised E Q (r >>= f)
  bind-OrRaised P Q (ok x) f h p = h x p
  bind-OrRaised P Q (raised e) f h p = p

  pub weaken :
      (P Q : X → Type 0) (r : Outcome X) → ((x : X) → P x → Q x) → OrRaised E P r → OrRaised E Q r
  weaken P Q (ok x) h p = h x p
  weaken P Q (raised e) h p = p

  -- a result that is given by an equation
  pub tell : (P : X → Type 0) (r q : Outcome X) → q ≡ r → OrRaised E P q → OrRaised E P r
  tell P r q e p = subst (OrRaised E P) e p
