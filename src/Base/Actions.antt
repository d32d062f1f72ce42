-- ===== src/Base/Actions.antt =====
-- Python's exceptions and mutable state. An `Action` returns or raises, and hands back the state
-- reached in both cases, since what was written before a raise stays written.
use Prim.Native.String.{String}
use mathlib.Core.Path.{◌≡◌, refl}
use mathlib.Core.Logic.{◌⊎◌, inl, inr}
use mathlib.Core.Bool.{Bool, true, false}
use mathlib.Core.List.{List, [], ◌∷◌}

-- The class of an exception and its `str`.
pub record Exn : Type 0 where
  pub kind : String
  pub message : String

pub data Outcome {ℓ} (X : Type ℓ) : Type ℓ where
  ok : X → Outcome X
  raised : Exn → Outcome X

abbrev pub Action : Type 0 → Type 0 → Type 0
Action S X = S → Outcome X × S

-- the action that finished with `r`, followed by `f`
abbrev pub continue : {S X Y : Type 0} → Outcome X → (X → Action S Y) → Action S Y
continue (ok x) f s = f x s
continue (raised e) f s = (raised e, s)

module _ {S X : Type 0} where
  unfoldable pub pure : X → Action S X
  pure x s = (ok x, s)

  unfoldable pub raise : Exn → Action S X
  raise e s = (raised e, s)

  unfoldable pub gets : (S → X) → Action S X
  gets f s = (ok (f s), s)

  -- a pure computation that may raise
  unfoldable pub run_outcome : Outcome X → Action S X
  run_outcome r s = (r, s)

unfoldable pub modify : {S : Type 0} → (S → S) → Action S (Unit {0})
modify f s = (ok tt, f s)

unfoldable pub done : {S : Type 0} → Action S (Unit {0})
done s = (ok tt, s)

infixl 5 ◌>>=◌ ◌>>◌
-- opening this opens the ways to build an action, too
unfoldable pub ◌>>=◌ : {S X Y : Type 0} → Action S X → (X → Action S Y) → Action S Y
unfolding pure raise gets run_outcome modify done
◌>>=◌ m f s = continue (m s).0 f (m s).1

abbrev pub ◌>>◌ : {S X Y : Type 0} → Action S X → Action S Y → Action S Y
m >> k = m >>= λ _. k

-- `for x in xs: body(x)`
unfoldable pub for_each : {S X : Type 0} → List X → (X → Action S (Unit {0})) → Action S (Unit {0})
for_each [] body = done
for_each (x ∷ xs) body = body x >> for_each xs body

pub is_ok {ℓ} : {X : Type ℓ} → Outcome X → Bool
is_ok (ok _) = true
is_ok (raised _) = false

pub Outcome-cases :
    {X : Type 0} (r : Outcome X) → ((x : X) × (r ≡ ok x)) ⊎ ((e : Exn) × (r ≡ raised e))
Outcome-cases (ok x) = inl (x, refl)
Outcome-cases (raised e) = inr (e, refl)
