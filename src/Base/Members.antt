-- ===== src/Base/Members.antt =====
-- Membership in lists of texts, as the Boolean test that Python's `in` is.
use mathlib.Core.Path.{◌≡◌, refl, ◌∙◌, sym, ap}
use mathlib.Core.Logic.{◌⊎◌, inl, inr}
use mathlib.Core.Bool.{Bool, true, false, not, ◌&&◌, ◌||◌}
use mathlib.Core.List.{map, List, [], ◌∷◌, ◌++◌}
use Prim.Native.Nat.{suc}
use Prim.Native.String.{String}
use text.Mathlib.Text.{◌==◌ as str_eq}
use text.Mathlib.TextEquality.{eq_iff}
use auto_trader_claude.Base.Tests.{Bool-cases}
use auto_trader_claude.Base.Lists.{length, contains, keep}

pub str_eq_sound : (s t : String) → str_eq s t ≡ true → s ≡ t
str_eq_sound s t e = (eq_iff s t).0 e

pub str_eq_refl : (s : String) → str_eq s s ≡ true
str_eq_refl s = (eq_iff s s).1 refl

pub contains-append :
    (s : String) (xs ys : List String) → contains s (xs ++ ys) ≡ (contains s xs || contains s ys)
contains-append s [] ys = refl
contains-append s (x ∷ xs) ys = elim (Bool-cases (str_eq x s)) [
  | inl e ↦ rw e refl
  | inr e ↦ rw e (contains-append s xs ys)
]

-- a test of the text decides which copies stay, so membership in what is kept is both
pub contains-keep :
    (s : String) (test : String → Bool) (xs : List String)
    → contains s (keep test xs) ≡ (test s && contains s xs)
contains-keep s test [] = elim (Bool-cases (test s)) [ inl e ↦ rw e refl | inr e ↦ rw e refl ]
contains-keep s test (x ∷ xs) = elim (Bool-cases (test x)) [
  | inl t ↦ rw t (kept_head t (contains-keep s test xs) (Bool-cases (str_eq x s)))
  | inr t ↦ rw t (contains-keep s test xs ∙ dropped_head t (Bool-cases (str_eq x s)))
]
  where
    moved : str_eq x s ≡ true → test s ≡ test x
    moved e = sym (ap test (str_eq_sound x s e))

    kept_head :
        test x ≡ true
        → contains s (keep test xs) ≡ (test s && contains s xs)
        → (str_eq x s ≡ true) ⊎ (str_eq x s ≡ false)
        → (str_eq x s || contains s (keep test xs)) ≡ (test s && (str_eq x s || contains s xs))
    kept_head t ih (inl e) = rw (e, moved e, t) refl
    kept_head t ih (inr e) = rw e ih

    dropped_head :
        test x ≡ false
        → (str_eq x s ≡ true) ⊎ (str_eq x s ≡ false)
        → (test s && contains s xs) ≡ (test s && (str_eq x s || contains s xs))
    dropped_head t (inl e) = rw (e, moved e, t) refl
    dropped_head t (inr e) = rw e refl

-- no text twice
abbrev pub all_distinct : List String → Bool
all_distinct [] = true
all_distinct (x ∷ xs) = not (contains x xs) && all_distinct xs

pub length-map : {X : Type 0} (f : X → String) (xs : List X) → length (map f xs) ≡ length xs
length-map f [] = refl
length-map f (x ∷ xs) = ap suc (length-map f xs)

pub map-append :
    {X Y : Type 0} (f : X → Y) (xs ys : List X) → map f (xs ++ ys) ≡ map f xs ++ map f ys
map-append f [] ys = refl
map-append f (x ∷ xs) ys = ap (λ l. f x ∷ l) (map-append f xs ys)

pub member_later :
    (x i : String) (xs : List String) → contains i xs ≡ true → (str_eq x i || contains i xs) ≡ true
member_later x i xs m = elim (Bool-cases (str_eq x i)) [
  | inl e ↦ rw e refl
  | inr e ↦ rw (e, m) refl
]

-- two tests that agree on the members
pub keep-agree :
    (f g : String → Bool) (xs : List String)
    → ((i : String) → contains i xs ≡ true → f i ≡ g i)
    → keep f xs ≡ keep g xs
keep-agree f g [] h = refl
keep-agree f g (x ∷ xs) h =
    rw (h x (rw (str_eq_refl x) refl), keep-agree f g xs (λ i m. h i (member_later x i xs m))) refl
  where
    later : (i : String) → contains i xs ≡ true → (str_eq x i || contains i xs) ≡ true
    later i m = elim (Bool-cases (str_eq x i)) [ inl e ↦ rw e refl | inr e ↦ rw (e, m) refl ]

-- a test that fails on every member
pub keep-none :
    (f : String → Bool) (xs : List String)
    → ((i : String) → contains i xs ≡ true → f i ≡ false)
    → keep f xs ≡ []
keep-none f [] h = refl
keep-none f (x ∷ xs) h =
    rw (h x (rw (str_eq_refl x) refl)) (keep-none f xs (λ i m. h i (member_later x i xs m)))
  where
    later : (i : String) → contains i xs ≡ true → (str_eq x i || contains i xs) ≡ true
    later i m = elim (Bool-cases (str_eq x i)) [ inl e ↦ rw e refl | inr e ↦ rw (e, m) refl ]

-- `xs` behind texts that are none of it
pub distinct-append :
    (xs ys : List String)
    → ((i : String) → contains i xs ≡ true → contains i ys ≡ false)
    → all_distinct (xs ++ ys) ≡ (all_distinct xs && all_distinct ys)
distinct-append [] ys h = refl
distinct-append (x ∷ xs) ys h =
    rw
      (
        contains-append x xs ys,
        h x (rw (str_eq_refl x) refl),
        distinct-append xs ys (λ i m. h i (member_later x i xs m)),
      )
      (elim (Bool-cases (contains x xs)) [ inl e ↦ rw e refl | inr e ↦ rw e refl ])

-- what is in `ys` is in `xs` and the rest of `ys`
pub contains-merged :
    (i : String) (xs ys : List String)
    → contains i ys ≡ true
    → contains i (xs ++ keep (λ j. not (contains j xs)) ys) ≡ true
contains-merged i xs ys m =
    contains-append i xs (keep (λ j. not (contains j xs)) ys)
    ∙ rw (contains-keep i (λ j. not (contains j xs)) ys, m)
        (elim (Bool-cases (contains i xs)) [ inl e ↦ rw e refl | inr e ↦ rw e refl ])
