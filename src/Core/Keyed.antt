-- ===== src/Core/Keyed.antt =====
-- Dicts whose keys are pairs of a mode and an exchange id, in insertion order: the stamps of
-- loop/runner.py and the registry of core/config.py.
use mathlib.Core.Bool.{true≢false}
use auto_trader_claude.Base.{
  str_eq_sound, ap, ◌≡◌, refl, ◌∙◌, sym, String, str_eq, str_eq_refl, Bool, true, false, ◌&&◌,
  if◌then◌else◌, List, [], ◌∷◌, Option, none, some, Bool-cases, inl, inr,
}
use auto_trader_claude.Core.Types.{Mode, paper, live, same_mode}

abbrev pub Keyed {ℓ} : Type ℓ → Type ℓ
Keyed V = List ((Mode × String) × V)

abbrev pub same_key : Mode × String → Mode × String → Bool
same_key (m, x) (k, y) = same_mode m k && str_eq x y

module _ {ℓ} {V : Type ℓ} where
  -- `d.get(key)`
  abbrev pub find_key : Mode × String → Keyed V → Option V
  find_key key [] = none
  find_key key ((k, v) ∷ d) = if same_key k key then some v else find_key key d

  -- `d[key] = v`
  abbrev pub put_key : Mode × String → V → Keyed V → Keyed V
  put_key key v [] = (key, v) ∷ []
  put_key key v ((k, w) ∷ d) = if same_key k key then (k, v) ∷ d else (k, w) ∷ put_key key v d

  -- `d.get(key, default)`
  abbrev pub key_or : Mode × String → V → Keyed V → V
  key_or key default d = elim (find_key key d) [ none ↦ default | some v ↦ v ]

pub same_mode_refl : (m : Mode) → same_mode m m ≡ true
same_mode_refl paper = refl
same_mode_refl live = refl

pub same_mode-eq : (m k : Mode) → same_mode m k ≡ true → m ≡ k
same_mode-eq paper paper e = refl
same_mode-eq live live e = refl
same_mode-eq paper live e = cc
same_mode-eq live paper e = cc

pub same_key_refl : (k : Mode × String) → same_key k k ≡ true
same_key_refl (m, x) = rw (same_mode_refl m, str_eq_refl x) refl

pub same_key-eq : (k l : Mode × String) → same_key k l ≡ true → k ≡ l
same_key-eq (m, x) (k, y) h = elim (Bool-cases (same_mode m k)) [
  | inl e ↦
      ap (λ a. (a, x)) (same_mode-eq m k e)
      ∙ ap (λ b. (k, b)) (str_eq_sound x y (sym (rw e refl) ∙ h))
  | inr e ↦ absurd (true≢false (sym h ∙ rw e refl))
]

module _ {ℓ} {V : Type ℓ} where
  pub find-put_key :
      (key : Mode × String) (v : V) (d : Keyed V) → find_key key (put_key key v d) ≡ some v
  find-put_key key v [] = rw (same_key_refl key) refl
  find-put_key key v ((k, w) ∷ d) = elim (Bool-cases (same_key k key)) [
    | inl e ↦ rw (e, e) refl
    | inr e ↦ rw (e, e) (find-put_key key v d)
  ]

  -- a key that a write leaves present
  pub put_key-found :
      (key other : Mode × String) (v w : V) (d : Keyed V)
      → find_key key d ≡ some w
      → (u : V) × (find_key key (put_key other v d) ≡ some u)
  put_key-found key other v w [] h = absurd (missing w h)
    where
      missing : (w : V) → none ≡ some w → ⊥
      missing w h = cc
  put_key-found key other v w ((k, x) ∷ d) h = elim (Bool-cases (same_key k other)) [
    | inl e ↦ elim (Bool-cases (same_key k key)) [
      | inl f ↦ (v, rw (e, f) refl)
      | inr f ↦ (w, rw (e, f) (sym (beyond f) ∙ h))
    ]
    | inr e ↦ elim (Bool-cases (same_key k key)) [
      | inl f ↦ (x, rw (e, f) refl)
      | inr f ↦ let (u, g) = put_key-found key other v w d (sym (beyond f) ∙ h) in (u, rw (e, f) g)
    ]
  ]
    where
      beyond : same_key k key ≡ false → find_key key ((k, x) ∷ d) ≡ find_key key d
      beyond f = rw f refl

  -- a key other than the one that is written
  pub find-put_key-other :
      (key other : Mode × String) (v : V) (d : Keyed V)
      → same_key other key ≡ false
      → find_key key (put_key other v d) ≡ find_key key d
  find-put_key-other key other v [] h = rw h refl
  find-put_key-other key other v ((k, x) ∷ d) h = elim (Bool-cases (same_key k other)) [
    | inl e ↦ rw (e, ap (λ l. same_key l key) (same_key-eq k other e) ∙ h) refl
    | inr e ↦ rw (e, find-put_key-other key other v d h) refl
  ]
