-- ===== src/Number/Order.antt =====
-- What theorems assume of the numbers. Both sets of laws hold of finite floats, whose operations
-- round monotonically: `IsOrdered` has those of the order and of sums and products, `IsRounded`
-- adds those of quotients, fractions and integer parts.
use auto_trader_claude.Base.{ℕ, ◌≡◌, true, false, not, arith, ◌⊎◌, ok}
use auto_trader_claude.Number.Defs.{Number, lt, nought, min, abs}

infix 4 ◌≼◌
abbrev pub ◌≼◌ : {A : Type 0} ⦃n : Number A⦄ → A → A → Type 0
◌≼◌ ⦃n⦄ a b = n.le a b ≡ true

pub record IsOrdered (A : Type 0) ⦃n : Number A⦄ : Type 0 where
  pub le_trans : (a b c : A) → a ≼ b → b ≼ c → a ≼ c
  pub le_total : (a b : A) → (a ≼ b) ⊎ (b ≼ a)
  pub lt-eq-not-le : (a b : A) → n.lt a b ≡ not (n.le b a)
  -- rounding keeps the order of exact results
  pub mul_mono : (a b c : A) → nought ≼ c → a ≼ b → n.mul a c ≼ n.mul b c
  pub mul_nonneg : (a b : A) → nought ≼ a → nought ≼ b → nought ≼ n.mul a b
  pub le-add_right : (a b : A) → nought ≼ b → a ≼ n.add a b
  pub add_le : (a b : A) → b ≼ nought → n.add a b ≼ a
  pub sub_le : (a b : A) → nought ≼ b → n.sub a b ≼ a
  pub of_ℕ_nonneg : (k : ℕ) → nought ≼ n.of_ℕ k
  pub sub_nonneg : (a b : A) → b ≼ a → nought ≼ n.sub a b
  pub neg_nonpos : (a : A) → nought ≼ a → n.neg a ≼ nought
  pub neg_nonneg : (a : A) → a ≼ nought → nought ≼ n.neg a

pub record IsRounded (A : Type 0) ⦃n : Number A⦄ : Type 0 where
  pub ordered : IsOrdered A
  pub quotient_mono : (a b c : A) → n.lt nought c ≡ true → a ≼ b → n.quotient a c ≼ n.quotient b c
  pub quotient_nonneg : (a c : A) → n.lt nought c ≡ true → nought ≼ a → nought ≼ n.quotient a c
  -- a factor of at most one does not raise a number that is not negative
  pub mul_le : (a b : A) → nought ≼ a → nought ≼ b → b ≼ n.of_ℕ 1 → n.mul a b ≼ a
  -- the integer part is taken towards zero
  pub trunc_le : (a t : A) → nought ≼ a → n.trunc a ≡ ok t → t ≼ a

module _ {A : Type 0} ⦃n : Number A⦄ (laws : IsOrdered A) where
  open laws use {le_trans, le_total, lt-eq-not-le, le-add_right, neg_nonneg}

  pub le_refl : (a : A) → a ≼ a
  le_refl a = ground (arith, le_total a a)

  pub le_of_lt : (a b : A) → lt a b ≡ true → a ≼ b
  le_of_lt a b h = ground (arith, lt-eq-not-le a b, le_total a b)

  pub le_of_not_lt : (a b : A) → lt a b ≡ false → b ≼ a
  le_of_not_lt a b h = ground (arith, lt-eq-not-le a b)

  pub min_le_left : (a b : A) → min a b ≼ a
  min_le_left a b = ground (arith, le_of_lt b a, le_refl a)

  pub min_le_right : (a b : A) → min a b ≼ b
  min_le_right a b = ground (arith, le_of_not_lt b a, le_refl b)

  pub le_min : (a b c : A) → c ≼ a → c ≼ b → c ≼ min a b
  le_min a b c p q = ground arith

  pub abs_nonneg : (a : A) → nought ≼ abs a
  abs_nonneg a = ground (arith, le_of_lt a nought, le_of_not_lt a nought, neg_nonneg a)

  pub nonneg_of_not_le : (a : A) → n.le a nought ≡ false → nought ≼ a
  nonneg_of_not_le a h = ground (arith, le_total a nought)

  pub pos_of_not_le : (a : A) → n.le a nought ≡ false → lt nought a ≡ true
  pos_of_not_le a h = ground (arith, lt-eq-not-le nought a)

  pub not_le_of_pos : (a : A) → lt nought a ≡ true → n.le a nought ≡ false
  not_le_of_pos a h = ground (arith, lt-eq-not-le nought a)

  pub add_nonneg : (a b : A) → nought ≼ a → nought ≼ b → nought ≼ n.add a b
  add_nonneg a b p q = le_trans nought a (n.add a b) p (le-add_right a b q)
