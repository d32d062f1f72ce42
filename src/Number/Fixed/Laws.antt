-- ===== src/Number/Fixed/Laws.antt =====
-- The laws of the fixed-point numbers.
use Prim.Native.Nat.{ℕ, ◌*◌, ◌/◌, ◌≤◌, ◌<◌, suc}
use auto_trader_claude.Base.{◌≡◌, true, ok, arith}
use auto_trader_claude.Number.Order.{IsOrdered, IsRounded, ◌≼◌}
use auto_trader_claude.Number.Fixed.Defs.{
  ℤ, pos, negsuc, fixed_number, mul_ℤ, quotient_ℤ, lt_ℤ, scale,
}

mul-le-mul : (a b c : ℕ) → a ≤ b → a * c / scale ≤ b * c / scale
mul-le-mul a b c h = grind arith

mul_ℤ_mono : (a b c : ℤ) → pos 0 ≼ c → a ≼ b → mul_ℤ a c ≼ mul_ℤ b c
mul_ℤ_mono (pos a) (pos b) (pos c) p h = ground (arith, mul-le-mul a b c)
mul_ℤ_mono (negsuc a) (negsuc b) (pos c) p h = ground (arith, mul-le-mul (suc b) (suc a) c)
mul_ℤ_mono a b c p h = ground arith

mul_ℤ_nonneg : (a b : ℤ) → pos 0 ≼ a → pos 0 ≼ b → pos 0 ≼ mul_ℤ a b
mul_ℤ_nonneg a b p q = ground arith

pub fixed-IsOrdered : IsOrdered ℤ
fixed-IsOrdered = record {
  le_trans = λ a b c p q. ground arith;
  le_total = λ a b. ground arith;
  lt-eq-not-le = λ a b. ground arith;
  mul_mono = mul_ℤ_mono;
  mul_nonneg = mul_ℤ_nonneg;
  le-add_right = λ a b p. ground arith;
  add_le = λ a b p. ground arith;
  sub_le = λ a b p. ground arith;
  of_ℕ_nonneg = λ k. ground arith;
  sub_nonneg = λ a b p. ground arith;
  neg_nonpos = λ a p. ground arith;
  neg_nonneg = λ a p. ground arith;
}

quotient-le-quotient : (a b s : ℕ) → 0 < s → a ≤ b → a * scale / s ≤ b * scale / s
quotient-le-quotient a b s p h = grind arith

quotient_ℤ_mono : (a b c : ℤ) → lt_ℤ (pos 0) c ≡ true → a ≼ b → quotient_ℤ a c ≼ quotient_ℤ b c
quotient_ℤ_mono (pos a) (pos b) (pos c) p h = ground (arith, quotient-le-quotient a b c)
quotient_ℤ_mono (negsuc a) (negsuc b) (pos c) p h =
    ground (arith, quotient-le-quotient (suc b) (suc a) c)
quotient_ℤ_mono a b c p h = ground arith

mul-le : (a b : ℕ) → b ≤ scale → a * b / scale ≤ a
mul-le a b h = grind arith

mul_le_ℤ : (a b : ℤ) → pos 0 ≼ a → pos 0 ≼ b → b ≼ pos scale → mul_ℤ a b ≼ a
mul_le_ℤ (pos a) (pos b) p q h = ground (arith, mul-le a b)
mul_le_ℤ a b p q h = ground arith

trunc_le_ℤ : (a t : ℤ) → pos 0 ≼ a → fixed_number.trunc a ≡ ok t → t ≼ a
trunc_le_ℤ (pos a) t p h = ground arith
trunc_le_ℤ (negsuc a) t p h = ground arith

pub fixed-IsRounded : IsRounded ℤ
fixed-IsRounded = record {
  ordered = fixed-IsOrdered;
  quotient_mono = quotient_ℤ_mono;
  quotient_nonneg = λ a c p q. ground arith;
  mul_le = mul_le_ℤ;
  trunc_le = trunc_le_ℤ;
}
