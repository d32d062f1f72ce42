-- ===== src/Number/Fixed/Defs.antt =====
-- Integers in units of a millionth, and their operations.
use Prim.Native.Nat.{ℕ, ◌+◌, ◌-◌, ◌*◌, ◌/◌, ◌%◌, ◌^◌, zero, suc}
use auto_trader_claude.Base.{Bool, Outcome, ok, ltb, leb, if◌then◌else◌, String, ◌<>◌, ◌==◌}
use auto_trader_claude.Number.Defs.{Number}

-- `negsuc n` is -(n + 1)
pub data ℤ : Type 0 where
  pos : ℕ → ℤ
  negsuc : ℕ → ℤ

abbrev pub scale : ℕ
scale = 1_000_000

abbrev pub minus : ℕ → ℤ
minus zero = pos 0
minus (suc n) = negsuc n

-- a - b, as an integer
abbrev pub sub_ℕ : ℕ → ℕ → ℤ
sub_ℕ a b = if leb b a then pos (a - b) else negsuc (b - a - 1)

abbrev pub pos_part : ℤ → ℕ
pos_part (pos n) = n
pos_part (negsuc _) = 0

abbrev pub neg_part : ℤ → ℕ
neg_part (pos _) = 0
neg_part (negsuc n) = suc n

abbrev pub add_ℤ : ℤ → ℤ → ℤ
add_ℤ a b = sub_ℕ (pos_part a + pos_part b) (neg_part a + neg_part b)

abbrev pub sub_ℤ : ℤ → ℤ → ℤ
sub_ℤ a b = sub_ℕ (pos_part a + neg_part b) (neg_part a + pos_part b)

abbrev pub neg_ℤ : ℤ → ℤ
neg_ℤ (pos n) = minus n
neg_ℤ (negsuc n) = pos (suc n)

abbrev pub mul_ℤ : ℤ → ℤ → ℤ
mul_ℤ (pos a) (pos b) = pos (a * b / scale)
mul_ℤ (pos a) (negsuc b) = minus (a * suc b / scale)
mul_ℤ (negsuc a) (pos b) = minus (suc a * b / scale)
mul_ℤ (negsuc a) (negsuc b) = pos (suc a * suc b / scale)

abbrev pub quotient_ℤ : ℤ → ℤ → ℤ
quotient_ℤ (pos a) (pos b) = pos (a * scale / b)
quotient_ℤ (pos a) (negsuc b) = minus (a * scale / suc b)
quotient_ℤ (negsuc a) (pos b) = minus (suc a * scale / b)
quotient_ℤ (negsuc a) (negsuc b) = pos (suc a * scale / suc b)

abbrev pub trunc_ℤ : ℤ → ℤ
trunc_ℤ (pos a) = pos (a / scale * scale)
trunc_ℤ (negsuc a) = minus (suc a / scale * scale)

abbrev pub lt_ℤ : ℤ → ℤ → Bool
lt_ℤ a b = ltb (pos_part a + neg_part b) (pos_part b + neg_part a)

abbrev pub le_ℤ : ℤ → ℤ → Bool
le_ℤ a b = leb (pos_part a + neg_part b) (pos_part b + neg_part a)

-- powers with a whole exponent, the fraction dropped
pow_ℕ : ℤ → ℕ → ℤ
pow_ℕ a zero = pos scale
pow_ℕ a (suc k) = mul_ℤ a (pow_ℕ a k)

digit : ℕ → String
digit d =
    if d == 0
    then "0"
    else if d == 1
    then "1"
    else if d == 2
    then "2"
    else if d == 3
    then "3"
    else if d == 4
    then "4"
    else if d == 5
    then "5"
    else if d == 6
    then "6"
    else if d == 7
    then "7"
    else if d == 8
    then "8"
    else "9"

-- the last `f` digits
digits : ℕ → ℕ → String
digits zero n = ""
digits (suc f) n = digits f (n / 10) <> digit (n % 10)

unfoldable pub show_ℤ : ℤ → String
unfolding digits digit
show_ℤ a =
    (if ltb 0 (neg_part a) then "-" else "")
    <> digits 6 ((pos_part a + neg_part a) / scale)
    <> "."
    <> digits 6 ((pos_part a + neg_part a) % scale)

unfoldable pub pow_ℤ : ℤ → ℤ → Outcome ℤ
unfolding pow_ℕ
pow_ℤ a b = ok (pow_ℕ a (pos_part b / scale))

instance abbrev pub fixed_number : Number ℤ
fixed_number = record {
  of_ℕ = λ k. pos (k * scale);
  decimal = λ d k. pos (d * scale / 10 ^ k);
  add = add_ℤ;
  sub = sub_ℤ;
  mul = mul_ℤ;
  quotient = quotient_ℤ;
  neg = neg_ℤ;
  pow = pow_ℤ;
  trunc = λ a. ok (trunc_ℤ a);
  lt = lt_ℤ;
  le = le_ℤ;
  show = show_ℤ;
  format = λ _. show_ℤ;
}
