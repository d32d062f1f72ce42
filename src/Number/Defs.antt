-- ===== src/Number/Defs.antt =====
-- Operations on numbers, and Python's `min`, `max`, `abs` and `/` over them.
use Prim.Native.Nat.{ℕ}
use Prim.Native.String.{String}
use auto_trader_claude.Base.{Bool, false, not, Outcome, ok, raised, Exn, if◌then◌else◌}

pub record Number (A : Type 0) : Type 0 where
  pub of_ℕ : ℕ → A
  -- the literal with `n` as its digits and `k` of them behind the point
  pub decimal : ℕ → ℕ → A
  pub add : A → A → A
  pub sub : A → A → A
  pub mul : A → A → A
  -- the quotient by a number that is not zero
  pub quotient : A → A → A
  pub neg : A → A
  -- `a ** b`, which raises on overflow; a power that is complex raises too, since every caller
  -- compares it with a float next
  pub pow : A → A → Outcome A
  -- `float(int(a))`, which raises where `a` has no integer part
  pub trunc : A → Outcome A
  pub lt : A → A → Bool
  pub le : A → A → Bool
  -- `str(a)` and the format `{a:.nf}`
  pub show : A → String
  pub format : ℕ → A → String

abbrev pub zero_division : Exn
zero_division = record { kind = "ZeroDivisionError"; message = "float division by zero" }

module _ {A : Type 0} ⦃n : Number A⦄ where
  infixl 65 ◌+◌ ◌-◌
  infixl 70 ◌*◌
  abbrev pub ◌+◌ : A → A → A
  a + b = n.add a b

  abbrev pub ◌-◌ : A → A → A
  a - b = n.sub a b

  abbrev pub ◌*◌ : A → A → A
  a * b = n.mul a b

  abbrev pub lt : A → A → Bool
  lt a b = n.lt a b

  abbrev pub le : A → A → Bool
  le a b = n.le a b

  abbrev pub literal : ℕ → A
  literal k = n.of_ℕ k

  abbrev pub decimal : ℕ → ℕ → A
  decimal d k = n.decimal d k

  abbrev pub quotient : A → A → A
  quotient a b = n.quotient a b

  abbrev pub neg : A → A
  neg a = n.neg a

  abbrev pub show : A → String
  show a = n.show a

  abbrev pub nought : A
  nought = n.of_ℕ 0

  -- `min(a, b)` and `max(a, b)`: the first argument on a tie
  abbrev pub min : A → A → A
  min a b = if n.lt b a then b else a

  abbrev pub max : A → A → A
  max a b = if n.lt a b then b else a

  abbrev pub abs : A → A
  abs a = if n.lt a (n.of_ℕ 0) then n.neg a else a

  -- neither below nor above zero
  abbrev pub is_zero : A → Bool
  is_zero a = if n.lt a (n.of_ℕ 0) then false else not (n.lt (n.of_ℕ 0) a)

  -- `a / b`
  abbrev pub divide : A → A → Outcome A
  divide a b = if is_zero b then raised zero_division else ok (n.quotient a b)
