-- ===== src/Base/Text.antt =====
-- The parts of Python's `str` that the program uses.
use Prim.Native.Nat.{ℕ}
use Prim.Native.Char.{code}
use Prim.Native.String.{String, ◌++◌}
use mathlib.Core.Bool.{Bool, true, false, ◌||◌}
use auto_trader_claude.Base.Tests.{◌==◌, if◌then◌else◌}

infixr 66 ◌<>◌
abbrev pub ◌<>◌ : String → String → String
s <> t = s ++ t

-- `c in s`, for a character given by its code
abbrev pub has : ℕ → String → Bool
has c String.[] = false
has c (String.◌∷◌ d s) = code d == c || has c s

-- `s.split(c)[0]`
abbrev pub before : ℕ → String → String
before c String.[] = String.[]
before c (String.◌∷◌ d s) =
    let rest = before c s in if code d == c then String.[] else String.◌∷◌ d rest

-- what follows the first `c`; empty if there is none
abbrev pub after : ℕ → String → String
after c String.[] = String.[]
after c (String.◌∷◌ d s) = let rest = after c s in if code d == c then s else rest

-- `bool(s)`
abbrev pub truthy : String → Bool
truthy String.[] = false
truthy (String.◌∷◌ _ _) = true
