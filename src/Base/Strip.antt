-- ===== src/Base/Strip.antt =====
-- `str.strip`, `str.lower`, `str.upper`, `str.split` and prefixes of Python, on ASCII texts.
use Prim.Native.Nat.{ℕ, zero, suc, ◌-◌}
use Prim.Native.Char.{Char, code}
use Prim.Native.String.{String}
use mathlib.Core.Bool.{Bool, false, not, ◌&&◌, ◌||◌}
use mathlib.Core.List.{List, [], ◌∷◌}
use auto_trader_claude.Base.Tests.{leb, ◌==◌, if◌then◌else◌}
use auto_trader_claude.Base.Text.{truthy}

abbrev is_space : Char → Bool
is_space c = (leb 9 (code c) && leb (code c) 13) || (leb 28 (code c) && leb (code c) 32)

abbrev lstrip : String → String
lstrip String.[] = String.[]
lstrip (String.◌∷◌ c s) = let rest = lstrip s in if is_space c then rest else String.◌∷◌ c s

abbrev rstrip : String → String
rstrip String.[] = String.[]
rstrip (String.◌∷◌ c s) =
    let rest = rstrip s in if is_space c && not (truthy rest) then String.[] else String.◌∷◌ c rest

-- `s.strip()`
unfoldable pub strip : String → String
strip s = rstrip (lstrip s)

abbrev nth : ℕ → String → Char → Char
nth k String.[] default = default
nth zero (String.◌∷◌ c s) default = c
nth (suc k) (String.◌∷◌ c s) default = nth k s default

abbrev lower_char : Char → Char
lower_char c =
    if leb 65 (code c) && leb (code c) 90
    then nth (code c - 65) "abcdefghijklmnopqrstuvwxyz" c
    else c

-- `s.lower()`
unfoldable pub lower : String → String
lower String.[] = String.[]
lower (String.◌∷◌ c s) = String.◌∷◌ (lower_char c) (lower s)

abbrev onto_first : Char → List String → List String
onto_first c [] = String.◌∷◌ c String.[] ∷ []
onto_first c (s ∷ parts) = String.◌∷◌ c s ∷ parts

-- `s.split(c)`
unfoldable pub split : ℕ → String → List String
split c String.[] = String.[] ∷ []
split c (String.◌∷◌ d s) =
    let rest = split c s in if code d == c then String.[] ∷ rest else onto_first d rest

abbrev upper_char : Char → Char
upper_char c =
    if leb 97 (code c) && leb (code c) 122
    then nth (code c - 97) "ABCDEFGHIJKLMNOPQRSTUVWXYZ" c
    else c

-- `s.upper()`
unfoldable pub upper : String → String
upper String.[] = String.[]
upper (String.◌∷◌ c s) = String.◌∷◌ (upper_char c) (upper s)

-- `s.startswith(p) and len(s) > len(p)`
unfoldable pub extends : String → String → Bool
extends String.[] s = truthy s
extends (String.◌∷◌ c p) String.[] = false
extends (String.◌∷◌ c p) (String.◌∷◌ d s) = (code c == code d) && extends p s
