-- ===== src/Base/Text.antt =====
-- Texts: what the program uses of Go's `strings`, over code points.
use Prim.Native.Char.{Char, code}
use Prim.Native.String
use Prim.Native.String.{String, [], ◌∷◌}
use Prim.Native.Nat.{ℕ}
use mathlib.Core.List.{List}
use mathlib.Core.Bool.{Bool, ◌&&◌, ◌||◌}
use entropy.Base.Tests.{leb, eqb, if◌then◌else◌}

infixr 66 ◌<>◌
-- Go's `+` on strings
abbrev pub ◌<>◌ : String → String → String
s <> t = String.◌++◌ s t

-- unicode.IsSpace
pub is_space : ℕ → Bool
is_space c =
    (leb 9 c && leb c 13)
    || eqb c 32
    || eqb c 0x85
    || eqb c 0xA0
    || eqb c 0x1680
    || (leb 0x2000 c && leb c 0x200a)
    || eqb c 0x2028
    || eqb c 0x2029
    || eqb c 0x202f
    || eqb c 0x205f
    || eqb c 0x3000

unfoldable pub trim_left : String → String
unfolding is_space
trim_left [] = []
trim_left (c ∷ s) = let rest = trim_left s in if is_space (code c) then rest else c ∷ s

-- a character before what is left of the text behind it
trim_end : Char → String → String
unfolding is_space
trim_end c [] = if is_space (code c) then [] else c ∷ []
trim_end c (d ∷ s) = c ∷ d ∷ s

unfoldable pub trim_right : String → String
unfolding trim_end
trim_right [] = []
trim_right (c ∷ s) = trim_end c (trim_right s)

-- strings.TrimSpace
unfoldable pub trim_space : String → String
unfolding trim_left trim_right
trim_space s = trim_right (trim_left s)

-- strings.Join
unfoldable pub join : String → List String → String
join sep List.[] = ""
join sep (List.◌∷◌ s List.[]) = s
join sep (List.◌∷◌ s (List.◌∷◌ t rest)) = s <> sep <> join sep (List.◌∷◌ t rest)
