-- ===== src/Resource/Naming.antt =====
-- The naming patterns of core/resource/resource.go.
use Prim.Native.Char.{code}
use Prim.Native.String.{String, [], ◌∷◌}
use entropy.Base.{ℕ, Bool, true, false, ◌&&◌, ◌||◌}
use entropy.Base.{leb, eqb}

abbrev pub naming_pattern : String
naming_pattern = "^[A-Za-z][A-Za-z0-9_-]+$"

abbrev pub naming_pattern_digits : String
naming_pattern_digits = "^\\d*[A-Za-z0-9_-]+$"

-- [A-Za-z]
unfoldable pub is_letter : ℕ → Bool
is_letter c = (leb b'A' c && leb c b'Z') || (leb b'a' c && leb c b'z')

-- [A-Za-z0-9_-]
unfoldable pub is_name_char : ℕ → Bool
is_name_char c = is_letter c || (leb b'0' c && leb c b'9') || eqb c b'_' || eqb c b'-'

-- [A-Za-z0-9_-]*
unfoldable pub all_name_chars : String → Bool
all_name_chars [] = true
all_name_chars (c ∷ s) = is_name_char (code c) && all_name_chars s

-- [A-Za-z0-9_-]+
unfoldable pub some_name_chars : String → Bool
some_name_chars [] = false
some_name_chars (c ∷ s) = is_name_char (code c) && all_name_chars s

-- namingPattern.MatchString
unfoldable pub matches_naming : String → Bool
matches_naming [] = false
matches_naming (c ∷ s) = is_letter (code c) && some_name_chars s

-- namingPatternStartingWithDigits.MatchString: the digits that `\d*` may take are also characters of
-- the class behind it, so a text matches exactly if it matches the class
unfoldable pub matches_naming_digits : String → Bool
matches_naming_digits s = some_name_chars s
