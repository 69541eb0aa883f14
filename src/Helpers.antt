-- ===== src/Helpers.antt =====
-- modules/utils.go: merged maps and names that fit a limit. A text is ASCII here, so that its length
-- in bytes is the number of its characters.
pub mod Fits
use Prim.Native.Char.{Char, code}
use Prim.Native.String.{[], ◌∷◌}
use mathlib.Core.List
use entropy.Base.{
  ℕ, zero, suc, ◌+◌, ◌-◌, String, Bool, Option, none, some, ◌==◌, ltb, leb, eqb, if◌then◌else◌,
}
use entropy.Base.Dict.{Dict, GoMap, entries, copy_into}
use entropy.Base.Text.{◌<>◌}

-- The result is never nil.
unfoldable pub clone_and_merge_maps : GoMap String → GoMap String → Dict String
clone_and_merge_maps m1 m2 = copy_into (copy_into List.[] (entries m1)) (entries m2)

-- len(s)
unfoldable pub text_length : String → ℕ
text_length [] = 0
text_length (c ∷ s) = suc (text_length s)

abbrev pub cons_to : Char → Option String → Option String
cons_to c none = none
cons_to c (some s) = some (c ∷ s)

-- s[0:n], which panics beyond the end
unfoldable pub slice_to : ℕ → String → Option String
slice_to zero s = some ""
slice_to (suc n) [] = none
slice_to (suc n) (c ∷ s) = cons_to c (slice_to n s)

-- strings.TrimSuffix
unfoldable pub trim_suffix : String → String → String
trim_suffix suffix [] = []
trim_suffix suffix (c ∷ s) =
    let rest = trim_suffix suffix s in if (c ∷ s) == suffix then [] else c ∷ rest

unfoldable pub trim_left_hyphens : String → String
trim_left_hyphens [] = []
trim_left_hyphens (c ∷ s) =
    let rest = trim_left_hyphens s in if eqb (code c) b'-' then rest else c ∷ s

-- a character before what is left of the text behind it
abbrev pub before_hyphens : Char → String → String
before_hyphens c [] = if eqb (code c) b'-' then [] else c ∷ []
before_hyphens c (d ∷ s) = c ∷ d ∷ s

unfoldable pub trim_right_hyphens : String → String
trim_right_hyphens [] = []
trim_right_hyphens (c ∷ s) = before_hyphens c (trim_right_hyphens s)

-- strings.Trim(s, "-")
abbrev pub trim_hyphens : String → String
trim_hyphens s = trim_right_hyphens (trim_left_hyphens s)

abbrev pub joined : String → Option String → Option String
joined suffix none = none
joined suffix (some truncated) = some (trim_hyphens truncated <> suffix)

-- the name, cut to make room for the suffix with the hash
unfoldable pub truncated_name : String → String → ℕ → Option String
truncated_name name suffix max_len =
    if ltb max_len (text_length suffix)
    then none
    else joined suffix (slice_to (max_len - text_length suffix) name)

abbrev pub hashed_name : String → String → ℕ → Option String → Option String
hashed_name name suffix max_len none = none
hashed_name name suffix max_len (some hash) = truncated_name name ("-" <> hash <> suffix) max_len

-- `SafeName`, over the hexadecimal digest of SHA-256. `none` is a panic; the limit is not negative.
unfoldable pub safe_name : (String → String) → String → String → ℕ → Option String
safe_name hex name suffix max_len =
    let name = trim_suffix suffix name in
    if leb (text_length name + text_length suffix) max_len
    then some (name <> suffix)
    else hashed_name name suffix max_len (slice_to 6 (hex name))
