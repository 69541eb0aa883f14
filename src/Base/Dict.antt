-- ===== src/Base/Dict.antt =====
-- Go's `map[string]V` as an association list. The order of the entries stands for the order in
-- which `range` happens to visit them.
pub mod Keys
use Prim.Native.String.{String}
use mathlib.Core.Path.{◌≡◌, refl}
use mathlib.Core.Bool.{Bool, true, false, ◌||◌}
use mathlib.Core.Option.{Option, none, some}
use mathlib.Core.List.{List, [], ◌∷◌}
use native.Mathlib.Omega.{arith}
use text.Mathlib.Text.{◌==◌}
use text.Mathlib.TextEquality.{eq_iff}
use entropy.Base.Tests.{if◌then◌else◌}

abbrev pub Dict {ℓ} : Type ℓ → Type ℓ
Dict V = List (String × V)

module _ {ℓ} {V : Type ℓ} where
  -- v, ok := m[key]
  unfoldable pub lookup : String → Dict V → Option V
  lookup key [] = none
  lookup key ((name, v) ∷ rest) = if name == key then some v else lookup key rest

  -- delete(m, k)
  unfoldable pub remove : String → Dict V → Dict V
  remove k [] = []
  remove k ((j, w) ∷ m) = let rest = remove k m in if j == k then rest else (j, w) ∷ rest

  abbrev pub is_some : Option V → Bool
  is_some none = false
  is_some (some v) = true

  abbrev pub or_zero : V → Option V → V
  or_zero z none = z
  or_zero z (some v) = v

  -- the later of two writes of one key
  abbrev pub or_else : Option V → Option V → Option V
  or_else none o = o
  or_else (some v) o = some v

  -- m[key] = v
  unfoldable pub insert : String → V → Dict V → Dict V
  insert key v [] = (key, v) ∷ []
  insert key v ((name, old) ∷ rest) =
      if name == key then (key, v) ∷ rest else (name, old) ∷ insert key v rest

  pub lookup-insert :
      (key asked : String) (v : V) (dict : Dict V)
      → lookup asked (insert key v dict) ≡ (if key == asked then some v else lookup asked dict)
  unfolding insert lookup
  lookup-insert key asked v [] = refl
  lookup-insert key asked v ((name, old) ∷ rest) =
      ground (
        arith,
        lookup-insert key asked v rest,
        eq_iff name key,
        eq_iff name asked,
        eq_iff key asked,
      )

  pub lookup-remove :
      (k j : String) (m : Dict V) → lookup j (remove k m) ≡ (if k == j then none else lookup j m)
  unfolding lookup remove
  lookup-remove k j [] = ground arith
  lookup-remove k j ((i, w) ∷ m) =
      ground (arith, lookup-remove k j m, eq_iff i k, eq_iff i j, eq_iff k j)

  -- `for k, v := range m { res[k] = v }`
  unfoldable pub copy_into : Dict V → Dict V → Dict V
  copy_into res [] = res
  copy_into res ((k, v) ∷ m) = copy_into (insert k v res) m

  -- a map has each key once
  unfoldable pub has_key : String → Dict V → Bool
  has_key k [] = false
  has_key k ((j, v) ∷ m) = j == k || has_key k m

  abbrev pub HasUniqueKeys : Dict V → Type 0
  HasUniqueKeys [] = Unit
  HasUniqueKeys ((k, v) ∷ m) = (has_key k m ≡ false) × HasUniqueKeys m

  pub lookup_of_not_has_key : (k : String) (m : Dict V) → has_key k m ≡ false → lookup k m ≡ none
  unfolding lookup has_key
  lookup_of_not_has_key k [] h = refl
  lookup_of_not_has_key k ((j, v) ∷ m) h = ground (arith, lookup_of_not_has_key k m)

  -- a copy holds the entries of the source, and keeps the others
  pub lookup-copy_into :
      (k : String) (res m : Dict V)
      → HasUniqueKeys m
      → lookup k (copy_into res m) ≡ or_else (lookup k m) (lookup k res)
  unfolding copy_into lookup
  lookup-copy_into k res [] u = refl
  lookup-copy_into k res ((j, v) ∷ m) (fresh, u) = ground (
    arith,
    lookup-copy_into k (insert j v res) m u,
    lookup-insert j k v res,
    lookup_of_not_has_key j m fresh,
    eq_iff j k,
  )

pub ruleset dict_laws = (lookup-insert, lookup-remove)

-- A map that may be nil; reading a nil map finds nothing.
abbrev pub GoMap {ℓ} : Type ℓ → Type ℓ
GoMap V = Option (Dict V)

abbrev pub entries {ℓ} : {V : Type ℓ} → GoMap V → Dict V
entries none = []
entries (some m) = m
