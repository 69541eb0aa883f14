-- ===== src/Base/Dict/Keys.antt =====
-- Maps hold each key once, and the operations on maps keep it so.
use Prim.Native.String.{String}
use mathlib.Core.Path.{◌≡◌, refl, ap, ◌∙◌}
use mathlib.Core.Bool.{false, ◌||◌}
use mathlib.Core.List.{[], ◌∷◌, ◌++◌}
use native.Mathlib.Omega.{arith}
use text.Mathlib.Text.{◌==◌}
use text.Mathlib.TextEquality.{eq_iff}
use entropy.Base.Dict.{Dict, insert, copy_into, has_key, HasUniqueKeys}

module _ {ℓ} {V : Type ℓ} where
  pub has_key-insert :
      (k j : String) (v : V) (m : Dict V) → has_key j (insert k v m) ≡ (k == j || has_key j m)
  unfolding has_key insert
  has_key-insert k j v [] = refl
  has_key-insert k j v ((i, w) ∷ m) =
      ground (arith, has_key-insert k j v m, eq_iff k j, eq_iff i k, eq_iff i j)

  pub insert-HasUniqueKeys :
      (k : String) (v : V) (m : Dict V) → HasUniqueKeys m → HasUniqueKeys (insert k v m)
  unfolding has_key insert
  insert-HasUniqueKeys k v [] u = (refl, tt)
  insert-HasUniqueKeys k v ((i, w) ∷ m) (fresh, u) =
      ground (arith, insert-HasUniqueKeys k v m u, has_key-insert k i v m, eq_iff i k, eq_iff k i)

  pub copy_into-HasUniqueKeys :
      (res m : Dict V) → HasUniqueKeys res → HasUniqueKeys (copy_into res m)
  unfolding copy_into
  copy_into-HasUniqueKeys res [] u = u
  copy_into-HasUniqueKeys res ((k, v) ∷ m) u =
      copy_into-HasUniqueKeys (insert k v res) m (insert-HasUniqueKeys k v res u)

  insert_new :
      (k : String) (v : V) (m : Dict V) → has_key k m ≡ false → insert k v m ≡ m ++ ((k, v) ∷ [])
  unfolding insert has_key
  insert_new k v [] h = refl
  insert_new k v ((j, w) ∷ m) h = ground (arith, insert_new k v m, eq_iff j k)

  append_cons :
      (k : String) (v : V) (res m : Dict V) → (res ++ ((k, v) ∷ [])) ++ m ≡ res ++ ((k, v) ∷ m)
  append_cons k v [] m = refl
  append_cons k v (e ∷ res) m = ap (λ l. e ∷ l) (append_cons k v res m)

  -- no key of one map is a key of the other
  abbrev AreApart : Dict V → Dict V → Type 0
  AreApart res [] = Unit
  AreApart res ((k, v) ∷ m) = (has_key k res ≡ false) × AreApart res m

  AreApart-insert :
      (k : String) (v : V) (res m : Dict V)
      → has_key k m ≡ false
      → AreApart res m
      → AreApart (insert k v res) m
  unfolding has_key
  AreApart-insert k v res [] h a = tt
  AreApart-insert k v res ((j, w) ∷ m) h (new, a) =
      ground (arith, has_key-insert k j v res, AreApart-insert k v res m, eq_iff k j, eq_iff j k)

  copy_into-append :
      (res m : Dict V) → HasUniqueKeys m → AreApart res m → copy_into res m ≡ res ++ m
  unfolding copy_into
  copy_into-append res [] u a = ground (arith, append_nil res)
    where
      append_nil : (r : Dict V) → r ≡ r ++ []
      append_nil [] = refl
      append_nil (e ∷ r) = ap (λ l. e ∷ l) (append_nil r)
  copy_into-append res ((k, v) ∷ m) (fresh, u) (new, a) =
      copy_into-append (insert k v res) m u (AreApart-insert k v res m fresh a)
      ∙ ap (λ r. r ++ m) (insert_new k v res new)
      ∙ append_cons k v res m

  apart_nil : (m : Dict V) → AreApart [] m
  unfolding has_key
  apart_nil [] = tt
  apart_nil ((k, v) ∷ m) = (refl, apart_nil m)

  -- a map with unique keys is its own copy
  pub copy_into_nil : (m : Dict V) → HasUniqueKeys m → copy_into [] m ≡ m
  copy_into_nil m u = copy_into-append [] m u (apart_nil m)
