-- ===== src/Postgres/Tags/Laws.antt =====
-- internal/store/postgres/tags_model.go: labels come back from their tags.
use Prim.Native.Char.{code}
use text.Mathlib.TextLemmas.{nil-append, cons-append}
use entropy.Base.{
  ℕ, String, Bool, false, ◌||◌, some, List, [], ◌∷◌, ◌++◌, eqb, if◌then◌else◌, ◌≡◌, refl, sym, ◌∙◌,
  ap, arith, All, Bool-cases, inl, inr,
}
use entropy.Base.Dict.{Dict, insert, copy_into, HasUniqueKeys}
use entropy.Base.Dict.Keys.{copy_into_nil}
use entropy.Base.Text.{◌<>◌}
use entropy.Postgres.{TagRow}
use entropy.Postgres.Tags.{
  tags_of, without_tags, has_tag, add_tags, label_map_to_tags, split_tag, add_labels,
  tags_to_label_map,
}

-- a text without the sign that ends the key of a tag
unfoldable pub has_equals : String → Bool
has_equals String.[] = false
has_equals (String.◌∷◌ c s) = let rest = has_equals s in eqb (code c) 61 || rest

pub split_tag_of : (k v : String) → has_equals k ≡ false → split_tag (k <> "=" <> v) ≡ some (k, v)
unfolding split_tag has_equals
split_tag_of String.[] v h = rw (nil-append, cons-append, nil-append v) refl
split_tag_of (String.◌∷◌ c s) v h = elim (Bool-cases (eqb (code c) 61)) [
  | inl equals ↦ absurd (ground arith)
  | inr other ↦ rw (cons-append, other, split_tag_of s v (ground arith)) refl
]

pub tags_of-without_tags :
    (i id : ℕ) (rows : List TagRow)
    → tags_of i (without_tags id rows) ≡ (if eqb i id then [] else tags_of i rows)
unfolding tags_of without_tags
tags_of-without_tags i id [] = ground arith
tags_of-without_tags i id (row ∷ rows) = ground (arith, tags_of-without_tags i id rows)

abbrev more : ℕ → ℕ → List String → List String → List String
more i id new old = if eqb i id then old ++ new else old

append_one : {A : Type 0} (x : A) (xs ys : List A) → (xs ++ (x ∷ [])) ++ ys ≡ xs ++ (x ∷ ys)
append_one x [] ys = refl
append_one x (y ∷ xs) ys = ap (λ l. y ∷ l) (append_one x xs ys)

append_nil : {A : Type 0} (xs : List A) → xs ++ [] ≡ xs
append_nil [] = refl
append_nil (x ∷ xs) = ap (λ l. x ∷ l) (append_nil xs)

tags_of-append_one :
    (i id : ℕ) (tag : String) (rows : List TagRow)
    → tags_of i (rows ++ (record { owner_id = id; tag = tag } ∷ []))
      ≡ more i id (tag ∷ []) (tags_of i rows)
unfolding tags_of
tags_of-append_one i id tag [] = ground arith
tags_of-append_one i id tag (row ∷ rows) = ground (arith, tags_of-append_one i id tag rows)

more_again :
    (i id : ℕ) (tag : String) (new old : List String)
    → more i id new (more i id (tag ∷ []) old) ≡ more i id (tag ∷ new) old
more_again i id tag new old = elim (Bool-cases (eqb i id)) [
  | inl same ↦ rw same (append_one tag old new)
  | inr other ↦ rw other refl
]

more_nil : (i id : ℕ) (old : List String) → more i id [] old ≡ old
more_nil i id old = elim (Bool-cases (eqb i id)) [
  | inl same ↦ rw same (append_nil old)
  | inr other ↦ rw other refl
]

some-inj : {A : Type 0} {a b : A} → some a ≡ some b → a ≡ b
some-inj e = ground arith

pub tags_of-add_tags :
    (i id : ℕ) (tags : List String) (rows rows' : List TagRow)
    → add_tags id tags rows ≡ some rows'
    → tags_of i rows' ≡ more i id tags (tags_of i rows)
unfolding add_tags
tags_of-add_tags i id [] rows rows' e =
    ap (tags_of i) (sym (some-inj e)) ∙ sym (more_nil i id (tags_of i rows))
tags_of-add_tags i id (tag ∷ tags) rows rows' e = elim (Bool-cases (has_tag id tag rows)) [
  | inl twice ↦ absurd (ground arith)
  | inr fresh ↦
      tags_of-add_tags i id tags _ rows' (ground arith)
      ∙ ap (more i id tags) (tags_of-append_one i id tag rows)
      ∙ more_again i id tag tags (tags_of i rows)
]

-- no key has the sign that ends it
abbrev pub HasPlainKeys : Dict String → Type 0
HasPlainKeys = All (λ label. has_equals label.0 ≡ false)

add_labels-tags :
    (labels acc : Dict String)
    → HasPlainKeys labels
    → add_labels (label_map_to_tags labels) acc ≡ some (copy_into acc labels)
unfolding add_labels label_map_to_tags copy_into
add_labels-tags [] acc h = refl
add_labels-tags ((k, v) ∷ labels) acc (plain, h) =
    rw (split_tag_of k v plain) (add_labels-tags labels (insert k v acc) h)

-- labels whose keys are plain come back from their tags
pub tags_to_label_map-tags :
    (labels : Dict String)
    → HasPlainKeys labels
    → HasUniqueKeys labels
    → tags_to_label_map (label_map_to_tags labels) ≡ some labels
unfolding tags_to_label_map
tags_to_label_map-tags labels plain u =
    add_labels-tags labels [] plain ∙ ap some (copy_into_nil labels u)
