-- ===== src/Core/Write/Labels.antt =====
-- `mergeLabels` of core/write.go.
use entropy.Base.{
  String, Bool, false, Option, none, some, [], ◌∷◌, ◌≡◌, refl, ◌∙◌, ap, ◌↔◌, arith, ◌==◌, eq_iff,
  if◌then◌else◌,
}
use entropy.Base.Dict.{
  Dict, GoMap, entries, lookup, remove, copy_into, HasUniqueKeys, or_else, lookup-remove,
  lookup-copy_into, lookup_of_not_has_key,
}
use entropy.Base.Dict.Keys.{copy_into-HasUniqueKeys}
use entropy.Core.Write.{drop_empty, merge_labels}

-- A label with an empty value counts as no label.
abbrev pub non_empty : Option String → Option String
non_empty none = none
non_empty (some v) = if v == "" then none else some v

abbrev is_blank : Option String → Bool
is_blank none = false
is_blank (some v) = v == ""

lookup-drop_empty :
    (k : String) (m res : Dict String)
    → HasUniqueKeys m
    → lookup k (drop_empty m res) ≡ (if is_blank (lookup k m) then none else lookup k res)
unfolding drop_empty lookup
lookup-drop_empty k [] res u = refl
lookup-drop_empty k ((j, v) ∷ m) res (fresh, u) = ground (
  arith,
  lookup-drop_empty k m (remove j res) u,
  lookup-drop_empty k m res u,
  lookup-remove j k res,
  lookup_of_not_has_key j m fresh,
  eq_iff j k,
)

lookup-drop_empty_self :
    (k : String) (m : Dict String)
    → HasUniqueKeys m
    → lookup k (drop_empty m m) ≡ non_empty (lookup k m)
lookup-drop_empty_self k m u = ground (arith, lookup-drop_empty k m m u)

or_else-none : (o : Option String) → or_else o none ≡ o
or_else-none none = refl
or_else-none (some v) = refl

lookup-merged :
    (k : String) (m1 m2 : Dict String)
    → HasUniqueKeys m1
    → HasUniqueKeys m2
    → (let res = copy_into (copy_into [] m1) m2 in lookup k (drop_empty res res))
      ≡ non_empty (or_else (lookup k m2) (lookup k m1))
lookup-merged k m1 m2 u1 u2 =
    let first = copy_into [] m1 in
    let unique = copy_into-HasUniqueKeys first m2 (copy_into-HasUniqueKeys [] m1 tt) in
    lookup-drop_empty_self k (copy_into first m2) unique
    ∙ ap non_empty (
        lookup-copy_into k first m2 u2
        ∙ ap (or_else (lookup k m2)) (lookup-copy_into k [] m1 u1 ∙ no_more))
  where
    no_more : or_else (lookup k m1) (lookup k []) ≡ lookup k m1
    no_more = unfold lookup in or_else-none (lookup k m1)

-- For every key of two maps that have each key once, the merged labels hold the value of the second
-- map, or else that of the first, and nothing where that value is empty; and the merge is nil exactly
-- where both maps are nil.
pub lookup-merge_labels :
    (k : String) (m1 m2 : GoMap String)
    → HasUniqueKeys (entries m1)
    → HasUniqueKeys (entries m2)
    → (lookup k (entries (merge_labels m1 m2))
        ≡ non_empty (or_else (lookup k (entries m2)) (lookup k (entries m1))))
      × ((merge_labels m1 m2 ≡ none) ↔ ((m1 ≡ none) × (m2 ≡ none)))
unfolding merge_labels
lookup-merge_labels k none none u1 u2 = (unfold lookup in refl, (λ e. (refl, refl), λ e. refl))
lookup-merge_labels k none (some m) u1 u2 = (lookup-merged k [] m u1 u2, (λ e. cc, λ e. cc (e.1)))
lookup-merge_labels k (some m) none u1 u2 = (lookup-merged k m [] u1 u2, (λ e. cc, λ e. cc (e.0)))
lookup-merge_labels k (some m) (some n) u1 u2 =
    (lookup-merged k m n u1 u2, (λ e. cc, λ e. cc (e.0)))
