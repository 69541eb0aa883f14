-- ===== src/Resource/Filter/Laws.antt =====
-- `Filter.Apply` of core/resource/resource.go.
use mathlib.Core.List.{Memᴰ}
use entropy.Base.{
  String, true, List, [], ◌∷◌, ◌≡◌, refl, ◌↔◌, ◌⊎◌, inl, inr, arith, eq_iff, all, All, Bool-cases,
}
use entropy.Base.Dict.{entries, lookup, or_zero}
use entropy.Resource.{Resource}
use entropy.Resource.Filter.{Filter, has_label, is_match, apply}

-- What a filter asks of a resource: an empty kind or project asks nothing, and a label that the
-- resource lacks has the empty value.
pub record Matches (f : Filter) (r : Resource) : Type 0 where
  pub kind : (f.kind ≡ "") ⊎ (f.kind ≡ r.kind)
  pub project : (f.project ≡ "") ⊎ (f.project ≡ r.project)
  pub labels : All (λ kv. or_zero "" (lookup kv.0 (entries r.labels)) ≡ kv.1) (entries f.labels)

all-iff-All :
    (r : Resource) (kvs : List (String × String))
    → (all (has_label r) kvs ≡ true)
      ↔ All (λ kv. or_zero "" (lookup kv.0 (entries r.labels)) ≡ kv.1) kvs
all-iff-All r [] = (λ h. tt, λ h. refl)
all-iff-All r ((k, v) ∷ kvs) = (
  λ h. (
    (eq_iff (or_zero "" (lookup k (entries r.labels))) v).0 (ground arith),
    (all-iff-All r kvs).0 (ground arith),
  ),
  λ h. rw ((eq_iff (or_zero "" (lookup k (entries r.labels))) v).1 h.0) ((all-iff-All r kvs).1 h.1),
)

-- A resource passes exactly if the filter's kind, project and labels are its own.
pub is_match-iff-Matches : (f : Filter) (r : Resource) → (is_match f r ≡ true) ↔ Matches f r
unfolding is_match
is_match-iff-Matches f r = (
  λ h. record {
    kind = ground (arith, eq_iff f.kind "", eq_iff f.kind r.kind);
    project = ground (arith, eq_iff f.project "", eq_iff f.project r.project);
    labels = (all-iff-All r (entries f.labels)).0 (ground arith);
  },
  λ m.
      let labels = (all-iff-All r (entries f.labels)).1 m.labels in
      ground (
        arith,
        labels,
        m.kind,
        m.project,
        eq_iff f.kind "",
        eq_iff f.kind r.kind,
        eq_iff f.project "",
        eq_iff f.project r.project,
      ),
)

mem-cons_cases : {r s : Resource} {rs : List Resource} → Memᴰ r (s ∷ rs) → (r ≡ s) ⊎ Memᴰ r rs
mem-cons_cases (Memᴰ.head e) = inl e
mem-cons_cases (Memᴰ.tail m) = inr m

apply_sound :
    (f : Filter) (rs : List Resource) (r : Resource) → Memᴰ r (apply f rs) → Memᴰ r rs × Matches f r
unfolding apply
apply_sound f [] r m = elim m [ ]
apply_sound f (s ∷ rs) r m = elim (Bool-cases (is_match f s)) [
  | inl passes ↦ elim (mem-cons_cases (rw passes at m)) [
    | inl same ↦ (Memᴰ.head same, rw same ((is_match-iff-Matches f s).0 passes))
    | inr later ↦ let (listed, matching) = apply_sound f rs r later in (Memᴰ.tail listed, matching)
  ]
  | inr fails ↦
      let (listed, matching) = apply_sound f rs r (rw fails at m) in (Memᴰ.tail listed, matching)
]

apply_complete :
    (f : Filter) (rs : List Resource) (r : Resource) → Memᴰ r rs → Matches f r → Memᴰ r (apply f rs)
unfolding apply
apply_complete f [] r m h = elim m [ ]
apply_complete f (s ∷ rs) r m h = elim (mem-cons_cases m) [
  | inl same ↦ rw (← same, (is_match-iff-Matches f r).1 h) (Memᴰ.head refl)
  | inr later ↦ elim (Bool-cases (is_match f s)) [
    | inl passes ↦ rw passes (Memᴰ.tail (apply_complete f rs r later h))
    | inr fails ↦ rw fails (apply_complete f rs r later h)
  ]
]

-- `Apply` returns exactly those of the given resources whose kind, project and labels are those that
-- the filter asks for.
pub mem-apply :
    (f : Filter) (rs : List Resource) (r : Resource)
    → (Memᴰ r (apply f rs) → Memᴰ r rs × Matches f r)
      × (Memᴰ r rs × Matches f r → Memᴰ r (apply f rs))
mem-apply f rs r = (apply_sound f rs r, λ h. apply_complete f rs r h.0 h.1)
