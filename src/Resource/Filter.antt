-- ===== src/Resource/Filter.antt =====
-- `Filter` of core/resource/resource.go.
pub mod Laws
use entropy.Base.{ℕ, String, Bool, false, ◌&&◌, ◌||◌, List, [], ◌∷◌, ◌==◌, if◌then◌else◌, all}
use entropy.Base.Dict.{GoMap, entries, lookup, or_zero}
use entropy.Resource.{Resource}

-- `PageSize` and `PageNum` are for the store.
pub record Filter : Type 0 where
  pub kind : String
  pub project : String
  pub labels : GoMap String
  pub page_size : ℕ
  pub page_num : ℕ

-- r.Labels[k] == v, where a missing label reads as the empty text
abbrev pub has_label : Resource → String × String → Bool
has_label r (k, v) = or_zero "" (lookup k (entries r.labels)) == v

unfoldable pub is_match : Filter → Resource → Bool
is_match f r =
    let kind_match = f.kind == "" || f.kind == r.kind in
    let project_match = f.project == "" || f.project == r.project in
    if kind_match && project_match then all (has_label r) (entries f.labels) else false

unfoldable pub apply : Filter → List Resource → List Resource
apply f [] = []
apply f (r ∷ rs) = let rest = apply f rs in if is_match f r then r ∷ rest else rest
