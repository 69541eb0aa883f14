-- ===== src/Postgres/Resources/Kept.antt =====
-- resource_store.go: which writes keep the dependencies that are stored, and the order of the ids.
use mathlib.Core.Path.{subst, fun_ext}
use entropy.Base.{
  ℕ, ◌≤◌, String, true, Option, none, some, List, [], ◌∷◌, eqb, if◌then◌else◌, ◌≡◌, refl, sym, ◌∙◌,
  ap, arith, Bool-cases, inl, inr,
}
use entropy.Base.Dict.{Dict, copy_into}
use entropy.Base.Dict.Keys.{copy_into_nil, copy_into-HasUniqueKeys}
use entropy.Resource.{Resource}
use entropy.Postgres.{ResourceRow, DependencyRow, Rows}
use entropy.Postgres.Gives.{Content}
use entropy.Postgres.Resources.{SyncJson, find_resource, urn_of, deps_in, joined_deps}
use entropy.Postgres.Resources.Writes.{set_columns, row_of}
use entropy.Postgres.Resources.Linked.{
  IsKeyed, some-inj, find_resource-change_row, urn_of-change_row, changed,
}
use entropy.Postgres.Resources.Inserts.{IsKeyed-insert, IsFree-insert}
use entropy.Postgres.Resources.Created.{IsOrdered, Unchanged, Creates}
use entropy.Postgres.Resources.Updated.{Updates, set_columns-IsKeyed}

abbrev pub deps_of_row : Option ResourceRow → Rows → Dict String
deps_of_row none rows = []
deps_of_row (some row) rows = deps_in row.id rows

-- the dependencies that are stored for a URN
unfoldable pub stored_deps : Rows → String → Dict String
stored_deps rows urn = deps_of_row (find_resource urn rows.resources) rows

joined_deps_same :
    (i : ℕ) (rows : List DependencyRow) (resources resources' : List ResourceRow)
    → ((id : ℕ) → urn_of id resources' ≡ urn_of id resources)
    → joined_deps i rows resources' ≡ joined_deps i rows resources
unfolding joined_deps
joined_deps_same i [] resources resources' same = refl
joined_deps_same i (row ∷ rows) resources resources' same =
    rw (same row.depends_on, joined_deps_same i rows resources resources' same) refl

module _ (json : SyncJson) (r : Resource) (id : ℕ) (before c : Content)
    (keyed : IsKeyed before.rows.resources) (u : Updates json r id before c) where
  pub found_after :
      (urn : String)
      → find_resource urn c.rows.resources
        ≡ changed id (set_columns json before.time r) (find_resource urn before.rows.resources)
  unfolding set_columns
  found_after urn =
      ap (find_resource urn) u.resources
      ∙ find_resource-change_row id (set_columns json before.time r) (λ row. refl) (λ row. refl) urn
          before.rows.resources

  urns_after : (i : ℕ) → urn_of i c.rows.resources ≡ urn_of i before.rows.resources
  unfolding set_columns
  urns_after i =
      ap (urn_of i) u.resources
      ∙ urn_of-change_row id (set_columns json before.time r) (λ row. refl) (λ row. refl) i
          before.rows.resources

  -- the row with the id is the one with the URN
  only_row :
      (urn : String) (row : ResourceRow)
      → find_resource urn before.rows.resources ≡ some row
      → eqb row.id id ≡ true
      → urn ≡ r.urn
  only_row urn row found same =
      let (own, own_found, own_id) = u.is_found in
      let same_id : row.id ≡ own.id = ground arith in
      some-inj (
        sym (keyed urn row found)
        ∙ ap (λ i. urn_of i before.rows.resources) same_id
        ∙ keyed r.urn own own_found)

  joined_after :
      (i : ℕ)
      → joined_deps i c.rows.dependencies c.rows.resources ≡ (
          if eqb i id
          then r.spec.dependencies
          else joined_deps i before.rows.dependencies before.rows.resources)
  joined_after i =
      u.deps i
      ∙ ap (λ old. if eqb i id then r.spec.dependencies else old)
          (joined_deps_same i before.rows.dependencies before.rows.resources c.rows.resources
            urns_after)

  module _ (kept : r.spec.dependencies ≡ stored_deps before.rows r.urn) where
    -- what is written is what is stored
    written :
        (row : ResourceRow)
        → find_resource r.urn before.rows.resources ≡ some row
        → copy_into [] r.spec.dependencies ≡ deps_in row.id before.rows
    unfolding stored_deps
    written row found =
        let same : r.spec.dependencies ≡ deps_in row.id before.rows =
          kept ∙ ap (λ o. deps_of_row o before.rows) found in
        ap (copy_into []) same
        ∙ copy_into_nil (deps_in row.id before.rows) (
            copy_into-HasUniqueKeys []
              (joined_deps row.id before.rows.dependencies before.rows.resources) tt)

    row_deps :
        (urn : String) (row : ResourceRow)
        → find_resource urn before.rows.resources ≡ some row
        → deps_in row.id c.rows ≡ deps_in row.id before.rows
    row_deps urn row found = elim (Bool-cases (eqb row.id id)) [
      | inl same ↦
          ap (copy_into []) (joined_after row.id ∙ rw same refl)
          ∙ written row (
              ap (λ x. find_resource x before.rows.resources) (sym (only_row urn row found same))
              ∙ found)
      | inr other ↦ ap (copy_into []) (joined_after row.id ∙ rw other refl)
    ]

    deps_of_row_after :
        (urn : String) (o : Option ResourceRow)
        → find_resource urn before.rows.resources ≡ o
        → deps_of_row (changed id (set_columns json before.time r) o) c.rows
          ≡ deps_of_row o before.rows
    unfolding set_columns
    deps_of_row_after urn none found = refl
    deps_of_row_after urn (some row) found = elim (Bool-cases (eqb row.id id)) [
      | inl same ↦ rw same (row_deps urn row found)
      | inr other ↦ rw other (row_deps urn row found)
    ]

    -- An update that writes the dependencies that are stored changes those of no resource.
    pub updated_deps : stored_deps c.rows ≡ stored_deps before.rows
    unfolding stored_deps
    updated_deps = fun_ext (λ urn.
        ap (λ o. deps_of_row o c.rows) (found_after urn)
        ∙ deps_of_row_after urn (find_resource urn before.rows.resources) refl)

pub Unchanged-IsOrdered : (before c : Content) → IsOrdered before → Unchanged before c → IsOrdered c
Unchanged-IsOrdered before c (keyed, free) (same, more) = (
  subst IsKeyed (ap (λ rows. rows.resources) (sym same)) keyed,
  λ id above. ap (λ rows. urn_of id rows.resources) same ∙ free id (omega arith),
)

pub Creates-IsOrdered :
    (json : SyncJson) (r : Resource) (before c : Content)
    → IsOrdered before
    → Creates json r before c
    → IsOrdered c
unfolding row_of
Creates-IsOrdered json r before c (keyed, free) made = (
  subst IsKeyed (sym made.resources)
      (IsKeyed-insert (row_of json before.next_resource_id r) before.rows.resources free keyed),
  λ id above.
      ap (urn_of id) made.resources
      ∙ IsFree-insert (row_of json before.next_resource_id r) before.rows.resources free id
          (subst (λ n. n ≤ id) made.next_id above),
)

pub Updates-IsOrdered :
    (json : SyncJson) (r : Resource) (id : ℕ) (before c : Content)
    → IsOrdered before
    → Updates json r id before c
    → IsOrdered c
Updates-IsOrdered json r id before c (keyed, free) u = (
  subst IsKeyed (sym u.resources)
      (set_columns-IsKeyed json before.time id r before.rows.resources keyed),
  λ i above. urns_after json r id before c keyed u i ∙ free i (subst (λ n. n ≤ i) u.next_id above),
)
