-- ===== src/Postgres/Resources/Unlisted.antt =====
-- `List` of resource_store.go, where a resource has several dependencies and no labels.
use entropy.Base.{
  ℕ, String, Bool, Option, none, some, List, [], ◌∷◌, ◌++◌, map, ◌⊎◌, inl, inr, ◌≡◌, refl,
}
use entropy.Base.Dict.{Dict}
use entropy.Io.{ok, err}
use entropy.Io.Calls.{answer, ◌>>=◌}
use entropy.Resource.Filter.{Filter}
use entropy.Postgres.{ResourceRow, Rows, Tables, statement}
use entropy.Postgres.Tags.{tags_of}
use entropy.Postgres.Resources.{Store}
use entropy.Postgres.Resources.Listing.{
  select_rows, skip_rows, limit_rows, dependency_side, joined_rows, list_row, page_offset,
  null_element, scan_tags, scan_rows, at_least_one, list,
}

-- a resource without labels that has two dependencies or more
abbrev pub IsBareJoin : Rows → ResourceRow → Type 0
IsBareJoin rows row =
    (first second : String × Option String) × (rest : Dict (Option String)) × (dependency_side
        row.id rows.dependencies rows.resources
      ≡ first ∷ second ∷ rest)
    × (tags_of row.id rows.resource_tags ≡ [])

scan_bare :
    (specs : Bool) (rows : Rows) (row : ResourceRow)
    → IsBareJoin rows row
    → scan_tags specs (list_row rows row).tags ≡ err (null_element specs)
unfolding list_row joined_rows scan_tags
scan_bare specs rows row (first, second, rest, joined, bare) = rw (joined, bare) refl

scan_tags-cases :
    (specs : Bool) (tags : List (Option String))
    → (scan_tags specs tags ≡ err (null_element specs))
      ⊎ ((t : List String) × (scan_tags specs tags ≡ ok t))
unfolding scan_tags
scan_tags-cases specs [] = inr ([], refl)
scan_tags-cases specs (none ∷ tags) = inl refl
scan_tags-cases specs (some tag ∷ tags) = elim (scan_tags-cases specs tags) [
  | inl fails ↦ inl (rw fails refl)
  | inr (t, scanned) ↦ inr (tag ∷ t, rw scanned refl)
]

-- no later row makes up for one that cannot be scanned
scan_rows_bare :
    (specs : Bool) (rows : Rows) (before : List ResourceRow) (row : ResourceRow)
    (after : List ResourceRow)
    → IsBareJoin rows row
    → scan_rows specs (map (list_row rows) (before ++ (row ∷ after))) ≡ err (null_element specs)
unfolding scan_rows
scan_rows_bare specs rows [] row after bare = rw (scan_bare specs rows row bare) refl
scan_rows_bare specs rows (first ∷ before) row after bare =
    elim (scan_tags-cases specs (list_row rows first).tags) [
      | inl fails ↦ rw fails refl
      | inr (t, scanned) ↦ rw (scanned, scan_rows_bare specs rows before row after bare) refl
    ]

-- If the page that `List` is asked for holds a resource with two dependencies or more and no labels,
-- then, even where the database answers, it returns no resource of the page: it fails with the error
-- of scanning a null into a text.
pub list-IsBareJoin :
    (st : Store) (f : Filter) (with_spec_configs : Bool) (t : Tables) (offset : ℕ)
    (before : List ResourceRow) (row : ResourceRow) (after : List ResourceRow)
    → t.faults ≡ []
    → page_offset
        (at_least_one st.pagination_page_default f.page_num)
        (at_least_one st.pagination_size_default f.page_size)
      ≡ some offset
    → limit_rows
        (at_least_one st.pagination_size_default f.page_size)
        (skip_rows offset (select_rows f.project f.kind t.rows.resources))
      ≡ before ++ (row ∷ after)
    → IsBareJoin t.rows row
    → list st f with_spec_configs t ≡ (err (null_element with_spec_configs), t)
unfolding list statement answer ◌>>=◌
list-IsBareJoin st f with_spec_configs t offset before row after calm paged page bare =
    rw (calm, paged, page, scan_rows_bare with_spec_configs t.rows before row after bare) refl
