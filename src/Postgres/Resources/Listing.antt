-- ===== src/Postgres/Resources/Listing.antt =====
-- internal/store/postgres/resource_store.go and resource_model.go: `List` and its two queries, which
-- differ in the column of the configuration.
use entropy.Base.{
  ℕ, ◌-◌, ◌*◌, String, Bool, true, false, ◌||◌, Option, none, some, List, [], ◌∷◌, ◌++◌, ◌==◌, eqb,
  ltb, if◌then◌else◌, map,
}
use Prim.Native.Nat.{◌%◌}
use entropy.Base.Text.{◌<>◌}
use entropy.Base.Dict.{Dict, copy_into, or_zero}
use entropy.Errors.{GoError, pq_error, foreign}
use entropy.Io.{Result, ok, err, Call}
use entropy.Io.Calls.{answer, ◌>>=◌}
use entropy.Resource.{RawMessage, raw_is_empty, Resource, SyncResult}
use entropy.Resource.Filter.{Filter}
use entropy.Postgres.{ResourceRow, DependencyRow, Rows, Tables, statement}
use entropy.Postgres.Tags.{tags_of, tags_to_label_map}
use entropy.Postgres.Resources.{
  SyncJson, Store, no_sync_result, raw_text, urn_of, labelled, resource_of,
}

-- `ListResourceByFilterRow`; an element of an array and a value of a JSON object may be null
pub record ListRow : Type 0 where
  pub row : ResourceRow
  pub tags : List (Option String)
  pub dependencies : Dict (Option String)

-- WHERE ($1 = '' OR r.project = $1) AND ($2 = '' OR r.kind = $2)
unfoldable pub select_rows : String → String → List ResourceRow → List ResourceRow
select_rows project kind [] = []
select_rows project kind (row ∷ rows) =
    let rest = select_rows project kind rows in
    if project == "" || row.project == project
    then (if kind == "" || row.kind == kind then row ∷ rest else rest)
    else rest

unfoldable pub skip_rows : ℕ → List ResourceRow → List ResourceRow
skip_rows n [] = []
skip_rows n (row ∷ rows) = let rest = skip_rows (n - 1) rows in if eqb n 0 then row ∷ rows else rest

unfoldable pub take_rows : ℕ → List ResourceRow → List ResourceRow
take_rows n [] = []
take_rows n (row ∷ rows) = let rest = take_rows (n - 1) rows in if eqb n 0 then [] else row ∷ rest

-- LIMIT, where 0 is NULL
abbrev pub limit_rows : ℕ → List ResourceRow → List ResourceRow
limit_rows n rows = if eqb n 0 then rows else take_rows n rows

-- the side of a LEFT JOIN, which has a row of nulls where nothing matches
abbrev pub or_null : {A : Type 0} → List A → A → List A
or_null [] null = null ∷ []
or_null (x ∷ xs) null = x ∷ xs

-- the keys of the dependencies, '' for null, with the URNs of the resources that they are on
unfoldable pub dependency_side : ℕ → List DependencyRow → List ResourceRow → Dict (Option String)
dependency_side id [] resources = []
dependency_side id (row ∷ rows) resources =
    let rest = dependency_side id rows resources in
    if eqb row.resource_id id
    then (row.dependency_key, urn_of row.depends_on resources) ∷ rest
    else rest

module _ {A B : Type 0} where
  -- a row of the left side with each of the right side
  abbrev pub beside_all : A → List B → List (A × B)
  beside_all a [] = []
  beside_all a (b ∷ bs) = (a, b) ∷ beside_all a bs

  abbrev pub cross : List A → List B → List (A × B)
  cross [] bs = []
  cross (a ∷ as1) bs = beside_all a bs ++ cross as1 bs

-- COALESCE(NULLIF(array_agg(rt.tag), '{NULL}'), '{}')
abbrev pub nullif : List (Option String) → List (Option String)
nullif (none ∷ []) = []
nullif tags = tags

-- the rows that the joins make of a resource
unfoldable pub joined_rows : Rows → ResourceRow → List ((String × Option String) × Option String)
joined_rows rows row =
    cross (or_null (dependency_side row.id rows.dependencies rows.resources) ("", none))
      (or_null (map some (tags_of row.id rows.resource_tags)) none)

unfoldable pub list_row : Rows → ResourceRow → ListRow
list_row rows row = record {
  row = row;
  tags = nullif (map (λ pair. pair.1) (joined_rows rows row));
  dependencies = copy_into [] (map (λ pair. pair.0) (joined_rows rows row));
}

-- `offset`, an int32: `none` where it is negative
unfoldable pub page_offset : ℕ → ℕ → Option ℕ
page_offset page_num page_size =
    if eqb page_num 0
    then (if eqb page_size 0 then some 0 else none)
    else if ltb (((page_num - 1) * page_size) % 4294967296) 2147483648
    then some (((page_num - 1) * page_size) % 4294967296)
    else none

abbrev pub page_of : Option ℕ → ℕ → String → String → Rows → Result (List ListRow)
page_of none limit project kind rows =
    err (pq_error "invalid_row_count_in_result_offset_clause" "OFFSET must not be negative")
page_of (some offset) limit project kind rows = ok (
    map (list_row rows)
      (limit_rows limit (skip_rows offset (select_rows project kind rows.resources))))

-- The error of `rows.Scan` for a null among the tags, by whether the query has the column of the
-- configuration. The joins of a resource have a null among its tags only where all are null: it is the
-- first element.
abbrev pub null_element : Bool → GoError
null_element with_spec_configs = foreign (
    "sql: Scan error on column index "
    <> (if with_spec_configs then "15" else "14")
    <> ", name \"tags\": pq: parsing array element index 0: cannot convert nil to string")

abbrev pub and_tag : String → Result (List String) → Result (List String)
and_tag tag (ok tags) = ok (tag ∷ tags)
and_tag tag (err e) = err e

-- pq.StringArray has no place for a null
unfoldable pub scan_tags : Bool → List (Option String) → Result (List String)
scan_tags specs [] = ok []
scan_tags specs (none ∷ tags) = err (null_element specs)
scan_tags specs (some tag ∷ tags) = and_tag tag (scan_tags specs tags)

abbrev pub scanned_then :
    Result (List String)
    → ListRow
    → Result (List (ListRow × List String))
    → Result (List (ListRow × List String))
scanned_then (err e) item rest = err e
scanned_then (ok tags) item (ok items) = ok ((item, tags) ∷ items)
scanned_then (ok tags) item (err e) = err e

-- the loop of `rows.Scan`
unfoldable pub scan_rows : Bool → List ListRow → Result (List (ListRow × List String))
scan_rows specs [] = ok []
scan_rows specs (item ∷ items) =
    scanned_then (scan_tags specs item.tags) item (scan_rows specs items)

-- a JSON null leaves the zero value
abbrev pub decode_deps : Dict (Option String) → Dict String
decode_deps [] = []
decode_deps ((key, urn) ∷ deps) = (key, or_zero "" urn) ∷ decode_deps deps

-- the loop of `depsBytesToMap`: it goes over the map that it began with
unfoldable pub drop_blank : Dict String → Dict String → Dict String
drop_blank [] deps = deps
drop_blank ((k, v) ∷ rest) deps = let blank = drop_blank rest [] in if k == "" then blank else deps

unfoldable pub deps_bytes_to_map : Dict (Option String) → Dict String
deps_bytes_to_map decoded = drop_blank (decode_deps decoded) (decode_deps decoded)

-- a time that is zero is left out
abbrev pub sync_time : Option ℕ → Option ℕ
sync_time none = none
sync_time (some t) = if eqb t 0 then none else some t

abbrev pub listed_sync_result : SyncJson → RawMessage → Result SyncResult
listed_sync_result json raw =
    if raw_is_empty raw then ok no_sync_result else json.unmarshal (raw_text raw)

abbrev pub listed_columns : Bool → ResourceRow → ResourceRow
listed_columns true row = record row { state_next_sync = sync_time row.state_next_sync }
listed_columns false row = record row {
  state_next_sync = sync_time row.state_next_sync;
  spec_configs = none;
}

-- the loop of `List`
unfoldable pub listed_resources :
    SyncJson → Bool → List (ListRow × List String) → Call Tables (List Resource)
listed_resources json with_spec_configs [] = answer (ok [])
listed_resources json with_spec_configs ((item, tags) ∷ items) = do
  sync_result ← answer (listed_sync_result json item.row.state_sync_result)
  labels ← answer (labelled (tags_to_label_map tags))
  rest ← listed_resources json with_spec_configs items
  answer (
      ok (
        resource_of (listed_columns with_spec_configs item.row) labels
          (deps_bytes_to_map item.dependencies) sync_result
        ∷ rest))

abbrev pub at_least_one : ℕ → ℕ → ℕ
at_least_one default n = if ltb n 1 then default else n

unfoldable pub list : Store → Filter → Bool → Call Tables (List Resource)
list st filter with_spec_configs = do
  let page_size = at_least_one st.pagination_size_default filter.page_size
  let page_num = at_least_one st.pagination_page_default filter.page_num
  rows ← statement (λ t.
      (page_of (page_offset page_num page_size) page_size filter.project filter.kind t.rows, t))
  items ← answer (scan_rows with_spec_configs rows)
  listed_resources st.json with_spec_configs items
