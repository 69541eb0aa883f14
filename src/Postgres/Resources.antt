-- ===== src/Postgres/Resources.antt =====
-- internal/store/postgres/resource_store.go and resource_model.go: the store of resources. The
-- attributes for tracing are left out.
pub mod Writes
pub mod Linked
pub mod Steps
pub mod Inserts
pub mod Created
pub mod Updated
pub mod Reads
pub mod Found
pub mod Rewritten
pub mod Listing
pub mod Kept
pub mod Readers
pub mod Interface
pub mod Due
pub mod Syncing
pub mod Selected
pub mod Synced
pub mod Leases
pub mod Unlisted
use entropy.Base.{
  ℕ, ◌+◌, String, Bool, true, false, ◌||◌, Option, none, some, List, [], ◌∷◌, ◌==◌, eqb,
  if◌then◌else◌,
}
use entropy.Base.Dict.{Dict, GoMap, copy_into}
use entropy.Errors.{
  GoError, own, foreign, no_rows, pq_error, err_not_found, err_internal, with_msgf, with_causef, is,
  go_text,
}
use entropy.Io.{Result, ok, err, Call}
use entropy.Io.Calls.{answer, try, ◌>>=◌, ◌>>◌}
use entropy.Resource.{RawMessage, raw_is_empty, Resource, SyncResult}
use entropy.Postgres.{ResourceRow, DependencyRow, Rows, Tables, statement, no_rows_as, within_tx}
use entropy.Postgres.Tags.{
  TagTable, of_resources, of_revisions, read_tags, set_tags, tags_to_label_map,
}

-- json.Marshal and json.Unmarshal on `resource.SyncResult`
pub record SyncJson : Type 0 where
  pub marshal : SyncResult → String
  pub unmarshal : String → Result SyncResult

-- `Store`, as far as it is not the connection: a number of the pages is at least 1 where it counts,
-- and the ticks of the heartbeat are those that come while the function of a sync runs, by the
-- database's time.
pub record Store : Type 0 where
  pub json : SyncJson
  pub extend_interval : ℕ
  pub ticks : List ℕ
  pub pagination_size_default : ℕ
  pub pagination_page_default : ℕ

-- the row with the URN, which is unique
unfoldable pub find_resource : String → List ResourceRow → Option ResourceRow
find_resource urn [] = none
find_resource urn (row ∷ rows) = if row.urn == urn then some row else find_resource urn rows

abbrev pub scanned_resource : Option ResourceRow → Result ResourceRow
scanned_resource none = err no_rows
scanned_resource (some row) = ok row

abbrev pub found_or_not : Result ResourceRow → Result ResourceRow
found_or_not (ok row) = ok row
found_or_not (err e) = if is e no_rows then err (own err_not_found) else err e

unfoldable pub read_resource_record : String → Call Tables ResourceRow
read_resource_record urn = do
  r ← try (statement (λ t. (scanned_resource (find_resource urn t.rows.resources), t)))
  answer (found_or_not r)

-- the URN of the row with the id, which is the primary key
unfoldable pub urn_of : ℕ → List ResourceRow → Option String
urn_of id [] = none
urn_of id (row ∷ rows) = if eqb row.id id then some row.urn else urn_of id rows

abbrev pub with_urn : String → Option String → Dict String → Dict String
with_urn key none rest = rest
with_urn key (some urn) rest = (key, urn) ∷ rest

-- the rows of the query of `readResourceDeps`
unfoldable pub joined_deps : ℕ → List DependencyRow → List ResourceRow → Dict String
joined_deps id [] resources = []
joined_deps id (row ∷ rows) resources =
    let rest = joined_deps id rows resources in
    if eqb row.resource_id id
    then with_urn row.dependency_key (urn_of row.depends_on resources) rest
    else rest

abbrev pub deps_in : ℕ → Rows → Dict String
deps_in id rows = copy_into [] (joined_deps id rows.dependencies rows.resources)

unfoldable pub read_resource_deps : ℕ → Call Tables (Dict String)
read_resource_deps id = do
  queried ← try (statement (λ t. (ok (deps_in id t.rows), t)))
  answer (no_rows_as [] queried)

-- the variables that the transaction of `GetByURN` fills
pub record ResourceParts : Type 0 where
  pub rec : ResourceRow
  pub tags : List String
  pub deps : Dict String

-- `readResourceParts`
unfoldable pub read_resource_parts : String → Call Tables ResourceParts
read_resource_parts urn = do
  rec ← read_resource_record urn
  tags ← read_tags of_resources rec.id
  deps ← read_resource_deps rec.id
  answer (ok (record { rec = rec; tags = tags; deps = deps }))

abbrev pub no_sync_result : SyncResult
no_sync_result = record { retries = 0; last_error = "" }

abbrev pub or_bad_json : Result SyncResult → Result SyncResult
or_bad_json (ok r) = ok r
or_bad_json (err e) = err (
    own (
      with_causef (with_msgf err_internal "failed to json unmarshal state_sync_result")
        (go_text e)))

abbrev pub raw_text : RawMessage → String
raw_text none = ""
raw_text (some text) = text

-- the column of the last sync in `GetByURN`
unfoldable pub decode_sync_result : SyncJson → RawMessage → Result SyncResult
decode_sync_result json raw =
    if raw_is_empty raw then ok no_sync_result else or_bad_json (json.unmarshal (raw_text raw))

-- A panic is an error here that no code looks for; the tables of the store have no tag that
-- leads to it.
abbrev pub labelled : Option (Dict String) → Result (Dict String)
labelled none = err (foreign "panic: index out of range [1] with length 1")
labelled (some labels) = ok labels

-- the literal that `GetByURN` returns
unfoldable pub resource_of : ResourceRow → Dict String → Dict String → SyncResult → Resource
resource_of rec labels deps sync_result = record {
  urn = rec.urn;
  kind = rec.kind;
  name = rec.name;
  project = rec.project;
  labels = some labels;
  created_at = rec.created_at;
  updated_at = rec.updated_at;
  updated_by = rec.updated_by;
  created_by = rec.created_by;
  spec = record { configs = rec.spec_configs; dependencies = deps };
  state = record {
    status = rec.state_status;
    output = rec.state_output;
    module_data = rec.state_module_data;
    next_sync_at = rec.state_next_sync;
    sync_result = sync_result;
  };
}

-- `GetByURN` behind its transaction
unfoldable pub assemble : SyncJson → ResourceParts → Call Tables Resource
assemble json parts = do
  sync_result ← answer (decode_sync_result json parts.rec.state_sync_result)
  labels ← answer (labelled (tags_to_label_map parts.tags))
  answer (ok (resource_of parts.rec labels parts.deps sync_result))

unfoldable pub get_by_urn : Store → String → Call Tables Resource
get_by_urn st urn = do parts ← within_tx (read_resource_parts urn); assemble st.json parts

abbrev pub scanned_id : Option ResourceRow → Result ℕ
scanned_id none = err no_rows
scanned_id (some row) = ok row.id

unfoldable pub translate_urn_to_id : String → Call Tables ℕ
translate_urn_to_id urn = statement (λ t. (scanned_id (find_resource urn t.rows.resources), t))
