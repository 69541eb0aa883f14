-- ===== src/Postgres/Resources/Writes.antt =====
-- internal/store/postgres/resource_store.go: Create, Update and Delete, each one transaction, and
-- `insertRevision` of revision_store.go. A nil slice is stored as an empty one.
use entropy.Base.{
  ℕ, ◌+◌, String, Bool, true, false, ◌&&◌, ◌||◌, Option, none, some, List, [], ◌∷◌, ◌++◌, ◌==◌, eqb,
  if◌then◌else◌, is_empty,
}
use entropy.Base.Dict.{Dict, is_some}
use entropy.Errors.{GoError, pq_error}
use entropy.Io.{Result, ok, err, Call}
use entropy.Io.Calls.{answer, try, ◌>>=◌, ◌>>◌}
use entropy.Resource.{RawMessage, non_nil, Resource, Revision, SyncResult}
use entropy.Postgres.{
  ResourceRow, DependencyRow, Tables, statement, translate_err, within_tx, MutationHook,
  run_all_hooks,
}
use entropy.Postgres.Tags.{of_resources, of_revisions, without_tags, set_tags}
use entropy.Postgres.Resources.{SyncJson, Store, find_resource, translate_urn_to_id}

abbrev pub is_no_sync_result : SyncResult → Bool
is_no_sync_result r = eqb r.retries 0 && r.last_error == ""

-- `syncResultAsJSON`
unfoldable pub sync_result_as_json : SyncJson → SyncResult → RawMessage
sync_result_as_json json r = if is_no_sync_result r then none else some (json.marshal r)

abbrev pub unique_violation : GoError
unique_violation = pq_error "unique_violation" "duplicate key value violates unique constraint"

-- the row of a new resource
unfoldable pub row_of : SyncJson → ℕ → Resource → ResourceRow
row_of json id r = record {
  id = id;
  urn = r.urn;
  kind = r.kind;
  name = r.name;
  project = r.project;
  created_at = r.created_at;
  updated_at = r.updated_at;
  created_by = r.created_by;
  updated_by = r.updated_by;
  spec_configs = non_nil r.spec.configs;
  state_status = r.state.status;
  state_output = non_nil r.state.output;
  state_module_data = non_nil r.state.module_data;
  state_next_sync = r.state.next_sync_at;
  state_sync_result = non_nil (sync_result_as_json json r.state.sync_result);
}

-- the tables after an INSERT of a resource: the number that it took is not given back
abbrev pub resource_inserted : SyncJson → Resource → Bool → Tables → Result ℕ × Tables
resource_inserted json r true t =
    (err unique_violation, record t { next_resource_id = t.next_resource_id + 1 })
resource_inserted json r false t = (
  ok t.next_resource_id,
  record t {
    rows = record t.rows { resources = row_of json t.next_resource_id r ∷ t.rows.resources };
    next_resource_id = t.next_resource_id + 1;
  },
)

unfoldable pub insert_resource_record : SyncJson → Resource → Call Tables ℕ
insert_resource_record json r =
    statement (λ t. resource_inserted json r (is_some (find_resource r.urn t.rows.resources)) t)

-- DELETE FROM resource_dependencies WHERE resource_id
unfoldable pub without_deps : ℕ → List DependencyRow → List DependencyRow
without_deps id [] = []
without_deps id (row ∷ rows) =
    let rest = without_deps id rows in if eqb row.resource_id id then rest else row ∷ rest

unfoldable pub has_dep : ℕ → String → List DependencyRow → Bool
has_dep id key [] = false
has_dep id key (row ∷ rows) =
    (eqb row.resource_id id && row.dependency_key == key) || has_dep id key rows

-- the rows of one INSERT, behind the others; `none` where one breaks the UNIQUE constraint
unfoldable pub add_deps : ℕ → Dict ℕ → List DependencyRow → Option (List DependencyRow)
add_deps id [] rows = some rows
add_deps id ((key, on) ∷ deps) rows =
    let rest =
      add_deps id deps
        (rows ++ (record { resource_id = id; dependency_key = key; depends_on = on } ∷ [])) in
    if has_dep id key rows then none else rest

abbrev pub deps_added : Option (List DependencyRow) → Tables → Result (Unit {0}) × Tables
deps_added none t = (err unique_violation, t)
deps_added (some rows) t = (ok tt, record t { rows = record t.rows { dependencies = rows } })

-- the loop of `setDependencies`
unfoldable pub translate_deps : Dict String → Call Tables (Dict ℕ)
translate_deps [] = answer (ok [])
translate_deps ((key, urn) ∷ deps) = do
  id ← translate_urn_to_id urn
  rest ← translate_deps deps
  answer (ok ((key, id) ∷ rest))

unfoldable pub delete_deps : ℕ → Call Tables (Unit {0})
delete_deps id = statement (λ t. (
  ok tt,
  record t { rows = record t.rows { dependencies = without_deps id t.rows.dependencies } },
))

unfoldable pub insert_deps : ℕ → Dict ℕ → Call Tables (Unit {0})
insert_deps id deps = statement (λ t. deps_added (add_deps id deps t.rows.dependencies) t)

unfoldable pub set_dependencies : ℕ → Dict String → Call Tables (Unit {0})
set_dependencies id deps = do
  delete_deps id
  if is_empty deps then answer (ok tt) else (do ids ← translate_deps deps; insert_deps id ids)

abbrev pub revision_inserted : ℕ → Revision → Tables → Result ℕ × Tables
revision_inserted resource_id rev t = (
  ok t.next_revision_id,
  record t {
    rows = record t.rows {
      revisions =
          record {
            id = t.next_revision_id;
            reason = rev.reason;
            created_at = t.time;
            created_by = rev.created_by;
            resource_id = resource_id;
            spec_configs = non_nil rev.spec.configs;
          }
          ∷ t.rows.revisions;
    };
    next_revision_id = t.next_revision_id + 1;
  },
)

unfoldable pub insert_revision : ℕ → Revision → Call Tables (Unit {0})
insert_revision resource_id rev = do
  revision_id ← statement (λ t. revision_inserted resource_id rev t)
  set_tags of_revisions revision_id rev.labels

-- `return translateErr(err)`
unfoldable pub translating : {A : Type 0} → Call Tables A → Call Tables A
translating m = do r ← try m; answer (translate_err r)

-- the literal `rev`; the database fills in its id and its time
unfoldable pub revision_of : Resource → String → Revision
revision_of r reason = record {
  id = 0;
  urn = r.urn;
  reason = reason;
  labels = r.labels;
  created_at = 0;
  created_by = r.updated_by;
  spec = r.spec;
}

-- `insertResource`
unfoldable pub insert_resource : SyncJson → Resource → List MutationHook → Call Tables (Unit {0})
insert_resource json r hooks = do
  id ← translating (insert_resource_record json r)
  translating (set_tags of_resources id r.labels)
  translating (set_dependencies id r.spec.dependencies)
  translating (insert_revision id (revision_of r "action:create"))
  run_all_hooks hooks

unfoldable pub create : Store → Resource → List MutationHook → Call Tables (Unit {0})
create st r hooks = within_tx (insert_resource st.json r hooks)

-- the SET of `Update`
unfoldable pub set_columns : SyncJson → ℕ → Resource → ResourceRow → ResourceRow
set_columns json time r row = record row {
  updated_at = time;
  updated_by = r.updated_by;
  spec_configs = non_nil r.spec.configs;
  state_status = r.state.status;
  state_output = non_nil r.state.output;
  state_module_data = non_nil r.state.module_data;
  state_next_sync = r.state.next_sync_at;
  state_sync_result = non_nil (sync_result_as_json json r.state.sync_result);
}

-- the rows with a changed one in place of that with the id
unfoldable pub change_row : ℕ → (ResourceRow → ResourceRow) → List ResourceRow → List ResourceRow
change_row id f [] = []
change_row id f (row ∷ rows) = (if eqb row.id id then f row else row) ∷ change_row id f rows

abbrev pub resource_updated : SyncJson → ℕ → Resource → Tables → Result (Unit {0}) × Tables
resource_updated json id r t = (
  ok tt,
  record t {
    rows = record t.rows { resources = change_row id (set_columns json t.time r) t.rows.resources };
  },
)

unfoldable pub update_resource_record : SyncJson → ℕ → Resource → Call Tables (Unit {0})
update_resource_record json id r = statement (λ t. resource_updated json id r t)

unfoldable pub save_revision_if : Bool → ℕ → Revision → Call Tables (Unit {0})
save_revision_if save_revision id rev =
    if save_revision then translating (insert_revision id rev) else answer (ok tt)

-- `updateResource`
unfoldable pub update_resource :
    SyncJson → Resource → Bool → String → List MutationHook → Call Tables (Unit {0})
update_resource json r save_revision reason hooks = do
  id ← translate_urn_to_id r.urn
  update_resource_record json id r
  set_tags of_resources id r.labels
  set_dependencies id r.spec.dependencies
  save_revision_if save_revision id (revision_of r reason)
  run_all_hooks hooks

unfoldable pub update :
    Store → Resource → Bool → String → List MutationHook → Call Tables (Unit {0})
update st r save_revision reason hooks =
    within_tx (update_resource st.json r save_revision reason hooks)

-- `deleteFn`
unfoldable pub delete_parts : String → List MutationHook → Call Tables (Unit {0})
delete_parts urn hooks = do
  id ← translate_urn_to_id urn
  delete_deps id
  statement (λ t. (
    ok tt,
    record t { rows = record t.rows { resource_tags = without_tags id t.rows.resource_tags } },
  ))
  run_all_hooks hooks

unfoldable pub delete : String → List MutationHook → Call Tables (Unit {0})
delete urn hooks = within_tx (delete_parts urn hooks)
