-- ===== src/Tests/ResourceSyncs.antt =====
-- The store of resources: what is due for a sync, and what cannot be listed.
use entropy.Base.{ℕ, String, true, none, some, List, [], ◌∷◌, ◌≡◌, ◌≢◌, refl, arith}
use entropy.Io.{ok, err}
use entropy.Resource.{Resource}
use entropy.Io.Calls.{answer, try, ◌>>=◌}
use entropy.Postgres.{ResourceRow, Tables, statement, within_tx, run_all_hooks}
use entropy.Base.Dict.{Dict}
use entropy.Postgres.Tags.{set_tags, add_tags, has_tag, without_tags, label_map_to_tags}
use entropy.Postgres.Resources.{find_resource, urn_of, translate_urn_to_id}
use entropy.Postgres.Resources.Writes.{
  insert_resource, translating, insert_resource_record, set_dependencies, delete_deps, insert_deps,
  translate_deps, insert_revision, revision_of, row_of, add_deps, has_dep, without_deps,
  sync_result_as_json, create, update, update_resource, update_resource_record, change_row,
  set_columns, save_revision_if,
}
use entropy.Postgres.Resources.Due.{
  text_column, unknown_column, in_scope, is_due, find_due, select_due, extend_rows,
  extend_wait_time, fetch_resource_for_sync,
}
use entropy.Postgres.Resources.Leases.{fetch-leased}
use entropy.Tests.ResourceStore.{empty, st, kafka, firehose, two}
use entropy.Errors.{pq_error}
use entropy.Resource.Filter.{Filter}
use entropy.Base.{Option, ◌++◌}
use entropy.Postgres.Tags.{tags_of}
use entropy.Postgres.Resources.Listing.{
  page_offset, limit_rows, skip_rows, select_rows, dependency_side, null_element, list,
}
use entropy.Postgres.Resources.Unlisted.{IsBareJoin, list-IsBareJoin}

abbrev pub any_project : Dict (List String)
any_project = ("project", "shop" ∷ "lab" ∷ []) ∷ []

abbrev pub row : ℕ → String → Option ℕ → ResourceRow
row id urn next_sync = record {
  id = id;
  urn = urn;
  kind = "firehose";
  name = "logs";
  project = "shop";
  created_at = 90;
  updated_at = 90;
  created_by = "ann";
  updated_by = "ann";
  spec_configs = some "{}";
  state_status = "STATUS_PENDING";
  state_output = some "{}";
  state_module_data = some "{}";
  state_next_sync = next_sync;
  state_sync_result = none;
}

-- two resources, whose next syncs are at these times
abbrev pub at_times : ℕ → ℕ → Tables
at_times a b = record empty {
  rows = record empty.rows { resources = row 1 "a" (some a) ∷ row 2 "b" (some b) ∷ [] };
}

fetched : fetch_resource_for_sync st any_project (at_times 95 120) ≡ (ok "a", at_times 130 120)
unfolding fetch_resource_for_sync within_tx statement answer ◌>>=◌ select_due extend_wait_time
    extend_rows find_due unknown_column is_due in_scope text_column
fetched = refl

-- at 129 the second is due, and the first is not
abbrev later : Tables
later = record (at_times 130 120) { time = 129 }

selected : select_due any_project later ≡ (ok "b", later)
unfolding statement select_due extend_wait_time extend_rows find_due unknown_column is_due in_scope
    text_column
selected = refl

abbrev first_urn : String
first_urn = "a"

abbrev second_urn : String
second_urn = "b"

fetch-leased_example : second_urn ≢ first_urn
fetch-leased_example =
    fetch-leased st any_project (at_times 95 120) (at_times 130 120) "a" fetched any_project later
      later "b" refl (omega arith) selected

-- a scope on a column that there is not
fetched_nowhere :
    fetch_resource_for_sync st (("unknown", "x" ∷ []) ∷ []) (at_times 95 120)
    ≡ (err (pq_error "undefined_column" "pq: column \"unknown\" does not exist"), at_times 95 120)
unfolding fetch_resource_for_sync within_tx statement answer ◌>>=◌ select_due extend_wait_time
    unknown_column
fetched_nowhere = refl

-- a resource with two dependencies and no labels
abbrev dagger : Resource
dagger = record kafka {
  urn = "orn:entropy:dagger:shop:join";
  kind = "dagger";
  name = "join";
  spec = record {
    configs = some "{}";
    dependencies = ("in", kafka.urn) ∷ ("out", firehose.urn) ∷ [];
  };
}

abbrev five : Tables
five = (create st dagger [] two).1

abbrev all_of_shop : Filter
all_of_shop = record {
  kind = "dagger";
  project = "shop";
  labels = none;
  page_size = 0;
  page_num = 0;
}

page : page_offset 1 0 ≡ some 0
unfolding page_offset
page = refl

calm : five.faults ≡ []
unfolding create update within_tx statement answer try ◌>>=◌ insert_resource translating
    insert_resource_record find_resource set_tags set_dependencies delete_deps insert_deps
    translate_deps translate_urn_to_id insert_revision revision_of run_all_hooks row_of add_tags
    has_tag without_tags label_map_to_tags add_deps has_dep without_deps sync_result_as_json
    update_resource update_resource_record change_row set_columns save_revision_if
    fetch_resource_for_sync select_due extend_wait_time extend_rows find_due is_due in_scope
    text_column unknown_column
calm = refl

dagger_listed :
    limit_rows 0 (skip_rows 0 (select_rows "shop" "dagger" five.rows.resources))
    ≡ [] ++ (row_of st.json 3 dagger ∷ [])
unfolding create update within_tx statement answer try ◌>>=◌ insert_resource translating
    insert_resource_record find_resource set_tags set_dependencies delete_deps insert_deps
    translate_deps translate_urn_to_id insert_revision revision_of run_all_hooks row_of add_tags
    has_tag without_tags label_map_to_tags add_deps has_dep without_deps sync_result_as_json
    update_resource update_resource_record change_row set_columns save_revision_if
    fetch_resource_for_sync select_due extend_wait_time extend_rows find_due is_due in_scope
    text_column unknown_column select_rows skip_rows
dagger_listed = refl

joined_twice : IsBareJoin five.rows (row_of st.json 3 dagger)
unfolding create update within_tx statement answer try ◌>>=◌ insert_resource translating
    insert_resource_record find_resource set_tags set_dependencies delete_deps insert_deps
    translate_deps translate_urn_to_id insert_revision revision_of run_all_hooks row_of add_tags
    has_tag without_tags label_map_to_tags add_deps has_dep without_deps sync_result_as_json
    update_resource update_resource_record change_row set_columns save_revision_if
    fetch_resource_for_sync select_due extend_wait_time extend_rows find_due is_due in_scope
    text_column unknown_column dependency_side urn_of tags_of
joined_twice = (("in", some kafka.urn), ("out", some firehose.urn), [], refl, refl)

list-IsBareJoin_example : list st all_of_shop true five ≡ (err (null_element true), five)
list-IsBareJoin_example =
    list-IsBareJoin st all_of_shop true five 0 [] (row_of st.json 3 dagger) [] calm page
      dagger_listed joined_twice
