-- ===== src/Tests/ResourceService.antt =====
-- The resource service over the store of resources, and a thread of its syncer.
use entropy.Base.{
  ℕ, suc, String, some, none, [], ◌∷◌, ◌==◌, if◌then◌else◌, ◌≡◌, refl, ◌⊎◌, arith, eq_iff,
  Bool-cases, inl, inr,
}
use entropy.Base.Dict.{copy_into, insert}
use entropy.Errors.{foreign}
use entropy.Io.{Result, ok, err, Call, call, attempt, fail, pure}
use entropy.Io.Total.{Total-call}
use entropy.Resource.{Resource}
use entropy.Core.{Service, get_resource}
use entropy.Core.Termination.{IsRanked}
use entropy.Postgres.{ResourceRow, Tables, within_tx, statement, run_all_hooks}
use entropy.Postgres.Gives.{content}
use entropy.Postgres.Resources.{
  find_resource, urn_of, joined_deps, get_by_urn, read_resource_parts, read_resource_record,
  assemble, decode_sync_result, read_resource_deps, resource_of, translate_urn_to_id,
}
use entropy.Postgres.Resources.Created.{IsOrdered}
use entropy.Postgres.Resources.Kept.{stored_deps}
use entropy.Postgres.Resources.Interface.{
  World, world_deps, resource_store, over_store, get_resource-over_store,
}
use entropy.Postgres.Resources.Syncing.{SyncFn, sync_one, Ended, run_syncer-ends, handle_dequeued}
use entropy.Postgres.Resources.Synced.{NoneDue, OneSynced, sync_one-eq-ok}
use entropy.Tests.ResourceStore.{st}
use entropy.Tests.ResourceSyncs.{row, at_times, any_project}
use entropy.Io.Calls.{answer, try}
use entropy.Postgres.Resources.Due.{
  fetch_resource_for_sync, select_due, unknown_column, find_due, is_due, in_scope, text_column,
  extend_wait_time, extend_rows, run_heartbeat,
}
use entropy.Postgres.Resources.Writes.{
  add_deps, change_row, delete_deps, has_dep, insert_deps, save_revision_if, set_columns,
  set_dependencies, sync_result_as_json, translate_deps, update, update_resource,
  update_resource_record, without_deps,
}
use entropy.Postgres.Tags.{
  add_labels, add_tags, has_tag, label_map_to_tags, read_tags, set_tags, split_tag, tags_of,
  tags_to_label_map, without_tags,
}

-- the first resource depends on the second
abbrev linked : Tables
linked = record (at_times 95 120) {
  rows = record (at_times 95 120).rows {
    dependencies = record { resource_id = 1; dependency_key = "kafka"; depends_on = 2 } ∷ [];
  };
  next_resource_id = 3;
}

linked-IsOrdered : IsOrdered (content linked)
unfolding find_resource urn_of
linked-IsOrdered =
    (λ urn row e. ground (arith, eq_iff "a" urn, eq_iff "b" urn), λ id above. ground arith)

abbrev world : World (Unit {0})
world = (tt, linked, linked-IsOrdered)

abbrev over_linked : Service (World (Unit {0}))
over_linked = record {
  store = resource_store st;
  module_svc = record {
    plan_action = λ spec act w. (ok spec.resource, w);
    sync_state = λ spec w. (ok spec.resource.state, w);
    stream_logs = λ spec filter w. (ok [], w);
    get_output = λ spec w. (ok none, w);
  };
  clock = λ w. (100, w);
  sync_backoff = 60;
  max_sync_retries = 2;
  setup_counter = λ counter w. (ok tt, w);
  add_counter = λ counter urn w. w;
}

abbrev depth : String → ℕ
depth urn = if urn == "a" then 1 else 0

linked-IsRanked : IsRanked depth (world_deps world)
unfolding stored_deps find_resource urn_of joined_deps copy_into insert
linked-IsRanked urn = elim (Bool-cases ("a" == urn)) [
  | inl first ↦ rw (← (eq_iff "a" urn).0 first) (omega arith, tt)
  | inr other ↦ elim (Bool-cases ("b" == urn)) [
    | inl second ↦ rw (other, second) tt
    | inr neither ↦ rw (other, neither) tt
  ]
]

get_resource-over_store_example :
    (r : Result Resource) × (w' : World (Unit {0})) × (get_resource
        (over_store st over_linked (λ spec w. refl))
        2
        "a"
        world
      ≡ some (r, w'))
    × (world_deps w' ≡ world_deps world)
get_resource-over_store_example =
    get_resource-over_store st over_linked (λ spec w. refl) depth world linked-IsRanked 2 "a"
      (omega arith)

-- a world that counts the syncs, each of which fails
abbrev failing_sync : Call ℕ (Unit {0})
failing_sync n = (err (foreign "no connection"), suc n)

run_syncer-ends_example : Ended (λ n. Unit) (call failing_sync) (foreign "context canceled") 3 0
run_syncer-ends_example =
    run_syncer-ends (λ n. Unit) (call failing_sync) (foreign "context canceled")
      (Total-call failing_sync (λ w p. tt) (λ w a p e. tt)) 3 0 tt

-- a driver that has nothing more to do
abbrev finish : SyncFn (Unit {0})
finish r w = some (ok (record r { state = record r.state { next_sync_at = none } }), w)

abbrev due_row : ResourceRow
due_row = record (row 1 "a" none) { updated_at = 100; state_sync_result = some "" }

abbrev after_sync : Tables
after_sync = record (at_times 130 120) {
  rows = record (at_times 130 120).rows { resources = due_row ∷ row 2 "b" (some 120) ∷ [] };
}

one_is_synced :
    sync_one st any_project finish (at_times 95 120, tt) ≡ some (ok tt, (after_sync, tt))
unfolding sync_one attempt fail pure answer try within_tx statement run_all_hooks
    fetch_resource_for_sync select_due unknown_column find_due is_due in_scope text_column
    extend_wait_time extend_rows run_heartbeat get_by_urn read_resource_parts read_resource_record
    assemble decode_sync_result read_resource_deps resource_of translate_urn_to_id handle_dequeued
    add_deps change_row delete_deps has_dep insert_deps save_revision_if set_columns
    set_dependencies sync_result_as_json translate_deps update update_resource
    update_resource_record without_deps add_labels add_tags has_tag label_map_to_tags read_tags
    set_tags split_tag tags_of tags_to_label_map without_tags entropy.Io.◌>>=◌
    entropy.Io.Calls.◌>>=◌ find_resource copy_into insert joined_deps urn_of
one_is_synced = refl

sync_one-eq-ok_example :
    NoneDue st any_project finish (at_times 95 120) tt after_sync tt
    ⊎ OneSynced st any_project finish (at_times 95 120) tt after_sync tt
sync_one-eq-ok_example =
    sync_one-eq-ok st any_project finish (at_times 95 120) after_sync tt tt one_is_synced
