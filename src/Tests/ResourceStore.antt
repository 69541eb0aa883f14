-- ===== src/Tests/ResourceStore.antt =====
-- The store of resources: a Kafka cluster, and a firehose that depends on it.
use entropy.Base.{true, none, some, List, [], ◌∷◌, ◌≡◌, refl, arith}
use entropy.Errors.{foreign}
use entropy.Io.{ok, err}
use entropy.Resource.{Resource}
use entropy.Io.Calls.{answer, try, ◌>>=◌}
use entropy.Postgres.{ResourceRow, Tables, MutationHook, statement, within_tx, run_all_hooks}
use entropy.Base.Dict.{has_key}
use entropy.Postgres.Tags.Laws.{has_equals}
use entropy.Postgres.Tags.{set_tags, add_tags, has_tag, without_tags, label_map_to_tags}
use entropy.Postgres.Gives.{content}
use entropy.Postgres.Undone.{IsSettled, AllOk, write-IsSettled}
use entropy.Postgres.Resources.{Store, find_resource, urn_of, translate_urn_to_id, get_by_urn}
use entropy.Postgres.Resources.Writes.{
  insert_resource, translating, insert_resource_record, set_dependencies, delete_deps, insert_deps,
  translate_deps, insert_revision, revision_of, row_of, add_deps, has_dep, without_deps,
  sync_result_as_json, create, update, delete, update_resource, update_resource_record, change_row,
  set_columns, save_revision_if,
}
use entropy.Postgres.Resources.Created.{IsOrdered}
use entropy.Postgres.Resources.Found.{non_nils, get_by_urn-create}
use entropy.Postgres.Resources.Rewritten.{rewritten, get_by_urn-update}
use entropy.Postgres.Resources.Interface.{create-KeepsOrder}

abbrev pub empty : Tables
empty = record {
  modules = [];
  rows = record {
    resources = [];
    dependencies = [];
    resource_tags = [];
    revisions = [];
    revision_tags = [];
  };
  next_resource_id = 1;
  next_revision_id = 1;
  locked = [];
  time = 100;
  faults = [];
}

-- a JSON library that knows the zero value
abbrev pub st : Store
st = record {
  json = record {
    marshal = λ r. "{}";
    unmarshal = λ text. ok (record { retries = 0; last_error = "" });
  };
  extend_interval = 30;
  ticks = [];
  pagination_size_default = 0;
  pagination_page_default = 1;
}

abbrev pub kafka : Resource
kafka = record {
  urn = "orn:entropy:kafka:shop:main";
  kind = "kafka";
  name = "main";
  project = "shop";
  labels = none;
  created_at = 90;
  updated_at = 90;
  updated_by = "ann";
  created_by = "ann";
  spec = record { configs = some "{}"; dependencies = [] };
  state = record {
    status = "STATUS_COMPLETED";
    output = some "{}";
    module_data = none;
    next_sync_at = some 120;
    sync_result = record { retries = 0; last_error = "" };
  };
}

abbrev pub firehose : Resource
firehose = record kafka {
  urn = "orn:entropy:firehose:shop:logs";
  kind = "firehose";
  name = "logs";
  labels = some (("team", "data") ∷ ("env", "a=b") ∷ []);
  spec = record {
    configs = some "{}";
    dependencies = ("kafka", "orn:entropy:kafka:shop:main") ∷ [];
  };
  state = record kafka.state { status = "STATUS_PENDING"; next_sync_at = some 95 };
}

abbrev pub one : Tables
one = (create st kafka [] empty).1

abbrev pub two : Tables
two = (create st firehose [] one).1

empty-IsOrdered : IsOrdered (content empty)
unfolding find_resource urn_of
empty-IsOrdered = (λ urn row e. ground arith, λ id above. refl)

one-IsOrdered : IsOrdered (content one)
one-IsOrdered = create-KeepsOrder st kafka empty empty-IsOrdered

created : create st firehose [] one ≡ (ok tt, two)
unfolding create within_tx statement answer try ◌>>=◌ insert_resource translating
    insert_resource_record find_resource set_tags set_dependencies delete_deps insert_deps
    translate_deps translate_urn_to_id insert_revision revision_of run_all_hooks row_of add_tags
    has_tag without_tags label_map_to_tags add_deps has_dep without_deps sync_result_as_json
created = refl

no_faults : two.faults ≡ []
unfolding create within_tx statement answer try ◌>>=◌ insert_resource translating
    insert_resource_record find_resource set_tags set_dependencies delete_deps insert_deps
    translate_deps translate_urn_to_id insert_revision revision_of run_all_hooks row_of add_tags
    has_tag without_tags label_map_to_tags add_deps has_dep without_deps sync_result_as_json
no_faults = refl

get_by_urn-create_example : get_by_urn st firehose.urn two ≡ (ok (non_nils firehose), two)
unfolding has_equals has_key
get_by_urn-create_example =
    get_by_urn-create st firehose one two one-IsOrdered created (refl, (refl, tt))
      (refl, (refl, tt)) (refl, tt) (refl, refl) no_faults

-- the last of two hooks fails
abbrev hooks : List MutationHook
hooks = ok tt ∷ err (foreign "hook failed") ∷ []

write-IsSettled_example :
    IsSettled (AllOk hooks) two (create st firehose hooks two)
    × IsSettled (AllOk hooks) two (update st firehose true "action:update" hooks two)
    × IsSettled (AllOk hooks) two (delete firehose.urn hooks two)
write-IsSettled_example = write-IsSettled st firehose firehose.urn true "action:update" hooks two

-- the firehose with other labels, synced once without success
abbrev pub failing : Resource
failing = record firehose {
  labels = some (("team", "infra") ∷ []);
  state = record firehose.state { next_sync_at = some 130 };
}

abbrev pub three : Tables
three = (update st failing true "action:update" [] two).1

two-IsOrdered : IsOrdered (content two)
two-IsOrdered = create-KeepsOrder st firehose one one-IsOrdered

updated : update st failing true "action:update" [] two ≡ (ok tt, three)
unfolding create update within_tx statement answer try ◌>>=◌ insert_resource translating
    insert_resource_record find_resource set_tags set_dependencies delete_deps insert_deps
    translate_deps translate_urn_to_id insert_revision revision_of run_all_hooks row_of add_tags
    has_tag without_tags label_map_to_tags add_deps has_dep without_deps sync_result_as_json
    update_resource update_resource_record change_row set_columns save_revision_if
updated = refl

still_no_faults : three.faults ≡ []
unfolding create update within_tx statement answer try ◌>>=◌ insert_resource translating
    insert_resource_record find_resource set_tags set_dependencies delete_deps insert_deps
    translate_deps translate_urn_to_id insert_revision revision_of run_all_hooks row_of add_tags
    has_tag without_tags label_map_to_tags add_deps has_dep without_deps sync_result_as_json
    update_resource update_resource_record change_row set_columns save_revision_if
still_no_faults = refl

get_by_urn-update_example :
    (old : ResourceRow) × (find_resource failing.urn two.rows.resources ≡ some old)
    × (get_by_urn st failing.urn three ≡ (ok (rewritten old two.time failing), three))
unfolding has_equals has_key
get_by_urn-update_example =
    get_by_urn-update st failing true "action:update" two three two-IsOrdered updated (refl, tt)
      (refl, tt) (refl, tt) (refl, refl) still_no_faults
