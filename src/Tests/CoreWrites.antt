-- ===== src/Tests/CoreWrites.antt =====
-- Changing a firehose, trying to, and creating a cluster.
use entropy.Base.{
  String, true, false, some, none, [], ◌∷◌, ◌≡◌, refl, arith, eq_iff, inl, inr, ◌↔◌, Option-cases,
}
use entropy.Base.Dict.{
  Dict, entries, lookup, insert, or_else, copy_into, remove, has_key, lookup-insert,
}
use entropy.Base.Text.{trim_space, trim_left, trim_right}
use entropy.Io.{ok, ◌>>=◌}
use entropy.Resource.{Resource, generate_urn, validate, is_terminal, status_pending}
use entropy.Resource.Naming.{
  matches_naming, matches_naming_digits, is_letter, is_name_char, all_name_chars, some_name_chars,
}
use entropy.Core.{
  get_resource, generate_module_spec, resolve_dependencies, check_dependency, refresh_output, now,
  count,
}
use entropy.Core.Write.{
  dry_run_of, merge_labels, apply_action, create_resource, exec_action, plan_change, plan_failure,
  persist, upsert, upsert_failure, stamp, is_create, drop_empty,
}
use entropy.Core.Write.Executed.{Executed}
use entropy.Core.Write.Created.{create_resource-eq-ok}
use entropy.Core.Write.DryRun.{SurvivesReads, apply_action-dry_run}
use entropy.Core.Write.Labels.{non_empty, lookup-merge_labels}
use entropy.Tests.Fixture.{
  World, memory, world, firehose, firehose_urn, scale_up, request, state_of, put,
}

abbrev scaled : Resource
scaled = record firehose {
  spec = record firehose.spec { configs = some "{\"replicas\":2}" };
  state = state_of status_pending firehose.state.output;
  updated_at = 10;
  updated_by = "bob";
}

abbrev later : World
later = record world { time = 11 }

abbrev created : Resource
created = record request {
  urn = "orn:entropy:kubernetes:shop:k2";
  state = state_of status_pending request.state.output;
  created_at = 10;
  updated_at = 10;
}

create_request : create_resource memory 1 request [] world ≡ some (ok created, put created later)
unfolding apply_action create_resource exec_action plan_change plan_failure persist upsert
    upsert_failure stamp is_create merge_labels drop_empty dry_run_of get_resource
    generate_module_spec resolve_dependencies check_dependency refresh_output now count is_terminal
    validate generate_urn matches_naming matches_naming_digits is_letter is_name_char all_name_chars
    some_name_chars trim_space trim_left trim_right copy_into insert remove lookup ◌>>=◌
create_request = refl

create_resource-eq-ok_example :
    (matches_naming created.kind ≡ true)
    × (matches_naming_digits created.name ≡ true)
    × (matches_naming created.project ≡ true)
    × (created.urn ≡ generate_urn created.kind created.project created.name)
    × (created.created_by ≡ request.created_by)
    × (created.updated_by ≡ request.created_by)
    × (created.created_at ≡ created.updated_at)
    × (created.labels ≡ merge_labels request.labels request.labels)
    × (dry_run_of false [] ≡ false → (u : World) × ((memory.store.create created u).0 ≡ ok tt))
create_resource-eq-ok_example =
    create_resource-eq-ok memory 1 request [] world (put created later) created create_request

-- nobody has created the second cluster
abbrev IsFree : World → Type 0
IsFree w = lookup "orn:entropy:kubernetes:shop:k2" w.resources ≡ none

put-IsFree :
    (r : Resource) (w : World) (s : Resource)
    → lookup r.urn w.resources ≡ some s
    → IsFree w
    → IsFree (put r w)
put-IsFree r w s there free =
    rw (lookup-insert r.urn "orn:entropy:kubernetes:shop:k2" r w.resources)
      (ground (arith, eq_iff r.urn "orn:entropy:kubernetes:shop:k2"))

update-IsFree : (r : Resource) (w : World) → IsFree w → IsFree (memory.store.update r false "" w).1
update-IsFree r w free = elim (Option-cases (lookup r.urn w.resources)) [
  | inl missing ↦ rw missing free
  | inr (s, there) ↦ rw there (put-IsFree r w s there free)
]

memory-SurvivesReads : SurvivesReads memory IsFree
memory-SurvivesReads = record {
  get_by_urn = λ urn w p. p;
  update_output = update-IsFree;
  get_output = λ spec w p. p;
  plan_action = λ spec act w p. p;
  clock = λ w p. p;
  setup_counter = λ c w p. p;
  add_counter = λ c urn w p. p;
}

dry_scale :
    apply_action memory 2 firehose_urn scale_up (record { dry_run = true } ∷ []) world
    ≡ some (ok scaled, later)
unfolding apply_action create_resource exec_action plan_change plan_failure persist upsert
    upsert_failure stamp is_create merge_labels drop_empty dry_run_of get_resource
    generate_module_spec resolve_dependencies check_dependency refresh_output now count is_terminal
    validate generate_urn matches_naming matches_naming_digits is_letter is_name_char all_name_chars
    some_name_chars trim_space trim_left trim_right copy_into insert remove lookup ◌>>=◌
dry_scale = refl

apply_action-dry_run_example : IsFree later
unfolding dry_run_of lookup
apply_action-dry_run_example =
    apply_action-dry_run memory IsFree memory-SurvivesReads 2 firehose_urn scale_up
      (record { dry_run = true } ∷ []) refl world later (ok scaled) refl dry_scale

abbrev old_labels : Dict String
old_labels = ("team", "data") ∷ ("env", "dev") ∷ []

abbrev new_labels : Dict String
new_labels = ("env", "") ∷ ("tier", "gold") ∷ []

lookup-merge_labels_example :
    (lookup "tier" (entries (merge_labels (some old_labels) (some new_labels)))
      ≡ non_empty (or_else (lookup "tier" new_labels) (lookup "tier" old_labels)))
    × ((merge_labels (some old_labels) (some new_labels) ≡ none)
        ↔ ((some old_labels ≡ none) × (some new_labels ≡ none)))
unfolding has_key
lookup-merge_labels_example =
    lookup-merge_labels "tier" (some old_labels) (some new_labels) (refl, (refl, tt))
      (refl, (refl, tt))
