-- ===== src/Firehose/Planned.antt =====
-- What `Plan` of modules/firehose/driver_plan.go leaves behind, for each action.
use entropy.Base.{ℕ, String, some, List, [], ◌∷◌, ◌≡◌, ◌==◌, if◌then◌else◌}
use entropy.Module.{create_action}
use entropy.Resource.{Resource, status_pending}
use entropy.Firehose.{
  Config, Libraries, TransientData, step_release_create, step_release_update, step_release_stop,
  step_kafka_reset,
}
use entropy.Firehose.Plans.{reset_action, reset_v2_action}

-- the steps that a resource is synced with, for the action that it is planned for
abbrev pub steps_of : String → List String
steps_of action =
    if action == create_action
    then step_release_create ∷ []
    else if action == reset_action
    then step_release_stop ∷ step_release_update ∷ []
    else if action == reset_v2_action
    then step_release_stop ∷ step_kafka_reset ∷ step_release_update ∷ []
    else step_release_update ∷ []

-- A resource with a new specification and state: its configuration is that of a firehose, its
-- dependencies and all its other fields are those of before, and it is pending, to be synced at the
-- given time with the given steps.
abbrev pub IsPlanned : Libraries → ℕ → Resource → List String → Resource → Type 0
IsPlanned lib now old steps r =
    (conf : Config) × (data' : TransientData) × (r ≡ record old { spec = r.spec; state = r.state })
    × (r.spec ≡ record old.spec { configs = some (lib.encode_config conf) })
    × (r.state.status ≡ status_pending)
    × (r.state.next_sync_at ≡ some now)
    × (r.state.module_data ≡ some (lib.encode_transient data'))
    × (data'.pending_steps ≡ steps)
