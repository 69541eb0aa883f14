-- ===== src/Tests/CoreSyncs.antt =====
-- Syncing a firehose, and failing to.
use entropy.Base.{some, none, List, [], ◌∷◌, ◌≡◌, refl, arith, ℕ}
use entropy.Base.Dict.{lookup, insert}
use entropy.Errors.{GoError, foreign}
use entropy.Io.{ok, ◌>>=◌}
use entropy.Resource.{Resource, generate_urn, status_completed, status_error}
use entropy.Core.{
  get_resource, generate_module_spec, resolve_dependencies, check_dependency, refresh_output, now,
  count,
}
use entropy.Core.Sync.{handle_sync}
use entropy.Core.Sync.Outcomes.{Outcome, handle_sync-Outcome}
use entropy.Core.Sync.Retries.{run_of_failures, run_of_failures-ends}
use entropy.Tests.Fixture.{memory, world, firehose, state_of}

abbrev synced : Resource
synced = record firehose {
  updated_at = 10;
  state = state_of status_completed firehose.state.output;
}

sync_firehose : handle_sync memory 2 firehose world ≡ some (ok synced, record world { time = 11 })
unfolding handle_sync get_resource generate_module_spec resolve_dependencies check_dependency
    refresh_output now count lookup insert generate_urn ◌>>=◌
sync_firehose = refl

handle_sync-Outcome_example : Outcome memory 2 firehose synced
handle_sync-Outcome_example =
    handle_sync-Outcome memory 2 firehose world (record world { time = 11 }) synced sync_firehose

abbrev failures : List (GoError × ℕ)
failures = (foreign "no route to host", 20) ∷ (foreign "no route to host", 90) ∷ []

run_of_failures-ends_example :
    ((run_of_failures 2 60 failures firehose).state.status ≡ status_error)
    × ((run_of_failures 2 60 failures firehose).state.next_sync_at ≡ none)
run_of_failures-ends_example =
    run_of_failures-ends 2 60 failures firehose (refl, (refl, tt)) (omega arith) (omega arith) refl
