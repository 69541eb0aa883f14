-- ===== src/Core/Sync.antt =====
-- core/sync.go: what the syncer does with a resource that is due.
pub mod Retries
pub mod Outcomes
use entropy.Base.{ℕ, ◌+◌, Bool, ◌&&◌, none, some, ◌||◌, ltb, leb, if◌then◌else◌}
use entropy.Errors.{GoError, own, err_invalid, is, go_text}
use entropy.Io.{Result, ok, err, Go, pure, call, attempt, ◌>>=◌, ◌>>◌}
use entropy.Resource.{Resource, State, status_error}
use entropy.Core.{
  Service, completed_counter, error_counter, retry_counter, now, count, generate_module_spec,
  get_resource,
}

-- `res.State.SyncResult.LastError = err.Error(); res.State.SyncResult.Retries++`
unfoldable pub note_failure : GoError → Resource → Resource
note_failure e res = record res {
  state = record res.state {
    sync_result = record { retries = res.state.sync_result.retries + 1; last_error = go_text e };
  };
}

unfoldable pub give_up : Resource → Resource
give_up res = record res { state = record res.state { status = status_error; next_sync_at = none } }

unfoldable pub try_again_at : ℕ → Resource → Resource
try_again_at t res = record res { state = record res.state { next_sync_at = some t } }

-- no more retries: the error is final, or the limit is reached
unfoldable pub is_final : ℕ → GoError → Resource → Bool
is_final max_retries e res =
    is e (own err_invalid) || (ltb 0 max_retries && leb max_retries res.state.sync_result.retries)

module _ {W : Type 0} (svc : Service W) where
  -- the branch of `handleSync` for a sync that failed
  unfoldable pub sync_failed : GoError → Resource → Go W Resource
  unfolding note_failure give_up try_again_at is_final
  sync_failed e res = do
    let noted = note_failure e res
    count svc retry_counter res.urn
    if is_final svc.max_sync_retries e noted
        then (do count svc error_counter res.urn; pure (give_up noted))
        else (do t ← now svc; pure (try_again_at (t + svc.sync_backoff) noted))

  -- the branch for one that succeeded: the new state replaces the old one as a whole
  unfoldable pub sync_succeeded : State → Resource → Go W Resource
  sync_succeeded new_state res = do
    t ← now svc
    count svc completed_counter res.urn
    pure (record res { updated_at = t; state = new_state })

  abbrev pub sync_result_of : Result State → Resource → Go W Resource
  sync_result_of (ok new_state) res = sync_succeeded new_state res
  sync_result_of (err e) res = sync_failed e res

  unfoldable pub handle_sync : ℕ → Resource → Go W Resource
  unfolding sync_failed sync_succeeded
  handle_sync fuel res = do
    call (svc.setup_counter retry_counter)
    call (svc.setup_counter error_counter)
    call (svc.setup_counter completed_counter)
    spec ← generate_module_spec (get_resource svc fuel) res
    result ← attempt (call (svc.module_svc.sync_state spec))
    sync_result_of result res
