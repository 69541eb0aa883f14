-- ===== src/Core/Sync/Outcomes.antt =====
-- `handleSync` of core/sync.go: what it makes of a resource.
use entropy.Base.{
  ℕ, ◌+◌, ◌<◌, ◌≤◌, true, false, none, some, ◌≡◌, ◌⊎◌, sym, ◌∙◌, ap, inl, inr, arith, Bool-cases,
}
use entropy.Errors.{GoError, own, err_invalid, is, go_text}
use entropy.Io.{Result, ok, err, call, attempt}
use entropy.Io.Invert.{bind-eq-ok, attempt-eq-ok, pure-eq-ok}
use entropy.Resource.{Resource, State, status_error}
use entropy.Module.{ExpandedResource}
use entropy.Core.{
  Service, now, count, retry_counter, completed_counter, error_counter, generate_module_spec,
  get_resource,
}
use entropy.Core.Sync.{
  note_failure, give_up, try_again_at, is_final, sync_failed, sync_succeeded, sync_result_of,
  handle_sync,
}

-- a resource with another state, in which a failure is noted
abbrev pub noting : GoError → State → Resource → Resource
noting e state res = record res {
  state = record state {
    sync_result = record { retries = res.state.sync_result.retries + 1; last_error = go_text e };
  };
}

-- The error is final, or the limit of retries, if there is one, is reached.
abbrev pub IsFinal : ℕ → GoError → Resource → Type 0
IsFinal limit e res =
    (is e (own err_invalid) ≡ true) ⊎ ((1 ≤ limit) × (limit ≤ res.state.sync_result.retries + 1))

-- Neither of these.
abbrev pub IsRetried : ℕ → GoError → Resource → Type 0
IsRetried limit e res =
    (is e (own err_invalid) ≡ false) × ((limit ≡ 0) ⊎ (res.state.sync_result.retries + 1 < limit))

is_final-cases :
    (limit : ℕ) (e : GoError) (res : Resource)
    → (is_final limit e (note_failure e res) ≡ true → IsFinal limit e res)
      × (is_final limit e (note_failure e res) ≡ false → IsRetried limit e res)
unfolding is_final note_failure
is_final-cases limit e res = (λ h. ground arith, λ h. ground arith)

module _ {W : Type 0} (svc : Service W) (fuel : ℕ) (res : Resource) where
  -- What one sync of `res` makes of it. In each case the driver was asked about `res` with its
  -- dependencies, in the world `w` that reading these has left.
  pub data Outcome (r : Resource) : Type 0 where
    synced :
        (spec : ExpandedResource) (u w w1 : W) (new_state : State)
        → generate_module_spec (get_resource svc fuel) res u ≡ some (ok spec, w)
        → svc.module_svc.sync_state spec w ≡ (ok new_state, w1)
        → r ≡ record res { updated_at = (svc.clock w1).0; state = new_state }
        → Outcome r
    given_up :
        (spec : ExpandedResource) (u w w1 : W) (e : GoError)
        → generate_module_spec (get_resource svc fuel) res u ≡ some (ok spec, w)
        → svc.module_svc.sync_state spec w ≡ (err e, w1)
        → IsFinal svc.max_sync_retries e res
        → r ≡ noting e (record res.state { status = status_error; next_sync_at = none }) res
        → Outcome r
    retried :
        (spec : ExpandedResource) (u w w1 : W) (e : GoError)
        → generate_module_spec (get_resource svc fuel) res u ≡ some (ok spec, w)
        → svc.module_svc.sync_state spec w ≡ (err e, w1)
        → IsRetried svc.max_sync_retries e res
        → r
          ≡ noting e
              (record res.state {
                next_sync_at =
                    some
                      ((svc.clock (svc.add_counter retry_counter res.urn w1)).0 + svc.sync_backoff);
              })
              res
        → Outcome r

  now-eq-ok : (w w' : W) (t : ℕ) → now svc w ≡ some (ok t, w') → t ≡ (svc.clock w).0
  unfolding now
  now-eq-ok w w' t e = ground arith

  count-eq-ok :
      (w w' : W)
      → count svc retry_counter res.urn w ≡ some (ok tt, w')
      → w' ≡ svc.add_counter retry_counter res.urn w
  unfolding count
  count-eq-ok w w' e = ground arith

  module _ (spec : ExpandedResource) (u w w1 : W)
      (read : generate_module_spec (get_resource svc fuel) res u ≡ some (ok spec, w)) where
    sync_failed-Outcome :
        (e : GoError) (w' : W) (r : Resource)
        → svc.module_svc.sync_state spec w ≡ (err e, w1)
        → sync_failed svc e res w1 ≡ some (ok r, w')
        → Outcome r
    unfolding sync_failed note_failure give_up try_again_at
    sync_failed-Outcome e w' r answer h =
        let (_, w2, counted, h1) = bind-eq-ok (count svc retry_counter res.urn) _ w1 h in
        let (final_case, retried_case) = is_final-cases svc.max_sync_retries e res in
        elim (Bool-cases (is_final svc.max_sync_retries e (note_failure e res))) [
          | inl final ↦
              let (_, w3, _, h2) =
                bind-eq-ok (count svc error_counter res.urn) _ w2 (rw final at h1) in
              let (same, _) = pure-eq-ok _ w3 h2 in
              given_up spec u w w1 e read answer (final_case final) (sym same)
          | inr more ↦
              let (t, w3, clocked, h2) = bind-eq-ok (now svc) _ w2 (rw more at h1) in
              let (same, _) = pure-eq-ok _ w3 h2 in
              let timed : t ≡ (svc.clock (svc.add_counter retry_counter res.urn w1)).0 =
                now-eq-ok w2 w3 t clocked ∙ ap (λ x. (svc.clock x).0) (count-eq-ok w1 w2 counted) in
              retried spec u w w1 e read answer (retried_case more) (
                sym same ∙ ap (λ x. try_again_at (x + svc.sync_backoff) (note_failure e res)) timed)
        ]

    sync_result_of-Outcome :
        (a : Result State) (w' : W) (r : Resource)
        → svc.module_svc.sync_state spec w ≡ (a, w1)
        → sync_result_of svc a res w1 ≡ some (ok r, w')
        → Outcome r
    unfolding sync_succeeded
    sync_result_of-Outcome (ok new_state) w' r answer h =
        let (t, w2, clocked, h1) = bind-eq-ok (now svc) _ w1 h in
        let (_, w3, _, h2) = bind-eq-ok (count svc completed_counter res.urn) _ w2 h1 in
        let (same, _) = pure-eq-ok _ w3 h2 in
        synced spec u w w1 new_state read answer (
          sym same
          ∙ ap (λ x. record res { updated_at = x; state = new_state }) (now-eq-ok w1 w2 t clocked))
    sync_result_of-Outcome (err e) w' r answer h = sync_failed-Outcome e w' r answer h

  -- If `handleSync` returns a resource, then the driver was asked about the given resource with its
  -- dependencies. Where it answered with a new state, this replaces the old one as a whole, and the
  -- time of update is that of the clock after the answer. Where it answered with an error, this is
  -- noted with one more retry: if the error is one of an invalid request or the limit of retries, where
  -- there is one, is reached, the state is the error state without a next sync; otherwise the next sync
  -- is after the backoff from the time of the clock. Nothing else of the resource changes.
  pub handle_sync-Outcome :
      (w w' : W) (r : Resource) → handle_sync svc fuel res w ≡ some (ok r, w') → Outcome r
  unfolding handle_sync
  handle_sync-Outcome w w' r h =
      let (_, w1, _, h1) = bind-eq-ok _ _ w h in
      let (_, w2, _, h2) = bind-eq-ok _ _ w1 h1 in
      let (_, w3, _, h3) = bind-eq-ok _ _ w2 h2 in
      let (spec, w4, read, h4) =
        bind-eq-ok (generate_module_spec (get_resource svc fuel) res) _ w3 h3 in
      let (answer, w5, asked, h5) =
        bind-eq-ok (attempt (call (svc.module_svc.sync_state spec))) _ w4 h4 in
      let answered = attempt-eq-ok (call (svc.module_svc.sync_state spec)) w4 asked in
      sync_result_of-Outcome spec w3 w4 w5 read answer w' r (unfold call in ground arith) h5
