-- ===== src/Core/Sync/Retries.antt =====
-- How many failed syncs a resource is allowed, in `handleSync` of core/sync.go.
use entropy.Base.{
  sym, if◌then◌else◌, Bool-cases, inl, inr, ℕ, ◌+◌, ◌≤◌, ◌<◌, false, none, some, List, [], ◌∷◌, ◌≡◌,
  refl, ◌∙◌, arith, length, All,
}
use entropy.Errors.{GoError, own, err_invalid, is}
use entropy.Resource.{Resource, status_error}
use entropy.Core.{Service}
use entropy.Core.Sync.{note_failure, give_up, try_again_at, is_final, sync_failed}
use entropy.Io.{ok}
use entropy.Io.Invert.{bind-eq-ok, pure-eq-ok}

-- The resource after a failed sync, at the time `t`.
unfoldable pub after_failure : ℕ → ℕ → GoError → ℕ → Resource → Resource
unfolding note_failure give_up try_again_at
after_failure max_retries backoff e t res =
    let noted = note_failure e res in
    if is_final max_retries e noted then give_up noted else try_again_at (t + backoff) noted

module _ {W : Type 0} (svc : Service W) (res : Resource) where
  -- `after_failure` is what the branch of `handleSync` for a failure makes of a resource
  sync_failed-eq-ok :
      (e : GoError) (w w' : W) (r : Resource)
      → sync_failed svc e res w ≡ some (ok r, w')
      → (t : ℕ) × (r ≡ after_failure svc.max_sync_retries svc.sync_backoff e t res)
  unfolding sync_failed after_failure
  sync_failed-eq-ok e w w' r h =
      let (_, w1, _, h1) = bind-eq-ok _ _ w h in
      elim (Bool-cases (is_final svc.max_sync_retries e (note_failure e res))) [
        | inl final ↦
            let (_, w2, _, h2) = bind-eq-ok _ _ w1 (rw final at h1) in
            let (same, _) = pure-eq-ok _ w2 h2 in (0, rw final (sym same))
        | inr more ↦
            let (t, w2, _, h2) = bind-eq-ok _ _ w1 (rw more at h1) in
            let (same, _) = pure-eq-ok _ w2 h2 in (t, rw more (sym same))
      ]

module _ (max_retries backoff : ℕ) where
  -- one failed sync after the other, each with its error and its time
  unfoldable pub run_of_failures : List (GoError × ℕ) → Resource → Resource
  run_of_failures [] res = res
  run_of_failures ((e, t) ∷ failures) res =
      run_of_failures failures (after_failure max_retries backoff e t res)

  abbrev pub NotInvalid : GoError × ℕ → Type 0
  NotInvalid failure = is failure.0 (own err_invalid) ≡ false

  abbrev retries : Resource → ℕ
  retries res = res.state.sync_result.retries

  backed_off :
      (e : GoError) (t : ℕ) (res : Resource)
      → is e (own err_invalid) ≡ false
      → (0 < max_retries → retries res + 1 < max_retries)
      → (retries (after_failure max_retries backoff e t res) ≡ retries res + 1)
        × ((after_failure max_retries backoff e t res).state.status ≡ res.state.status)
        × ((after_failure max_retries backoff e t res).state.next_sync_at ≡ some (t + backoff))
  unfolding after_failure is_final
  backed_off e t res valid room = (ground arith, ground arith, ground arith)

  gave_up :
      (e : GoError) (t : ℕ) (res : Resource)
      → 0 < max_retries
      → max_retries ≤ retries res + 1
      → (retries (after_failure max_retries backoff e t res) ≡ retries res + 1)
        × ((after_failure max_retries backoff e t res).state.status ≡ status_error)
        × ((after_failure max_retries backoff e t res).state.next_sync_at ≡ none)
  unfolding after_failure is_final
  gave_up e t res pos full = (ground arith, ground arith, ground arith)

  -- While fewer failures than the limit are counted, or with no limit, a run of failures, none of
  -- which is of an invalid request, leaves the status as it was and counts each failure.
  pub run_of_failures-keeps :
      (failures : List (GoError × ℕ)) (res : Resource)
      → All NotInvalid failures
      → (0 < max_retries → retries res + length failures < max_retries)
      → ((run_of_failures failures res).state.status ≡ res.state.status)
        × (retries (run_of_failures failures res) ≡ retries res + length failures)
  unfolding run_of_failures
  run_of_failures-keeps [] res valid room = (refl, omega arith)
  run_of_failures-keeps ((e, t) ∷ failures) res (valid, later) room =
      let next : Resource = after_failure max_retries backoff e t res in
      let (counted, same, _) = backed_off e t res valid (λ p. omega (arith, room p)) in
      let (status, total) =
        run_of_failures-keeps failures next later (λ p. omega (arith, room p)) in
      (status ∙ same, omega arith)

  -- With a positive limit, a run of failures that reaches it, none of them of an invalid request,
  -- ends in the error state with no next sync.
  pub run_of_failures-ends :
      (failures : List (GoError × ℕ)) (res : Resource)
      → All NotInvalid failures
      → 0 < max_retries
      → 0 < length failures
      → retries res + length failures ≡ max_retries
      → ((run_of_failures failures res).state.status ≡ status_error)
        × ((run_of_failures failures res).state.next_sync_at ≡ none)
  unfolding run_of_failures
  run_of_failures-ends [] res valid pos some_failure full = absurd (omega arith)
  run_of_failures-ends ((e, t) ∷ []) res valid pos some_failure full =
      let (_, status, next) = gave_up e t res pos (omega arith) in (status, next)
  run_of_failures-ends ((e, t) ∷ f ∷ failures) res (valid, later) pos some_failure full =
      let next : Resource = after_failure max_retries backoff e t res in
      let (counted, _, _) = backed_off e t res valid (λ p. omega arith) in
      run_of_failures-ends (f ∷ failures) next later pos (omega arith) (omega arith)
