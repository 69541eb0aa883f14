-- ===== src/Worker/Attempts.antt =====
-- `Attempt` of pkg/worker/job.go.
use entropy.Base.{ℕ, ◌+◌, ◌≤◌, String, Option, none, some, ◌≡◌, refl, arith}
use entropy.Errors.{GoError}
use entropy.Worker.{
  Job, JobFn, Outcome, returned, failed, panicked, Context, status_done, status_pending, backoff,
  as_retryable, failed_job, settled, noted, attempt, min_retry_backoff,
}

-- Why a job is pending after an attempt: it was not run, or its function asked for a retry.
abbrev pub MayRetry : Context → Outcome → Type 0
MayRetry (some cause) outcome = Unit
MayRetry none (returned res) = ⊥
MayRetry none (failed e) = (r : String × ℕ) × (as_retryable e ≡ some r)
MayRetry none (panicked v) = ⊥

abbrev pub delay_of : Option (String × ℕ) → ℕ
delay_of none = 0
delay_of (some (_, after)) = after

-- the delay that was asked for
abbrev pub asked : Context → Outcome → ℕ
asked none (failed e) = delay_of (as_retryable e)
asked _ _ = 0

-- An attempt at the time `now` that ends with `outcome`: `job` has become `job'`.
pub record Attempted (ctx : Context) (now : ℕ) (outcome : Outcome) (job job' : Job) : Type 0 where
  pub id : job'.id ≡ job.id
  pub kind : job'.kind ≡ job.kind
  pub payload : job'.payload ≡ job.payload
  pub attempts_done : job'.attempts_done ≡ job.attempts_done + 1
  pub times : (job'.last_attempt_at ≡ now) × (job'.updated_at ≡ now)
  pub retried :
      job'.status ≡ status_pending
      → MayRetry ctx outcome
        × (now + min_retry_backoff ≤ job'.run_at)
        × (now + asked ctx outcome ≤ job'.run_at)
  pub done : job'.status ≡ status_done → (ctx ≡ none) × (outcome ≡ returned job'.result)

backoff-bounds : (after : ℕ) → (min_retry_backoff ≤ backoff after) × (after ≤ backoff after)
unfolding backoff
backoff-bounds after = (ground arith, ground arith)

failed_job-Attempted :
    (now : ℕ) (e : GoError) (o : Option (String × ℕ)) (job : Job)
    → as_retryable e ≡ o
    → Attempted none now (failed e) job (noted now (failed_job now e o job))
unfolding noted
failed_job-Attempted now e none job h = record {
  id = refl;
  kind = refl;
  payload = refl;
  attempts_done = refl;
  times = (refl, refl);
  retried = λ p. cc;
  done = λ p. cc;
}
failed_job-Attempted now e (some (text, after)) job h = record {
  id = refl;
  kind = refl;
  payload = refl;
  attempts_done = refl;
  times = (refl, refl);
  retried = λ p.
      let (floor, wait) = backoff-bounds after in
      (((text, after), h), omega (arith, floor), rw h (omega (arith, wait)));
  done = λ p. cc;
}

settled-Attempted :
    (now : ℕ) (outcome : Outcome) (job : Job)
    → Attempted none now outcome job (noted now (settled now outcome job))
unfolding settled noted
settled-Attempted now (returned res) job = record {
  id = refl;
  kind = refl;
  payload = refl;
  attempts_done = refl;
  times = (refl, refl);
  retried = λ p. cc;
  done = λ p. (refl, refl);
}
settled-Attempted now (failed e) job = failed_job-Attempted now e (as_retryable e) job refl
settled-Attempted now (panicked v) job = record {
  id = refl;
  kind = refl;
  payload = refl;
  attempts_done = refl;
  times = (refl, refl);
  retried = λ p. cc;
  done = λ p. cc;
}

-- After an attempt the job is the same job with one attempt more, made now. It is pending only if it
-- was cancelled before it ran or its function asked for a retry, and then it is to run again after
-- the delay asked for, and five seconds at the least. It is done only if its function ran and
-- returned its result; whatever the function does, a panic included, the attempt is noted.
pub attempt-Attempted :
    {V : Type 0} (ctx : Context) (now : ℕ) (fn : JobFn V) (job : Job) (v : V)
    → Attempted ctx now (fn job v).0 job (attempt ctx now fn job v).0
unfolding attempt noted
attempt-Attempted none now fn job v = settled-Attempted now (fn job v).0 job
attempt-Attempted (some cause) now fn job v = record {
  id = refl;
  kind = refl;
  payload = refl;
  attempts_done = refl;
  times = (refl, refl);
  retried = λ p. (tt, omega arith, omega arith);
  done = λ p. cc;
}
