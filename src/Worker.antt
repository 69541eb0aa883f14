-- ===== src/Worker.antt =====
-- pkg/worker/job.go and pkg/worker/worker.go: jobs, the functions that handle them, and the worker
-- over a queue of jobs. Times and delays count milliseconds; a delay below 0 is 0 here.
pub mod Attempts
pub mod Run
pub mod Pgq
use entropy.Base.{
  ℕ, ◌+◌, String, Bool, true, false, not, Option, none, some, List, [], ◌∷◌, ◌==◌, leb, eqb,
  if◌then◌else◌,
}
use entropy.Base.Text.{◌<>◌, trim_space}
use entropy.Errors.{
  GoError, own, no_rows, cancelled, deadline_exceeded, pq_error, retryable, foreign, wrapped,
  go_text,
}
use entropy.Io.{Result, ok, err, Call}
use entropy.Resource.{RawMessage}

-- minRetryBackoff
abbrev pub min_retry_backoff : ℕ
min_retry_backoff = 5000

abbrev pub status_done : String
status_done = "DONE"

abbrev pub status_panic : String
status_panic = "PANIC"

abbrev pub status_failed : String
status_failed = "FAILED"

abbrev pub status_pending : String
status_pending = "PENDING"

abbrev pub err_job_exists : GoError
err_job_exists = foreign "job with id exists"

abbrev pub err_invalid_job : GoError
err_invalid_job = foreign "job is not valid"

abbrev pub err_kind_exists : GoError
err_kind_exists = foreign "handler for given kind exists"

abbrev pub err_unknown_kind : GoError
err_unknown_kind = foreign "job kind is invalid"

-- fmt.Errorf("%w: …", e)
abbrev pub wrap : GoError → String → GoError
wrap e text = wrapped (go_text e <> ": " <> text) e

pub record Job : Type 0 where
  pub id : String
  pub kind : String
  pub run_at : ℕ
  pub payload : RawMessage
  pub status : String
  pub created_at : ℕ
  pub updated_at : ℕ
  pub result : RawMessage
  pub attempts_done : ℕ
  pub last_attempt_at : ℕ
  pub last_error : String

-- How a `JobFn` ends: with bytes, with an error, or in a panic with a text.
pub data Outcome : Type 0 where
  returned : RawMessage → Outcome
  failed : GoError → Outcome
  panicked : String → Outcome

abbrev pub JobFn : Type 0 → Type 0
JobFn V = Job → V → Outcome × V

-- `DequeueFn`
abbrev pub DequeueFn : Type 0 → Type 0
DequeueFn V = Job → Call V Job

-- A queue is a world `W`, apart from the world `V` that the functions of the jobs change.
pub record JobQueue (W V : Type 0) : Type 0 where
  pub enqueue : List Job → Call W (Unit {0})
  pub dequeue : List String → DequeueFn V → Call (W × V) (Unit {0})

-- a context: why it is done, if it is
abbrev pub Context : Type 0
Context = Option GoError

-- `Sanitise` at the time `now`, over `strings.ToLower`. A failed check leaves the receiver trimmed;
-- its caller drops the job then.
unfoldable pub sanitise : (String → String) → ℕ → Job → Result Job
sanitise to_lower now job =
    let id = trim_space job.id in
    let kind = trim_space (to_lower job.kind) in
    if id == ""
    then err (wrap err_invalid_job "job id must be set")
    else if kind == ""
    then err (wrap err_invalid_job "job kind must be set")
    else ok (record job {
      id = id;
      kind = kind;
      status = status_pending;
      created_at = now;
      updated_at = now;
      run_at = if eqb job.run_at 0 then now else job.run_at;
      attempts_done = 0;
      last_attempt_at = 0;
      last_error = "";
    })

-- `backoff`
unfoldable pub backoff : ℕ → ℕ
backoff retry_after = if leb retry_after min_retry_backoff then min_retry_backoff else retry_after

-- `errors.As(err, &re)`: the text and the delay of a `RetryableError`
unfoldable pub as_retryable : GoError → Option (String × ℕ)
as_retryable (retryable cause after) = some ("retryable-error: " <> cause, after)
as_retryable (wrapped text inner) = as_retryable inner
as_retryable _ = none

abbrev pub failed_job : ℕ → GoError → Option (String × ℕ) → Job → Job
failed_job now e (some (text, after)) job = record job {
  run_at = now + backoff after;
  last_error = text;
  status = status_pending;
}
failed_job now e none job = record job { last_error = go_text e; status = status_failed }

-- what the end of the function does to the job in `Attempt`
unfoldable pub settled : ℕ → Outcome → Job → Job
settled now (returned res) job = record job { result = res; status = status_done }
settled now (failed e) job = failed_job now e (as_retryable e) job
settled now (panicked v) job = record job { last_error = "panic: " <> v; status = status_panic }

-- the deferred function of `Attempt`
unfoldable pub noted : ℕ → Job → Job
noted now job = record job {
  attempts_done = job.attempts_done + 1;
  last_attempt_at = now;
  updated_at = now;
}

module _ {V : Type 0} where
  abbrev pub settled_after : ℕ → Job → Outcome × V → Job × V
  settled_after now job (outcome, v) = (noted now (settled now outcome job), v)

  unfoldable pub attempt : Context → ℕ → JobFn V → Job → V → Job × V
  attempt (some cause) now fn job v = (
    noted now (record job {
      status = status_pending;
      run_at = now + min_retry_backoff;
      last_error = "cancelled: " <> go_text cause;
    }),
    v,
  )
  attempt none now fn job v = settled_after now job (fn job v)
