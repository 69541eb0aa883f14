-- ===== src/Worker/Run.antt =====
-- pkg/worker/worker.go and pkg/worker/worker_option.go: registering functions, putting jobs into the
-- queue and the loop of a worker thread.
pub mod Kinds
pub mod Checked
use entropy.Base.{
  ℕ, zero, suc, String, Bool, true, false, not, ◌||◌, Option, none, some, List, [], ◌∷◌, ◌++◌, ◌==◌,
  eqb, ltb, if◌then◌else◌, is_empty, map,
}
use entropy.Base.Dict.{Dict, lookup, insert, is_some}
use entropy.Base.Text.{◌<>◌}
use entropy.Errors.{GoError, cancelled, deadline_exceeded, retryable, is}
use entropy.Io.{Result, ok, err, Call}
use entropy.Worker.{
  Job, JobFn, DequeueFn, JobQueue, Context, sanitise, attempt, wrap, err_kind_exists,
  err_unknown_kind,
}

-- Less its logger. A negative number of workers starts none, and is not modelled.
pub record Worker (W V : Type 0) : Type 0 where
  pub workers : ℕ
  pub poll_int : ℕ
  pub queue : JobQueue W V
  pub handlers : Dict (JobFn V)

-- What an option, or a registration, does to the worker.
abbrev pub WorkerOption : Type 0 → Type 0 → Type 0
WorkerOption W V = Worker W V → Result (Worker W V)

abbrev pub add_job : Result Job → Result (List Job) → Result (List Job)
add_job (err e) rest = err e
add_job (ok job) (err e) = err e
add_job (ok job) (ok jobs) = ok (job ∷ jobs)

module _ {V : Type 0} where
  abbrev pub handle_with : Context → ℕ → Option (JobFn V) → DequeueFn V
  handle_with ctx now none job v = (err (retryable "job kind is invalid" 300000), v)
  handle_with ctx now (some fn) job v = let (job', v') = attempt ctx now fn job v in (ok job', v')

  unfoldable pub get_kinds : Dict (JobFn V) → List String
  get_kinds [] = []
  get_kinds ((kind, _) ∷ handlers) = kind ∷ get_kinds handlers

module _ {W V : Type 0} where
  abbrev pub registered : String → JobFn V → Worker W V → Option (JobFn V) → Result (Worker W V)
  registered kind h w (some old) = err (wrap err_kind_exists ("kind '" <> kind <> "'"))
  registered kind h w none = ok (record w { handlers = insert kind h w.handlers })

  unfoldable pub register : String → JobFn V → Worker W V → Result (Worker W V)
  register kind h w = registered kind h w (lookup kind w.handlers)

  unfoldable pub with_job_kind : String → JobFn V → WorkerOption W V
  with_job_kind kind fn w = register kind fn w

  unfoldable pub with_run_config : ℕ → ℕ → WorkerOption W V
  with_run_config workers poll_interval w = ok (record w {
    workers = if eqb workers 0 then 1 else workers;
    poll_int = if ltb poll_interval 100 then 100 else poll_interval;
  })

  -- the defaults, less the logger's
  unfoldable pub with_defaults : List (WorkerOption W V) → List (WorkerOption W V)
  with_defaults opts = (with_run_config 1 1000 ∷ []) ++ opts

  abbrev pub bind_worker :
      Result (Worker W V) → (Worker W V → Result (Worker W V)) → Result (Worker W V)
  bind_worker (ok w) f = f w
  bind_worker (err e) f = err e

  unfoldable pub apply_options : List (WorkerOption W V) → Worker W V → Result (Worker W V)
  apply_options [] w = ok w
  apply_options (opt ∷ opts) w = bind_worker (opt w) (apply_options opts)

  -- `New`
  unfoldable pub new_worker : JobQueue W V → List (WorkerOption W V) → Result (Worker W V)
  new_worker queue opts =
      apply_options (with_defaults opts)
        (record { workers = 0; poll_int = 0; queue = queue; handlers = [] })

  -- the checks on one job in `Enqueue`
  abbrev pub known_kind : Worker W V → Result Job → Result Job
  known_kind w (err e) = err e
  known_kind w (ok job) =
      if is_some (lookup job.kind w.handlers)
      then ok job
      else err (wrap err_unknown_kind ("kind '" <> job.kind <> "'"))

  -- The loop of `Enqueue`. The time is read once for all jobs here, and the slice of the caller,
  -- where a failed check leaves the jobs before it sanitised, is not part of the result.
  unfoldable pub checked_jobs : (String → String) → ℕ → Worker W V → List Job → Result (List Job)
  checked_jobs to_lower now w [] = ok []
  checked_jobs to_lower now w (job ∷ jobs) =
      add_job (known_kind w (sanitise to_lower now job)) (checked_jobs to_lower now w jobs)

  abbrev pub enqueue_checked : Worker W V → Result (List Job) → Call W (Unit {0})
  enqueue_checked w (ok jobs) q = w.queue.enqueue jobs q
  enqueue_checked w (err e) q = (err e, q)

  unfoldable pub enqueue : (String → String) → ℕ → Worker W V → List Job → Call W (Unit {0})
  enqueue to_lower now w jobs = enqueue_checked w (checked_jobs to_lower now w jobs)

  unfoldable pub handle_job : Worker W V → Context → ℕ → DequeueFn V
  handle_job w ctx now job = handle_with ctx now (lookup job.kind w.handlers) job

  -- One tick of the timer in `runWorker`: an error of the queue is logged, and the loop goes on.
  unfoldable pub poll : Worker W V → Context → ℕ → W × V → W × V
  poll w ctx now s =
      let kinds = get_kinds w.handlers in
      if is_empty kinds then s else (w.queue.dequeue kinds (handle_job w ctx now) s).1

  -- The loop of `runWorker`, for the times of the ticks before the context is done.
  unfoldable pub run_worker : Worker W V → List ℕ → W × V → W × V
  run_worker w [] s = s
  run_worker w (now ∷ ticks) s = run_worker w ticks (poll w none now s)

-- `cleanupCtxErr`
unfoldable pub cleanup_ctx_err : Option GoError → Option GoError
cleanup_ctx_err none = none
cleanup_ctx_err (some e) = if is e cancelled || is e deadline_exceeded then none else some e
