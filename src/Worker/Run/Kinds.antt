-- ===== src/Worker/Run/Kinds.antt =====
-- The job that a queue hands to the worker has a function: the safety net of `handleJob` is not used.
use entropy.Base.{
  ℕ, String, true, some, [], ◌∷◌, ◌==◌, ◌≡◌, refl, arith, ap, any, Bool-cases, inl, inr,
}
use entropy.Base.Dict.{Dict, lookup}
use entropy.Io.{ok}
use entropy.Worker.{Job, JobFn, Context, attempt, status_pending}
use entropy.Worker.Attempts.{Attempted, attempt-Attempted}
use entropy.Worker.Run.{Worker, get_kinds, handle_with, handle_job}
use entropy.Worker.Pgq.{Db, Queue, pickup_job}
use entropy.Worker.Pgq.Picked.{pickup_job-Picked}

lookup-get_kinds :
    {V : Type 0} (kind : String) (handlers : Dict (JobFn V))
    → any (λ k. k == kind) (get_kinds handlers) ≡ true
    → (fn : JobFn V) × (lookup kind handlers ≡ some fn)
unfolding get_kinds lookup
lookup-get_kinds kind [] e = ground arith
lookup-get_kinds kind ((k, fn) ∷ handlers) e = elim (Bool-cases (k == kind)) [
  | inl same ↦ (fn, rw same refl)
  | inr other ↦ rw other (lookup-get_kinds kind handlers (rw other at e))
]

handle_job-lookup :
    {W V : Type 0} (w : Worker W V) (ctx : Context) (now : ℕ) (job : Job) (v : V) (fn : JobFn V)
    → lookup job.kind w.handlers ≡ some fn
    → handle_job w ctx now job v ≡ (ok (attempt ctx now fn job v).0, (attempt ctx now fn job v).1)
unfolding handle_job
handle_job-lookup w ctx now job v fn e = ap (λ o. handle_with ctx now o job v) e

-- A job that the queue hands out for the kinds of the worker has a function there: `handleJob`
-- returns the job as an attempt with that function has left it, and no error.
pub handle_job-picked :
    {V : Type 0} (w : Worker Db V) (q : Queue) (ctx : Context) (now : ℕ) (db db' : Db) (j : Job)
    (v : V)
    → pickup_job q (get_kinds w.handlers) db ≡ (ok j, db')
    → (fn : JobFn V) × (lookup j.kind w.handlers ≡ some fn)
      × (j.status ≡ status_pending)
      × (job : Job) × (handle_job w ctx now j v ≡ (ok job, (attempt ctx now fn j v).1))
      × Attempted ctx now (fn j v).0 j job
handle_job-picked w q ctx now db db' j v e =
    let picked = pickup_job-Picked q (get_kinds w.handlers) db j db' e in
    let (fn, found) = lookup-get_kinds j.kind w.handlers picked.kind in
    (
      fn,
      found,
      picked.status,
      (attempt ctx now fn j v).0,
      handle_job-lookup w ctx now j v fn found,
      attempt-Attempted ctx now fn j v,
    )
