-- ===== src/Tests/Workers.antt =====
-- A queue with a job, two workers on it, and a worker that handles the job.
use entropy.Base.{ℕ, ◌≤◌, String, some, none, List, [], ◌∷◌, ◌≡◌, ◌≢◌, refl, arith}
use entropy.Base.Dict.{Dict, lookup}
use entropy.Errors.{retryable}
use entropy.Io.{ok}
use entropy.Io.Calls.{answer, ◌>>=◌}
use entropy.Worker.{Job, JobFn, failed, attempt, status_pending}
use entropy.Worker.Attempts.{Attempted, attempt-Attempted}
use entropy.Worker.Run.{Worker, get_kinds, handle_job, checked_jobs}
use entropy.Worker.Run.Checked.{Handed, enqueue-Handed}
use entropy.Worker.Run.Kinds.{handle_job-picked}
use entropy.Worker.Pgq.{
  Row, Db, Queue, exec, with_tx, update_rows, find_row, row_into_job, is_ready, fetch_ready_job,
  extend_wait_time, pickup_job, save_row, save_job_result,
}
use entropy.Worker.Pgq.Insert.{row_of, job_queue}
use entropy.Worker.Pgq.Insert
use entropy.Worker.Pgq.Picked.{Picked, pickup_job-Picked}
use entropy.Worker.Pgq.Lease.{Op, pass, beat, run_op, run_ops, pickup_job-leased}
use entropy.Worker.Pgq.Enqueued.{AllOrNothing, enqueue-AllOrNothing}
use entropy.Worker.Pgq.Saved.{SavedRows, save_job_result-saved}

-- how often the function has run
abbrev Runs : Type 0
Runs = ℕ

-- a function that asks for an hour's delay
abbrev ask_later : JobFn Runs
ask_later job v = (failed (retryable "not yet" 3600000), 1)

abbrev job_of : String → Job
job_of id = record {
  id = id;
  kind = "sync";
  run_at = 7;
  payload = some "{}";
  status = status_pending;
  created_at = 5;
  updated_at = 5;
  result = none;
  attempts_done = 0;
  last_attempt_at = 0;
  last_error = "";
}

abbrev db_of : List Row → ℕ → Db
db_of rows time = record { rows = rows; time = time; locked = []; faults = [] }

abbrev row_at : String → ℕ → Row
row_at id at = record {
  id = id;
  kind = "sync";
  status = status_pending;
  run_at = at;
  payload = some "{}";
  created_at = 5;
  updated_at = 5;
  result = none;
  attempts_done = 0;
  last_attempt_at = none;
  last_error = none;
}

abbrev queue : Queue
queue = record { extend_interval = 30000; ticks = [] }

attempt-Attempted_example :
    Attempted none 100
      (failed (retryable "not yet" 3600000))
      (job_of "a")
      (attempt none 100 ask_later (job_of "a") 0).0
attempt-Attempted_example = attempt-Attempted none 100 ask_later (job_of "a") 0

enqueue-AllOrNothing_example :
    AllOrNothing
      (job_of "a" ∷ job_of "b" ∷ [])
      (db_of [] 10)
      (Insert.enqueue (job_of "a" ∷ job_of "b" ∷ []) (db_of [] 10))
enqueue-AllOrNothing_example = enqueue-AllOrNothing (job_of "a" ∷ job_of "b" ∷ []) (db_of [] 10)

abbrev two_jobs : Db
two_jobs = db_of (row_at "a" 7 ∷ row_at "b" 8 ∷ []) 10

abbrev a_picked : Db
a_picked = db_of (row_at "a" 30010 ∷ row_at "b" 8 ∷ []) 10

pick_a : pickup_job queue ("sync" ∷ []) two_jobs ≡ (ok (job_of "a"), a_picked)
unfolding pickup_job with_tx fetch_ready_job extend_wait_time exec find_row is_ready row_into_job
    update_rows answer ◌>>=◌
pick_a = refl

pickup_job-Picked_example : Picked queue ("sync" ∷ []) two_jobs (job_of "a") a_picked
pickup_job-Picked_example =
    pickup_job-Picked queue ("sync" ∷ []) two_jobs (job_of "a") a_picked pick_a

-- ten seconds pass, and the heartbeat of the first job comes
abbrev ten_seconds : List Op
ten_seconds = pass 10000 [] [] ∷ beat "a" ∷ []

abbrev b_picked : Db
b_picked = db_of (row_at "a" 40010 ∷ row_at "b" 40010 ∷ []) 10010

pick_b :
    pickup_job queue ("sync" ∷ []) (run_ops queue ten_seconds a_picked)
    ≡ (ok (record (job_of "b") { run_at = 8 }), b_picked)
unfolding pickup_job with_tx fetch_ready_job extend_wait_time exec find_row is_ready row_into_job
    update_rows answer ◌>>=◌ run_ops run_op
pick_b = refl

in_time : (run_ops queue ten_seconds a_picked).time ≤ 30010
unfolding run_ops run_op extend_wait_time exec
in_time = omega arith

pickup_job-leased_example : (job_of "b").id ≢ (job_of "a").id
pickup_job-leased_example =
    pickup_job-leased queue ("sync" ∷ []) ("sync" ∷ []) two_jobs a_picked b_picked (job_of "a")
      (record (job_of "b") { run_at = 8 }) ten_seconds pick_a in_time pick_b

abbrev handlers : Dict (JobFn Runs)
handlers = ("sync", ask_later) ∷ []

abbrev worker : Worker Db Runs
worker = record { workers = 1; poll_int = 1000; queue = job_queue queue; handlers = handlers }

pick_for_worker : pickup_job queue (get_kinds handlers) two_jobs ≡ (ok (job_of "a"), a_picked)
unfolding get_kinds
pick_for_worker = pick_a

handle_job-picked_example :
    (fn : JobFn Runs) × (lookup "sync" handlers ≡ some fn)
    × (status_pending ≡ status_pending)
    × (job : Job) × (handle_job worker none 100 (job_of "a") 0
        ≡ (ok job, (attempt none 100 fn (job_of "a") 0).1))
    × Attempted none 100 (fn (job_of "a") 0).0 (job_of "a") job
handle_job-picked_example =
    handle_job-picked worker queue none 100 two_jobs a_picked (job_of "a") 0 pick_for_worker

enqueue-Handed_example :
    Handed
      (λ s. s)
      9
      worker
      (job_of " a " ∷ [])
      (db_of [] 9)
      (checked_jobs (λ s. s) 9 worker (job_of " a " ∷ []))
enqueue-Handed_example = enqueue-Handed (λ s. s) 9 worker (job_of " a " ∷ []) (db_of [] 9)

abbrev retried : Job
retried = record (job_of "a") {
  run_at = 3600100;
  attempts_done = 1;
  last_attempt_at = 100;
  updated_at = 100;
  last_error = "retryable-error: not yet";
}

abbrev retried_row : Row
retried_row = record (row_at "a" 30010) {
  attempts_done = 1;
  last_attempt_at = some 100;
  updated_at = 100;
  last_error = some "retryable-error: not yet";
}

save_retried :
    save_job_result retried a_picked ≡ (ok tt, db_of (retried_row ∷ row_at "b" 8 ∷ []) 10)
unfolding save_job_result save_row update_rows exec
save_retried = refl

save_job_result-saved_example : SavedRows retried (a_picked.rows) (retried_row ∷ row_at "b" 8 ∷ [])
save_job_result-saved_example =
    save_job_result-saved retried a_picked (db_of (retried_row ∷ row_at "b" 8 ∷ []) 10) save_retried
