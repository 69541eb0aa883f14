-- ===== src/Worker/Pgq/Insert.antt =====
-- `Enqueue` of pkg/worker/pgq/pgq.go, and the queue as the worker sees it.
use entropy.Base.{Bool, true, false, none, List, [], ◌∷◌, ◌==◌, if◌then◌else◌}
use entropy.Errors.{GoError, pq_error, foreign, wrapped}
use entropy.Io.{Result, ok, err, Call}
use entropy.Io.Calls.{answer, try, ◌>>=◌}
use entropy.Resource.{non_nil}
use entropy.Worker.{Job, JobQueue, err_job_exists}
use entropy.Worker.Pgq.{Row, Db, Queue, exec, dequeue, has_id}

unfoldable pub row_of : Job → Row
row_of job = record {
  id = job.id;
  kind = job.kind;
  status = job.status;
  run_at = job.run_at;
  payload = non_nil job.payload;
  created_at = job.created_at;
  updated_at = job.updated_at;
  result = none;
  attempts_done = 0;
  last_attempt_at = none;
  last_error = none;
}

-- the constraints of pkg/worker/pgq/schema.sql on a new row, which is put first in the table
abbrev pub insert_if : Bool → Row → List Row → Result (List Row)
insert_if true row rows =
    err (pq_error "unique_violation" "duplicate key value violates unique constraint")
insert_if false row rows = ok (row ∷ rows)

unfoldable pub insert_row : Row → List Row → Result (List Row)
insert_row row rows = insert_if (has_id row.id rows) row rows

abbrev pub then_rows : Result (List Row) → (List Row → Result (List Row)) → Result (List Row)
then_rows (ok rows) f = f rows
then_rows (err e) f = err e

unfoldable pub insert_rows : List Job → List Row → Result (List Row)
insert_rows [] rows = ok rows
insert_rows (job ∷ jobs) rows = then_rows (insert_row (row_of job) rows) (insert_rows jobs)

abbrev pub stored : Result (List Row) → Db → Result (Unit {0}) × Db
stored (ok rows) db = (ok tt, record db { rows = rows })
stored (err e) db = (err e, db)

unfoldable pub is_unique_violation : GoError → Bool
is_unique_violation (pq_error name text) = name == "unique_violation"
is_unique_violation (wrapped text inner) = is_unique_violation inner
is_unique_violation _ = false

-- the error handling of `Enqueue`
abbrev pub job_exists : Result (Unit {0}) → Result (Unit {0})
job_exists (ok _) = ok tt
job_exists (err e) = if is_unique_violation e then err err_job_exists else err e

-- one INSERT; the query builder refuses one without rows
unfoldable pub enqueue : List Job → Call Db (Unit {0})
enqueue [] = answer (err (foreign "insert statements must have at least one set of values"))
enqueue (job ∷ jobs) = do
  r ← try (exec (λ db. stored (insert_rows (job ∷ jobs) db.rows) db))
  answer (job_exists r)

-- `Queue` as the queue of a worker
unfoldable pub job_queue : {V : Type 0} → Queue → JobQueue Db V
job_queue q = record { enqueue = enqueue; dequeue = dequeue q }
