-- ===== src/Worker/Pgq.antt =====
-- pkg/worker/pgq: the queue of jobs in a table of PostgreSQL. A statement either fails as a whole,
-- with the next of the faults that the model foresees, or does what its text says to the table.
pub mod Insert
pub mod Statements
pub mod Held
pub mod Picked
pub mod Lease
pub mod Saved
pub mod Enqueued
use entropy.Base.{
  ℕ, zero, suc, ◌+◌, String, Bool, true, false, not, ◌&&◌, ◌||◌, Option, none, some, List, [], ◌∷◌,
  ◌++◌, ◌==◌, ltb, if◌then◌else◌, any, map,
}
use entropy.Errors.{GoError, no_rows, pq_error, foreign, wrapped, is}
use entropy.Io.{Result, ok, err, Call}
use entropy.Io.Calls.{answer, try, ◌>>=◌, ◌>>◌}
use entropy.Resource.{RawMessage}
use entropy.Worker.{Job, DequeueFn, JobQueue, status_pending, err_job_exists}

-- a row of the table; `id` is its primary key
pub record Row : Type 0 where
  pub id : String
  pub kind : String
  pub status : String
  pub run_at : ℕ
  pub payload : RawMessage
  pub created_at : ℕ
  pub updated_at : ℕ
  pub result : RawMessage
  pub attempts_done : ℕ
  pub last_attempt_at : Option ℕ
  pub last_error : Option String

-- The table, the database's time in milliseconds, the rows that other transactions have locked, and
-- what becomes of the next statements: `none` runs, as does every statement after the list.
pub record Db : Type 0 where
  pub rows : List Row
  pub time : ℕ
  pub locked : List String
  pub faults : List (Option GoError)

-- `Queue`, as far as it is not the connection; the ticks of the heartbeat are those that come while
-- the function of a job runs, by the database's time.
pub record Queue : Type 0 where
  pub extend_interval : ℕ
  pub ticks : List ℕ

-- the queue that `Open` returns
unfoldable pub open_queue : List ℕ → Queue
open_queue ticks = record { extend_interval = 30000; ticks = ticks }

module _ {A : Type 0} where
  abbrev pub after_fault : List (Option GoError) → Call Db A → Call Db A
  after_fault [] stmt db = stmt db
  after_fault (none ∷ faults) stmt db = stmt (record db { faults = faults })
  after_fault (some e ∷ faults) stmt db = (err e, record db { faults = faults })

  -- one statement
  unfoldable pub exec : Call Db A → Call Db A
  exec stmt db = after_fault db.faults stmt db

module _ {A : Type 0} where
  -- a commit that fails leaves the table as it was before the transaction
  abbrev pub committed : List Row → A → Result (Unit {0}) × Db → Result A × Db
  committed before a (ok _, db) = (ok a, db)
  committed before a (err e, db) = (err e, record db { rows = before })

  abbrev pub finished_tx : List Row → Result A × Db → Result A × Db
  finished_tx before (ok a, db) = committed before a (exec (answer (ok tt)) db)
  finished_tx before (err e, db) = (err e, record db { rows = before })

  -- `withTx`
  unfoldable pub with_tx : Call Db A → Call Db A
  with_tx fn db = (exec (answer (ok tt)) >>= λ _ began. finished_tx db.rows (fn began)) db

-- the rows with a changed one in place of each row that the test picks
unfoldable pub update_rows : (Row → Bool) → (Row → Row) → List Row → List Row
update_rows test f [] = []
update_rows test f (row ∷ rows) = (if test row then f row else row) ∷ update_rows test f rows

-- LIMIT 1: the order of the rows stands for the choice of the database
unfoldable pub find_row : (Row → Bool) → List Row → Option Row
find_row test [] = none
find_row test (row ∷ rows) = if test row then some row else find_row test rows

-- `rowIntoJob`
unfoldable pub row_into_job : Row → Job
row_into_job row = record {
  id = row.id;
  kind = row.kind;
  run_at = row.run_at;
  payload = row.payload;
  status = row.status;
  created_at = row.created_at;
  updated_at = row.updated_at;
  result = row.result;
  attempts_done = row.attempts_done;
  last_attempt_at = elim row.last_attempt_at [ none ↦ 0 | some t ↦ t ];
  last_error = elim row.last_error [ none ↦ "" | some text ↦ text ];
}

abbrev pub scanned : Option Row → Result Job
scanned none = err no_rows
scanned (some row) = ok (row_into_job row)

-- the WHERE of `fetchReadyJob`, with FOR UPDATE SKIP LOCKED
unfoldable pub is_ready : List String → Db → Row → Bool
is_ready kinds db row =
    any (λ kind. kind == row.kind) kinds
    && row.status == status_pending
    && ltb row.run_at db.time
    && not (any (λ id. id == row.id) db.locked)

unfoldable pub fetch_ready_job : List String → Call Db Job
fetch_ready_job kinds = exec (λ db. (scanned (find_row (is_ready kinds db) db.rows), db))

unfoldable pub extend_wait_time : Queue → String → Call Db (Unit {0})
extend_wait_time q id = exec (λ db. (
  ok tt,
  record db {
    rows =
        update_rows (λ row. row.id == id)
          (λ row. record row { run_at = db.time + q.extend_interval }) db.rows;
  },
))

unfoldable pub pickup_job : Queue → List String → Call Db Job
pickup_job q kinds = with_tx (do j ← fetch_ready_job kinds; extend_wait_time q j.id; answer (ok j))

-- the SET of `saveJobResult`; the number of attempts is taken to stay below 2 ^ 31
unfoldable pub save_row : Job → Row → Row
save_row job row = record row {
  updated_at = job.updated_at;
  status = job.status;
  result = job.result;
  attempts_done = row.attempts_done + 1;
  last_error = some job.last_error;
  last_attempt_at = some job.last_attempt_at;
}

unfoldable pub save_job_result : Job → Call Db (Unit {0})
save_job_result job = exec (λ db. (
  ok tt,
  record db {
    rows =
        update_rows (λ row. row.id == job.id && row.status == status_pending) (save_row job)
          db.rows;
  },
))

-- `runHeartbeat`, for its ticks: it stops at the first that fails
unfoldable pub run_heartbeat : Queue → List ℕ → String → Db → Db
run_heartbeat q [] id db = db
run_heartbeat q (t ∷ ticks) id db =
    let (r, db') = extend_wait_time q id (record db { time = t }) in
    let rest = run_heartbeat q ticks id db' in elim r [ ok _ ↦ rest | err _ ↦ db' ]

module _ {V : Type 0} where
  abbrev pub beside : Db → Result Job × V → Result Job × (Db × V)
  beside db (r, v) = (r, (db, v))

  -- `handleDequeued`: the heartbeat and the function change worlds apart
  unfoldable pub handle_dequeued : Queue → Job → DequeueFn V → Call (Db × V) Job
  handle_dequeued q job fn (db, v) = beside (run_heartbeat q q.ticks job.id db) (fn job v)

  abbrev pub saved : Result Job × (Db × V) → Result (Unit {0}) × (Db × V)
  saved (ok job, (db, v)) = let (r, db') = save_job_result job db in (r, (db', v))
  saved (err e, s) = (err e, s)

  abbrev pub handled : Queue → DequeueFn V → V → Result Job × Db → Result (Unit {0}) × (Db × V)
  handled q fn v (ok job, db) = saved (handle_dequeued q job fn (db, v))
  handled q fn v (err e, db) = (if is e no_rows then ok tt else err e, (db, v))

  unfoldable pub dequeue : Queue → List String → DequeueFn V → Call (Db × V) (Unit {0})
  dequeue q kinds fn (db, v) = handled q fn v (pickup_job q kinds db)

abbrev pub has_id : String → List Row → Bool
has_id id rows = any (λ row. row.id == id) rows
