-- ===== src/Worker/Pgq/Lease.antt =====
-- Several workers on one table: what they and the heartbeats of their jobs do, in any order.
use entropy.Base.{
  ℕ, ◌+◌, ◌≤◌, String, Option, List, [], ◌∷◌, ◌==◌, ◌≡◌, ◌≢◌, refl, ap, sym, ◌∙◌, arith, eq_iff,
  All,
}
use mathlib.Core.Path.{subst}
use entropy.Errors.{GoError}
use entropy.Io.{ok}
use entropy.Worker.{Job}
use entropy.Worker.Pgq.{
  Row, Db, Queue, update_rows, row_into_job, extend_wait_time, pickup_job, save_job_result,
}
use entropy.Worker.Pgq.Insert.{enqueue}
use entropy.Worker.Pgq.Statements.{AtTime, has_id-update_rows}
use entropy.Worker.Pgq.Held.{
  HeldRow, Held, extend_wait_time-Held, pickup_job-Held, save_job_result-Held, enqueue-Held,
}
use entropy.Worker.Pgq.Picked.{Picked, pickup_job-Picked}

-- what may happen to the table between two calls of one worker; while time passes, the locks of
-- other transactions and the faults to come change as they may
pub data Op : Type 0 where
  pick_up : List String → Op
  beat : String → Op
  save : Job → Op
  put : List Job → Op
  pass : ℕ → List String → List (Option GoError) → Op

unfoldable pub run_op : Queue → Op → Db → Db
run_op q (pick_up kinds) db = (pickup_job q kinds db).1
run_op q (beat id) db = (extend_wait_time q id db).1
run_op q (save job) db = (save_job_result job db).1
run_op q (put jobs) db = (enqueue jobs db).1
run_op q (pass d locked faults) db = record db {
  time = db.time + d;
  locked = locked;
  faults = faults;
}

unfoldable pub run_ops : Queue → List Op → Db → Db
run_ops q [] db = db
run_ops q (op ∷ ops) db = run_ops q ops (run_op q op db)

abbrev pub HeldFrom : String → ℕ → ℕ → Db → Type 0
HeldFrom id until t0 db = Held id until db.rows × (t0 ≤ db.time)

module _ (q : Queue) (id : String) (until t0 : ℕ) (within : until ≤ t0 + q.extend_interval) where
  later :
      (db db' : Db) → t0 ≤ db.time → AtTime (Held id until) db.time db' → HeldFrom id until t0 db'
  later db db' since (h, same) = (h, omega (arith, same, since))

  run_op-HeldFrom :
      (op : Op) (db : Db) → HeldFrom id until t0 db → HeldFrom id until t0 (run_op q op db)
  unfolding run_op
  run_op-HeldFrom (pick_up kinds) db (h, since) =
      later db (pickup_job q kinds db).1 since
        (pickup_job-Held id until q kinds db.time (omega (arith, since, within)) db (h, refl))
  run_op-HeldFrom (beat other) db (h, since) =
      later db (extend_wait_time q other db).1 since
        (extend_wait_time-Held id until q other db.time (omega (arith, since, within)) db (h, refl))
  run_op-HeldFrom (save job) db (h, since) =
      later db (save_job_result job db).1 since
        (save_job_result-Held id until job db.time db (h, refl))
  run_op-HeldFrom (put jobs) db (h, since) =
      later db (enqueue jobs db).1 since (enqueue-Held id until jobs db.time db (h, refl))
  run_op-HeldFrom (pass d locked faults) db (h, since) = (h, omega (arith, since))

  run_ops-HeldFrom :
      (ops : List Op) (db : Db) → HeldFrom id until t0 db → HeldFrom id until t0 (run_ops q ops db)
  unfolding run_ops
  run_ops-HeldFrom [] db h = h
  run_ops-HeldFrom (op ∷ ops) db h = run_ops-HeldFrom ops (run_op q op db) (run_op-HeldFrom op db h)

put_off :
    (id : String) (until : ℕ) (rows : List Row)
    → All (HeldRow id until) (update_rows (λ r. r.id == id) (λ r. record r { run_at = until }) rows)
unfolding update_rows
put_off id until [] = tt
put_off id until (row ∷ rows) = (λ same. ground (arith, eq_iff row.id id), put_off id until rows)

Picked-Held :
    (q : Queue) (kinds : List String) (db : Db) (j : Job) (db' : Db)
    → Picked q kinds db j db'
    → HeldFrom j.id (db.time + q.extend_interval) db.time db'
Picked-Held q kinds db j db' p = (
  subst (Held j.id (db.time + q.extend_interval)) (sym p.rows) (record {
    there = has_id-update_rows _ _ (λ row. refl) j.id db.rows ∙ p.known;
    held = put_off j.id (db.time + q.extend_interval) db.rows;
  }),
  omega (arith, p.time),
)

-- no row that is held is ready
Held-Picked :
    (q : Queue) (kinds : List String) (id : String) (until : ℕ) (db : Db) (k : Job) (db' : Db)
    → Held id until db.rows
    → db.time ≤ until
    → Picked q kinds db k db'
    → k.id ≢ id
unfolding row_into_job
Held-Picked q kinds id until db k db' h early p same =
    let waits = p.among (HeldRow id until) h.held (ap (λ x. x.id) p.scanned ∙ same) in
    omega (arith, waits, early, p.due, ap (λ x. x.run_at) p.scanned)

-- After a worker has picked up a job, whatever the workers on the table do next, with the heartbeats
-- and the results of their jobs and with new jobs, none of them is given the job of that id again
-- before the lease has passed: at no time up to the 30 seconds (the interval of the queue).
pub pickup_job-leased :
    (q : Queue) (kinds kinds' : List String) (db db' final : Db) (j k : Job) (ops : List Op)
    → pickup_job q kinds db ≡ (ok j, db')
    → (run_ops q ops db').time ≤ db.time + q.extend_interval
    → pickup_job q kinds' (run_ops q ops db') ≡ (ok k, final)
    → k.id ≢ j.id
pickup_job-leased q kinds kinds' db db' final j k ops first early second =
    let held = Picked-Held q kinds db j db' (pickup_job-Picked q kinds db j db' first) in
    let (still, _) = run_ops-HeldFrom q j.id _ db.time (omega arith) ops db' held in
    Held-Picked q kinds' j.id _ (run_ops q ops db') k final still early
      (pickup_job-Picked q kinds' (run_ops q ops db') k final second)
