-- ===== src/Worker/Pgq/Picked.antt =====
-- What it means that a job was picked up.
use mathlib.Core.Path.{subst}
use entropy.Base.{
  ◌+◌, ◌<◌, String, Bool, true, Option, none, some, List, [], ◌∷◌, ◌==◌, ◌≡◌, refl, ap, sym, ◌∙◌,
  arith, eq_iff, eq_refl, All, any, Bool-cases, inl, inr,
}
use entropy.Errors.{GoError}
use entropy.Io.Invert.{ok-inj}
use entropy.Io.{Result, ok, err, Call}
use entropy.Io.Calls.{answer, bind-eq-ok, answer-eq-ok}
use entropy.Worker.{Job, status_pending}
use entropy.Worker.Pgq.{
  Row, Db, Queue, exec, finished_tx, committed, with_tx, update_rows, find_row, has_id, is_ready,
  scanned, row_into_job, fetch_ready_job, extend_wait_time, pickup_job,
}
use entropy.Worker.Pgq.Statements.{exec-elim}

-- two states with the same rows at the same time
abbrev pub Same : Db → Db → Type 0
Same db db' = (db'.rows ≡ db.rows) × (db'.time ≡ db.time)

module _ {A : Type 0} where
  -- a statement that succeeded has run
  pub exec-eq-ok :
      (stmt : Call Db A) (db : Db) {a : A} {db' : Db}
      → exec stmt db ≡ (ok a, db')
      → (faults : List (Option GoError)) × (stmt (record db { faults = faults }) ≡ (ok a, db'))
  exec-eq-ok stmt db {a} {db'} =
      exec-elim stmt
        (λ out.
          out ≡ (ok a, db')
          → (faults : List (Option GoError)) × (stmt (record db { faults = faults }) ≡ (ok a, db')))
        db (λ faults e. (faults, e)) (λ x faults e. ground arith)

done-Same :
    (db : Db) (faults : List (Option GoError)) {x : Unit {0}} {u : Db}
    → answer (ok tt) (record db { faults = faults }) ≡ (ok x, u)
    → Same db u
unfolding answer
done-Same db faults e = ground arith

exec-Same : (db : Db) → Same db (exec (answer {A = Unit {0}} (ok tt)) db).1
unfolding answer
exec-Same db =
    exec-elim (answer (ok tt)) (λ out. Same db out.1) db (λ faults. (refl, refl))
      (λ e faults. (refl, refl))

module _ {A : Type 0} where
  committed-eq-ok :
      (before : List Row) (x : A) (out : Result (Unit {0}) × Db) {a : A} {db' : Db}
      → committed before x out ≡ (ok a, db')
      → (x ≡ a) × (out.1 ≡ db')
  committed-eq-ok before x (ok _, db) e = ground arith
  committed-eq-ok before x (err y, db) e = ground arith

  finished_tx-eq-ok :
      (before : List Row) (out : Result A × Db) {a : A} {db' : Db}
      → finished_tx before out ≡ (ok a, db')
      → (u : Db) × (out ≡ (ok a, u)) × Same u db'
  finished_tx-eq-ok before (ok x, u) {a} {db'} e =
      let (same, ended) = committed-eq-ok before x (exec (answer (ok tt)) u) e in
      (u, ap (λ y. (ok y, u)) same, subst (Same u) ended (exec-Same u))
  finished_tx-eq-ok before (err y, u) e = ground arith

  -- a transaction that succeeded has run its body, and has kept what it did
  pub with_tx-eq-ok :
      (fn : Call Db A) (db : Db) {a : A} {db' : Db}
      → with_tx fn db ≡ (ok a, db')
      → (u u' : Db) × Same db u × (fn u ≡ (ok a, u')) × Same u' db'
  unfolding with_tx
  with_tx-eq-ok fn db e =
      let (_, u, began, e1) = bind-eq-ok _ _ db e in
      let (faults, e2) = exec-eq-ok _ db began in
      let (u', ran, ended) = finished_tx-eq-ok db.rows (fn u) e1 in
      (u, u', done-Same db faults e2, ran, ended)

find_row-eq-some :
    (test : Row → Bool) (rows : List Row) (row : Row)
    → find_row test rows ≡ some row
    → (test row ≡ true) × (has_id row.id rows ≡ true) × ((P : Row → Type 0) → All P rows → P row)
unfolding find_row
find_row-eq-some test [] row e = cc
find_row-eq-some test (r ∷ rows) row e = elim (Bool-cases (test r)) [
  | inl passing ↦
      let found : some r ≡ some row = rw passing at e in
      let same : r ≡ row = ground arith in
      (rw (sym same) passing, rw (sym same, eq_refl r.id) refl, λ P h. subst P same h.0)
  | inr failing ↦
      let (passes, known, among) = find_row-eq-some test rows row (rw failing at e) in
      (passes, ground (arith, known), λ P h. among P h.1)
]

-- what the job is, and what its row has become
pub record Picked (q : Queue) (kinds : List String) (db : Db) (j : Job) (db' : Db) : Type 1 where
  pub row : Row
  pub scanned : row_into_job row ≡ j
  pub among : (P : Row → Type 0) → All P db.rows → P row
  pub known : has_id j.id db.rows ≡ true
  pub kind : any (λ kind. kind == j.kind) kinds ≡ true
  pub status : j.status ≡ status_pending
  pub due : j.run_at < db.time
  pub rows :
      db'.rows
      ≡ update_rows
          (λ r. r.id == j.id)
          (λ r. record r { run_at = db.time + q.extend_interval })
          db.rows
  pub time : db'.time ≡ db.time

scanned-eq-ok :
    (o : Option Row) (j : Job)
    → scanned o ≡ ok j
    → (row : Row) × (o ≡ some row) × (row_into_job row ≡ j)
scanned-eq-ok none j e = ground arith
scanned-eq-ok (some row) j e = (row, refl, ground arith)

fetch_ready_job-eq-ok :
    (kinds : List String) (db : Db) (j : Job) (db' : Db)
    → fetch_ready_job kinds db ≡ (ok j, db')
    → (v : Db) × Same db v
      × (row : Row) × (find_row (is_ready kinds v) v.rows ≡ some row)
      × (row_into_job row ≡ j)
      × Same db db'
unfolding fetch_ready_job
fetch_ready_job-eq-ok kinds db j db' e =
    let (faults, ran) = exec-eq-ok _ db e in
    let found : scanned (find_row (is_ready kinds (record db { faults = faults })) db.rows) ≡ ok j =
      ap (λ o. o.0) ran in
    let (row, is, job) = scanned-eq-ok _ j found in
    (
      record db { faults = faults },
      (refl, refl),
      row,
      is,
      job,
      (sym (ap (λ o. o.1.rows) ran), sym (ap (λ o. o.1.time) ran)),
    )

-- the change of `extendWaitTime` to the table
abbrev pub extended : Queue → String → Db → List Row
extended q id db =
    update_rows (λ r. r.id == id) (λ r. record r { run_at = db.time + q.extend_interval }) db.rows

extend_wait_time-eq-ok :
    (q : Queue) (id : String) (db : Db) (x : Unit {0}) (db' : Db)
    → extend_wait_time q id db ≡ (ok x, db')
    → (db'.rows ≡ extended q id db) × (db'.time ≡ db.time)
unfolding extend_wait_time
extend_wait_time-eq-ok q id db x db' e =
    let (faults, ran) = exec-eq-ok _ db e in
    (sym (ap (λ o. o.1.rows) ran), sym (ap (λ o. o.1.time) ran))

ready :
    (kinds : List String) (db : Db) (row : Row)
    → is_ready kinds db row ≡ true
    → (any (λ kind. kind == row.kind) kinds ≡ true)
      × (row.status ≡ status_pending)
      × (row.run_at < db.time)
unfolding is_ready
ready kinds db row e = ground (arith, eq_iff row.status status_pending)

extended-Same :
    (q : Queue) (id : String) (db u : Db) → Same db u → extended q id u ≡ extended q id db
extended-Same q id db u (rows, time) = rw (rows, time) refl

Picked-row :
    (q : Queue) (kinds : List String) (db u : Db) (row : Row) (j : Job) (db' : Db)
    → Same db u
    → find_row (is_ready kinds u) u.rows ≡ some row
    → row_into_job row ≡ j
    → db'.rows ≡ extended q j.id db
    → db'.time ≡ db.time
    → Picked q kinds db j db'
unfolding row_into_job
Picked-row q kinds db u row j db' (rows, time) found job rows' time' =
    let (passes, known, among) = find_row-eq-some (is_ready kinds u) u.rows row found in
    let (kind, status, due) = ready kinds u row passes in
    record {
      row = row;
      scanned = job;
      among = λ P h. among P (subst (All P) (sym rows) h);
      known = rw (sym (ap (λ x. x.id) job), sym rows) known;
      kind = rw (sym (ap (λ x. x.kind) job)) kind;
      status = rw (sym (ap (λ x. x.status) job)) status;
      due = rw (sym (ap (λ x. x.run_at) job), sym time) due;
      rows = rows';
      time = time';
    }

-- A job that is picked up has one of the kinds asked for, is pending and was due, stands in the
-- table, and the only change to the table is that its row is put off for the length of the lease.
pub pickup_job-Picked :
    (q : Queue) (kinds : List String) (db : Db) (j : Job) (db' : Db)
    → pickup_job q kinds db ≡ (ok j, db')
    → Picked q kinds db j db'
unfolding pickup_job
pickup_job-Picked q kinds db j db' e =
    let (u, u', before, ran, after) = with_tx-eq-ok _ db e in
    let (k, u1, fetched, e1) = bind-eq-ok _ _ u ran in
    let (x, u2, put_off, e2) = bind-eq-ok _ _ u1 e1 in
    let (ended, same2) = answer-eq-ok _ u2 e2 in
    let (v, same1, row, found, job, seen) = fetch_ready_job-eq-ok kinds u k u1 fetched in
    let (rows2, time2) = extend_wait_time-eq-ok q k.id u1 x u2 put_off in
    Picked-row q kinds db v row j db' (same1.0 ∙ before.0, same1.1 ∙ before.1) found
      (job ∙ ok-inj ended)
      (after.0
        ∙ ap (λ d. d.rows) (sym same2)
        ∙ rows2
        ∙ extended-Same q k.id u u1 seen
        ∙ extended-Same q k.id db u before
        ∙ ap (λ i. extended q i.id db) (ok-inj ended))
      (after.1 ∙ ap (λ d. d.time) (sym same2) ∙ time2 ∙ seen.1 ∙ before.1)
