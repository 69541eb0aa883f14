-- ===== src/Worker/Pgq/Enqueued.antt =====
-- `Enqueue` of pkg/worker/pgq/pgq.go.
use mathlib.Core.Path.{subst}
use entropy.Base.{
  Bool, true, false, List, [], ◌∷◌, ◌≡◌, refl, sym, arith, All, Option, if◌then◌else◌,
}
use entropy.Errors.{GoError}
use entropy.Io.Invert.{ok-inj}
use entropy.Io.{Result, ok, err}
use entropy.Io.Calls.{answer, try, and_error, next, ◌>>=◌}
use entropy.Worker.{Job, err_job_exists}
use entropy.Worker.Pgq.{Row, Db, has_id}
use entropy.Worker.Pgq.Insert.{
  row_of, insert_rows, stored, job_exists, is_unique_violation, enqueue,
}
use entropy.Worker.Pgq.Statements.{exec-elim}
use entropy.Worker.Pgq.Held.{insert_row-eq-ok, then_rows-eq-ok}

-- the table with the rows of the jobs in front
unfoldable pub pushed : List Job → List Row → List Row
pushed [] rows = rows
pushed (job ∷ jobs) rows = pushed jobs (row_of job ∷ rows)

-- the primary key
abbrev pub HasUniqueIds : List Row → Type 0
HasUniqueIds [] = Unit
HasUniqueIds (row ∷ rows) = (has_id row.id rows ≡ false) × HasUniqueIds rows

-- a table after the jobs were inserted
pub record Inserted (jobs : List Job) (rows rows' : List Row) : Type 0 where
  pub all : rows' ≡ pushed jobs rows
  pub fresh : All (λ job. has_id job.id rows ≡ false) jobs
  pub unique : HasUniqueIds rows → HasUniqueIds rows'

fresh_below :
    (row : Row) (rows : List Row) (jobs : List Job)
    → All (λ job. has_id job.id (row ∷ rows) ≡ false) jobs
    → All (λ job. has_id job.id rows ≡ false) jobs
fresh_below row rows [] h = tt
fresh_below row rows (job ∷ jobs) (p, h) = (ground (arith, p), fresh_below row rows jobs h)

insert_rows-Inserted :
    (jobs : List Job) (rows rows' : List Row)
    → insert_rows jobs rows ≡ ok rows'
    → Inserted jobs rows rows'
unfolding insert_rows pushed row_of
insert_rows-Inserted [] rows rows' e = record {
  all = sym (ok-inj e);
  fresh = tt;
  unique = λ u. subst HasUniqueIds (ok-inj e) u;
}
insert_rows-Inserted (job ∷ jobs) rows rows' e =
    let (rows1, first, rest) = then_rows-eq-ok _ _ e in
    let (new, made) = insert_row-eq-ok (row_of job) rows rows1 first in
    let done = insert_rows-Inserted jobs (row_of job ∷ rows) rows' (rw made at rest) in
    record {
      all = done.all;
      fresh = (new, fresh_below (row_of job) rows jobs done.fresh);
      unique = λ u. done.unique (new, u);
    }

abbrev pub AllOrNothing : List Job → Db → Result (Unit {0}) × Db → Type 0
AllOrNothing jobs db (ok _, db') = Inserted jobs db.rows db'.rows
AllOrNothing jobs db (err e, db') = db'.rows ≡ db.rows

stored-faults :
    (jobs : List Job) (db : Db) (faults : List (Option GoError)) (r : Result (List Row))
    → insert_rows jobs db.rows ≡ r
    → AllOrNothing jobs db (stored r (record db { faults = faults }))
stored-faults jobs db faults (ok rows) e = insert_rows-Inserted jobs db.rows rows e
stored-faults jobs db faults (err x) e = refl

refused :
    (jobs : List Job) (db db' : Db) (b : Bool) (e f : GoError)
    → db'.rows ≡ db.rows
    → AllOrNothing jobs db (if b then err e else err f, db')
refused jobs db db' true e f h = h
refused jobs db db' false e f h = h

answered :
    (jobs : List Job) (db : Db) (out : Result (Unit {0}) × Db)
    → AllOrNothing jobs db out
    → AllOrNothing jobs db (next (and_error out) (λ r. answer (job_exists r)))
unfolding answer
answered jobs db (ok x, db') h = h
answered jobs db (err e, db') h = refused jobs db db' (is_unique_violation e) err_job_exists e h

-- `Enqueue` stores all the jobs or none. If it returns no error, then the table has a row for each
-- job beside the old rows, none of the jobs had a row before, and the keys are unique if they were.
-- If it returns an error, then the table is as it was.
pub enqueue-AllOrNothing : (jobs : List Job) (db : Db) → AllOrNothing jobs db (enqueue jobs db)
unfolding enqueue answer try ◌>>=◌
enqueue-AllOrNothing [] db = refl
enqueue-AllOrNothing (job ∷ jobs) db = answered (job ∷ jobs) db _ (
    exec-elim _ (AllOrNothing (job ∷ jobs) db) db
      (λ faults. stored-faults (job ∷ jobs) db faults (insert_rows (job ∷ jobs) db.rows) refl)
      (λ e faults. refl))
