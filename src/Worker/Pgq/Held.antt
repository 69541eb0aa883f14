-- ===== src/Worker/Pgq/Held.antt =====
-- While a worker has a job, no other one is given it: the time of its row is moved on when it is
-- picked up, and again by each heartbeat.
use mathlib.Core.Path.{subst}
use entropy.Base.{
  ℕ, ◌+◌, ◌≤◌, String, Bool, true, false, List, [], ◌∷◌, ◌≡◌, refl, sym, ◌∙◌, arith, All,
}
use entropy.Io.Invert.{ok-inj}
use entropy.Io.{Result, ok, err}
use entropy.Io.Calls.{answer, try, and_error}
use entropy.Worker.{Job}
use entropy.Worker.Pgq.{
  Row, Db, Queue, exec, update_rows, has_id, fetch_ready_job, extend_wait_time, pickup_job,
  save_row, save_job_result,
}
use entropy.Worker.Pgq.Insert.{
  row_of, insert_if, insert_row, then_rows, insert_rows, stored, enqueue,
}
use entropy.Worker.Pgq.Statements.{
  exec-keeps, All-update_rows, has_id-update_rows, AtTime, with_tx-keeps, bind-keeps,
}

-- the row of the job is in the table, and does not become ready until the time `until`
abbrev pub HeldRow : String → ℕ → Row → Type 0
HeldRow id until row = row.id ≡ id → until ≤ row.run_at

pub record Held (id : String) (until : ℕ) (rows : List Row) : Type 0 where
  pub there : has_id id rows ≡ true
  pub held : All (HeldRow id until) rows

pub then_rows-eq-ok :
    (r : Result (List Row)) (f : List Row → Result (List Row)) {rows : List Row}
    → then_rows r f ≡ ok rows
    → (rows1 : List Row) × (r ≡ ok rows1) × (f rows1 ≡ ok rows)
then_rows-eq-ok (ok rows1) f e = (rows1, refl, e)
then_rows-eq-ok (err x) f e = ground arith

insert_if-eq-ok :
    (taken : Bool) (row : Row) (rows rows' : List Row)
    → insert_if taken row rows ≡ ok rows'
    → (taken ≡ false) × (rows' ≡ row ∷ rows)
insert_if-eq-ok true row rows rows' e = ground arith
insert_if-eq-ok false row rows rows' e = (refl, sym (ok-inj e))

-- a row that is inserted is new
pub insert_row-eq-ok :
    (row : Row) (rows rows' : List Row)
    → insert_row row rows ≡ ok rows'
    → (has_id row.id rows ≡ false) × (rows' ≡ row ∷ rows)
unfolding insert_row
insert_row-eq-ok row rows rows' e = insert_if-eq-ok (has_id row.id rows) row rows rows' e

module _ (id : String) (until : ℕ) where
  Held-update_rows :
      (test : Row → Bool) (f : Row → Row) (rows : List Row)
      → ((row : Row) → (f row).id ≡ row.id)
      → ((row : Row) → HeldRow id until row → HeldRow id until (f row))
      → Held id until rows
      → Held id until (update_rows test f rows)
  Held-update_rows test f rows same step h = record {
    there = has_id-update_rows test f same id rows ∙ h.there;
    held = All-update_rows (HeldRow id until) test f step rows h.held;
  }

  pub extend_wait_time-Held :
      (q : Queue) (other : String) (t : ℕ)
      → until ≤ t + q.extend_interval
      → (db : Db) → AtTime (Held id until) t db
      → AtTime (Held id until) t (extend_wait_time q other db).1
  unfolding extend_wait_time
  extend_wait_time-Held q other t enough =
      exec-keeps (AtTime (Held id until) t) _ (λ db faults p. p)
        (λ db p.
          let (h, same) = p in
          (
            Held-update_rows _ _ db.rows (λ row. refl) (λ row k e. omega (arith, same, enough)) h,
            same,
          ))

  fetch_ready_job-Held :
      (kinds : List String) (t : ℕ) (db : Db)
      → AtTime (Held id until) t db
      → AtTime (Held id until) t (fetch_ready_job kinds db).1
  unfolding fetch_ready_job
  fetch_ready_job-Held kinds t =
      exec-keeps (AtTime (Held id until) t) _ (λ db faults p. p) (λ db p. p)

  pub pickup_job-Held :
      (q : Queue) (kinds : List String) (t : ℕ)
      → until ≤ t + q.extend_interval
      → (db : Db) → AtTime (Held id until) t db
      → AtTime (Held id until) t (pickup_job q kinds db).1
  unfolding pickup_job answer
  pickup_job-Held q kinds t enough = with_tx-keeps (Held id until) t _ (
      bind-keeps (AtTime (Held id until) t) _ _ (fetch_ready_job-Held kinds t) (λ j.
        bind-keeps (AtTime (Held id until) t) _ _ (extend_wait_time-Held q j.id t enough)
          (λ _ db p. p)))

  pub save_job_result-Held :
      (job : Job) (t : ℕ) (db : Db)
      → AtTime (Held id until) t db
      → AtTime (Held id until) t (save_job_result job db).1
  unfolding save_job_result save_row
  save_job_result-Held job t =
      exec-keeps (AtTime (Held id until) t) _ (λ db faults p. p)
        (λ db p. (Held-update_rows _ _ db.rows (λ row. refl) (λ row k. k) p.0, p.1))

  insert_row-Held :
      (row : Row) (rows rows' : List Row)
      → insert_row row rows ≡ ok rows'
      → Held id until rows
      → Held id until rows'
  insert_row-Held row rows rows' e h =
      let made = insert_row-eq-ok row rows rows' e in
      subst (Held id until) (sym made.1) (record {
        there = ground (arith, h.there);
        held = ((λ same. ground (arith, h.there, made.0)), h.held);
      })

  insert_rows-Held :
      (jobs : List Job) (rows rows' : List Row)
      → insert_rows jobs rows ≡ ok rows'
      → Held id until rows
      → Held id until rows'
  unfolding insert_rows
  insert_rows-Held [] rows rows' e h = subst (Held id until) (ok-inj e) h
  insert_rows-Held (job ∷ jobs) rows rows' e h =
      let (rows1, first, rest) = then_rows-eq-ok _ _ e in
      insert_rows-Held jobs rows1 rows' rest (insert_row-Held (row_of job) rows rows1 first h)

  stored-Held :
      (r : Result (List Row)) (t : ℕ) (db : Db)
      → ((rows : List Row) → r ≡ ok rows → Held id until rows)
      → AtTime (Held id until) t db
      → AtTime (Held id until) t (stored r db).1
  stored-Held (ok rows) t db made (h, same) = (made rows refl, same)
  stored-Held (err e) t db made p = p

  insert-Held :
      (jobs : List Job) (t : ℕ) (db : Db)
      → AtTime (Held id until) t db
      → AtTime
          (Held id until)
          t
          (and_error (exec (λ db'. stored (insert_rows jobs db'.rows) db') db)).1
  insert-Held jobs t =
      exec-keeps (AtTime (Held id until) t) _ (λ db faults p. p)
        (λ db p.
          stored-Held (insert_rows jobs db.rows) t db
            (λ rows e. insert_rows-Held jobs db.rows rows e p.0) p)

  pub enqueue-Held :
      (jobs : List Job) (t : ℕ) (db : Db)
      → AtTime (Held id until) t db
      → AtTime (Held id until) t (enqueue jobs db).1
  unfolding enqueue answer try
  enqueue-Held [] t db p = p
  enqueue-Held (job ∷ jobs) t db p =
      bind-keeps (AtTime (Held id until) t) _ _ (insert-Held (job ∷ jobs) t) (λ r db' p'. p') db p
