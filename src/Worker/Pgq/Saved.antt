-- ===== src/Worker/Pgq/Saved.antt =====
-- `saveJobResult` of pkg/worker/pgq/pgq_utils.go, and what `Dequeue` makes of an attempt.
use mathlib.Core.Path.{subst}
use entropy.Base.{◌+◌, ◌&&◌, some, List, [], ◌∷◌, ◌==◌, ◌≡◌, ◌≢◌, ap, arith, eq_iff, if◌then◌else◌}
use entropy.Io.{ok}
use entropy.Worker.{Job, status_pending}
use entropy.Worker.Pgq.{Row, Db, update_rows, save_row, save_job_result}
use entropy.Worker.Pgq.Picked.{exec-eq-ok}

-- How a row may differ from the old one after a result is saved: a row that is not pending, or is not
-- the job's, is the old one; the row of the job has its result, and the time at which it was to run.
pub record SavedRow (job : Job) (old row : Row) : Type 0 where
  pub id : row.id ≡ old.id
  pub run_at : row.run_at ≡ old.run_at
  pub other : old.id ≢ job.id → row ≡ old
  pub final : old.status ≢ status_pending → row ≡ old
  pub written :
      old.id ≡ job.id
      → old.status ≡ status_pending
      → (row.status ≡ job.status)
        × (row.result ≡ job.result)
        × (row.attempts_done ≡ old.attempts_done + 1)
        × (row.last_error ≡ some job.last_error)

-- row by row
abbrev pub SavedRows : Job → List Row → List Row → Type 0
SavedRows job [] [] = Unit
SavedRows job (old ∷ olds) (row ∷ rows) = SavedRow job old row × SavedRows job olds rows
SavedRows job [] (row ∷ rows) = ⊥
SavedRows job (old ∷ olds) [] = ⊥

saved_row :
    (job : Job) (old : Row)
    → SavedRow job old
        (if old.id == job.id && old.status == status_pending then save_row job old else old)
unfolding save_row
saved_row job old = record {
  id = ground arith;
  run_at = ground arith;
  other = λ h. ground (arith, eq_iff old.id job.id);
  final = λ h. ground (arith, eq_iff old.status status_pending);
  written = λ same pending. ground (arith, eq_iff old.id job.id, eq_iff old.status status_pending);
}

saved_rows :
    (job : Job) (rows : List Row)
    → SavedRows job rows
        (update_rows (λ row. row.id == job.id && row.status == status_pending) (save_row job) rows)
unfolding update_rows
saved_rows job [] = tt
saved_rows job (row ∷ rows) = (saved_row job row, saved_rows job rows)

-- If a result is saved, then each row that is not pending, or not the job's, is as it was, and a
-- pending row of the job has the job's status, result and error and one attempt more. No row has
-- another time to run at than before, whatever the job asks for.
pub save_job_result-saved :
    (job : Job) (db db' : Db)
    → save_job_result job db ≡ (ok tt, db')
    → SavedRows job db.rows db'.rows
unfolding save_job_result
save_job_result-saved job db db' e =
    let (faults, ran) = exec-eq-ok _ db e in
    subst (SavedRows job db.rows) (ap (λ o. o.1.rows) ran) (saved_rows job db.rows)
