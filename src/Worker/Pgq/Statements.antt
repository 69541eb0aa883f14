-- ===== src/Worker/Pgq/Statements.antt =====
-- What holds after a statement on the table of jobs, and after a transaction.
use entropy.Base.{
  ℕ, String, Bool, true, false, Option, none, some, List, [], ◌∷◌, ◌≡◌, refl, All, if◌then◌else◌,
}
use entropy.Errors.{GoError}
use entropy.Io.{Result, ok, err, Call}
use entropy.Io.Calls.{answer, next, ◌>>=◌}
use entropy.Worker.Pgq.{
  Row, Db, after_fault, exec, finished_tx, committed, with_tx, update_rows, has_id,
}

module _ {A : Type 0} (stmt : Call Db A) (P : Result A × Db → Type 0) where
  after_fault-elim :
      (fs : List (Option GoError)) (db : Db)
      → ((faults : List (Option GoError)) → P (stmt (record db { faults = faults })))
      → ((e : GoError) (faults : List (Option GoError)) → P (err e, record db { faults = faults }))
      → P (after_fault fs stmt db)
  after_fault-elim [] db runs fails = runs db.faults
  after_fault-elim (none ∷ fs) db runs fails = runs fs
  after_fault-elim (some e ∷ fs) db runs fails = fails e fs

  -- a statement runs or fails, and uses up at most one of the faults
  pub exec-elim :
      (db : Db)
      → ((faults : List (Option GoError)) → P (stmt (record db { faults = faults })))
      → ((e : GoError) (faults : List (Option GoError)) → P (err e, record db { faults = faults }))
      → P (exec stmt db)
  unfolding exec
  exec-elim db runs fails = after_fault-elim db.faults db runs fails

-- what depends on the rows and the time alone
abbrev pub Frame : (Db → Type 0) → Type 0
Frame P = (db : Db) (faults : List (Option GoError)) → P db → P (record db { faults = faults })

module _ {A : Type 0} where
  pub exec-keeps :
      (P : Db → Type 0) (stmt : Call Db A)
      → Frame P
      → ((db : Db) → P db → P (stmt db).1)
      → (db : Db) → P db
      → P (exec stmt db).1
  exec-keeps P stmt frame step db p =
      exec-elim stmt (λ out. P out.1) db (λ faults. step _ (frame db faults p))
        (λ e faults. frame db faults p)

module _ (P : Row → Type 0) (test : Row → Bool) (f : Row → Row) where
  chosen : (b : Bool) (row : Row) → (P row → P (f row)) → P row → P (if b then f row else row)
  chosen true row step p = step p
  chosen false row step p = p

  pub All-update_rows :
      ((row : Row) → P row → P (f row))
      → (rows : List Row) → All P rows
      → All P (update_rows test f rows)
  unfolding update_rows
  All-update_rows step [] h = tt
  All-update_rows step (row ∷ rows) (p, h) =
      (chosen (test row) row (step row) p, All-update_rows step rows h)

module _ (test : Row → Bool) (f : Row → Row) (same : (row : Row) → (f row).id ≡ row.id) where
  chosen-id : (b : Bool) (row : Row) → (if b then f row else row).id ≡ row.id
  chosen-id true row = same row
  chosen-id false row = refl

  -- changes that keep the key of a row keep the keys of the table
  pub has_id-update_rows :
      (id : String) (rows : List Row) → has_id id (update_rows test f rows) ≡ has_id id rows
  unfolding update_rows
  has_id-update_rows id [] = refl
  has_id-update_rows id (row ∷ rows) =
      rw (chosen-id (test row) row, has_id-update_rows id rows) refl

-- an invariant of the rows, at one time
abbrev pub AtTime : (List Row → Type 0) → ℕ → Db → Type 0
AtTime R t db = R db.rows × (db.time ≡ t)

module _ {A : Type 0} (R : List Row → Type 0) (t : ℕ) where
  committed-keeps :
      (before : List Row) (a : A) (out : Result (Unit {0}) × Db)
      → R before
      → AtTime R t out.1
      → AtTime R t (committed before a out).1
  committed-keeps before a (ok _, db) r0 p = p
  committed-keeps before a (err e, db) r0 (r, same) = (r0, same)

  finished_tx-keeps :
      (before : List Row) (out : Result A × Db)
      → R before
      → AtTime R t out.1
      → AtTime R t (finished_tx before out).1
  unfolding answer
  finished_tx-keeps before (ok a, db) r0 p =
      committed-keeps before a _ r0
        (exec-keeps (AtTime R t) (answer (ok tt)) (λ db' faults p'. p') (λ db' p'. p') db p)
  finished_tx-keeps before (err e, db) r0 (r, same) = (r0, same)

  began-keeps :
      (fn : Call Db A) (before : List Row) (out : Result (Unit {0}) × Db)
      → ((db : Db) → AtTime R t db → AtTime R t (fn db).1)
      → R before
      → AtTime R t out.1
      → AtTime R t (next out (λ _ began. finished_tx before (fn began))).1
  began-keeps fn before (ok _, db) step r0 p = finished_tx-keeps before (fn db) r0 (step db p)
  began-keeps fn before (err e, db) step r0 p = p

  -- a transaction keeps what its body keeps
  pub with_tx-keeps :
      (fn : Call Db A)
      → ((db : Db) → AtTime R t db → AtTime R t (fn db).1)
      → (db : Db) → AtTime R t db
      → AtTime R t (with_tx fn db).1
  unfolding with_tx ◌>>=◌
  with_tx-keeps fn step db (r, same) =
      began-keeps fn db.rows _ step r
        (exec-keeps (AtTime R t) (answer (ok tt)) (λ db' faults p'. p') (λ db' p'. p') db (r, same))

module _ {A B : Type 0} (P : Db → Type 0) where
  next-keeps :
      (out : Result A × Db) (f : A → Call Db B)
      → P out.1
      → ((a : A) (db : Db) → P db → P (f a db).1)
      → P (next out f).1
  next-keeps (ok a, db) f p step = step a db p
  next-keeps (err e, db) f p step = p

  pub bind-keeps :
      (m : Call Db A) (f : A → Call Db B)
      → ((db : Db) → P db → P (m db).1)
      → ((a : A) (db : Db) → P db → P (f a db).1)
      → (db : Db) → P db
      → P ((m >>= f) db).1
  unfolding ◌>>=◌
  bind-keeps m f first rest db p = next-keeps (m db) f (first db p) rest
