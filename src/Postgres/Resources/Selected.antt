-- ===== src/Postgres/Resources/Selected.antt =====
-- `fetchResourceForSync` of internal/store/postgres/resource_store.go: which resource it picks up, and
-- when it finds none.
use mathlib.Core.List.{Memᴰ}
use entropy.Base.{
  String, Bool, true, false, Option, none, some, List, [], ◌∷◌, All, ◌≡◌, refl, arith,
  if◌then◌else◌,
}
use entropy.Base.Dict.{Dict}
use entropy.Errors.{no_rows, is}
use entropy.Io.{Result, ok, err, Call}
use entropy.Io.Calls.{answer, next, ◌>>=◌, ◌>>◌}
use entropy.Postgres.{
  Fault, refused, broken, fault_error, ResourceRow, Tables, run_or_fail, statement, committed,
  finished_tx, begun_tx, within_tx,
}
use entropy.Postgres.Resources.{Store}
use entropy.Postgres.Resources.Due.{
  due_of, unknown_column, is_due, find_due, select_due, extend_wait_time, fetch_resource_for_sync,
}
use entropy.Postgres.Resources.Leases.{find_due_faults}

-- `Q` of a value that is returned, and `E` if the error is that of a query without a row
abbrev pub Answers : {A : Type 0} → Type 0 → (A → Type 0) → Result A × Tables → Type 0
Answers E Q (ok a, t) = Q a
Answers E Q (err e, t) = is e no_rows ≡ true → E

module _ {A : Type 0} (E : Type 0) (Q : A → Type 0) where
  fault-Answers : (x : Fault) (t : Tables) → Answers E Q (err (fault_error x), t)
  fault-Answers (refused name text) t = λ h. absurd (ground arith)
  fault-Answers (broken text) t = λ h. absurd (ground arith)

  run-Answers :
      (stmt : Call Tables A) (fs : List (Option Fault)) (t : Tables)
      → ((rest : List (Option Fault)) → Answers E Q (stmt (record t { faults = rest })))
      → Answers E Q (run_or_fail fs stmt t)
  run-Answers stmt [] t h = h t.faults
  run-Answers stmt (none ∷ fs) t h = h fs
  run-Answers stmt (some x ∷ fs) t h = fault-Answers x (record t { faults = fs })

  committed-Answers :
      (before : Tables) (a : A) (fs : List (Option Fault)) (t : Tables)
      → Q a
      → Answers E Q (committed before a (run_or_fail fs (λ t. (ok tt, t)) t))
  committed-Answers before a [] t q = q
  committed-Answers before a (none ∷ fs) t q = q
  committed-Answers before a (some x ∷ fs) t q = fault-Answers x t

  finished-Answers :
      (before : Tables) (out : Result A × Tables)
      → Answers E Q out
      → Answers E Q (finished_tx before out)
  unfolding statement answer
  finished-Answers before (ok a, t) h = committed-Answers before a t.faults t h
  finished-Answers before (err e, t) h = h

  begun-Answers :
      (fn : Call Tables A) (before : Tables) (fs : List (Option Fault))
      → ((rest : List (Option Fault)) → Answers E Q (fn (record before { faults = rest })))
      → Answers E Q (begun_tx before fn (run_or_fail fs (λ t. (ok tt, t)) before))
  begun-Answers fn before [] h = finished-Answers before _ (h before.faults)
  begun-Answers fn before (none ∷ fs) h = finished-Answers before _ (h fs)
  begun-Answers fn before (some x ∷ fs) h = fault-Answers x (record before { faults = fs })

module _ {A B : Type 0} (E : Type 0) (Q : A → Type 0) (R : B → Type 0) where
  next-Answers :
      (f : A → Call Tables B) (out : Result A × Tables)
      → Answers E Q out
      → ((a : A) (t : Tables) → Q a → Answers E R (f a t))
      → Answers E R (next out f)
  next-Answers f (ok a, t) h g = g a t h
  next-Answers f (err e, t) h g = h

module _ (scope : Dict (List String)) (t : Tables) where
  -- none of the rows is due
  abbrev pub AllIdle : List ResourceRow → Type 0
  AllIdle rows = All (λ row. is_due scope t row ≡ false) rows

  -- the URN is that of one of the rows, which is due
  abbrev pub IsUrnOfDue : List ResourceRow → String → Type 0
  IsUrnOfDue rows urn =
      (row : ResourceRow) × Memᴰ row rows × (row.urn ≡ urn) × (is_due scope t row ≡ true)

  if_due-Answers :
      (row : ResourceRow) (rows : List ResourceRow) (due : Bool)
      → is_due scope t row ≡ due
      → (r : Result String) (t' : Tables) → Answers (AllIdle rows) (IsUrnOfDue rows) (r, t')
      → Answers (AllIdle (row ∷ rows)) (IsUrnOfDue (row ∷ rows)) (if due then ok row.urn else r, t')
  if_due-Answers row rows true due r t' h = (row, Memᴰ.head refl, refl, due)
  if_due-Answers row rows false not_due (ok urn) t' (other, m, same, due) =
      (other, Memᴰ.tail m, same, due)
  if_due-Answers row rows false not_due (err e) t' h = λ x. (not_due, h x)

  find_due-Answers :
      (rows : List ResourceRow) (t' : Tables)
      → Answers (AllIdle rows) (IsUrnOfDue rows) (find_due scope t rows, t')
  unfolding find_due
  find_due-Answers [] t' = λ _. tt
  find_due-Answers (row ∷ rows) t' =
      if_due-Answers row rows (is_due scope t row) refl (find_due scope t rows) t'
        (find_due-Answers rows t')

  abbrev pub NothingDue : Type 0
  NothingDue = AllIdle t.rows.resources

  abbrev pub Due : String → Type 0
  Due = IsUrnOfDue t.rows.resources

  due_of-Answers :
      (o : Option String) (r : Result String) (t' : Tables)
      → Answers NothingDue Due (r, t')
      → Answers NothingDue Due (due_of o r, t')
  due_of-Answers none r t' h = h
  due_of-Answers (some column) r t' h = λ x. absurd (ground arith)

  select_due-Answers :
      (fs : List (Option Fault))
      → Answers NothingDue Due (select_due scope (record t { faults = fs }))
  unfolding select_due statement
  select_due-Answers fs =
      run-Answers NothingDue Due _ fs (record t { faults = fs })
        (λ rest. due_of-Answers (unknown_column scope) _ _ (
          rw (find_due_faults scope t rest t.rows.resources)
            (find_due-Answers t.rows.resources (record t { faults = rest }))))

  extended-Answers :
      (st : Store) (urn : String) (t1 : Tables)
      → Due urn
      → Answers NothingDue Due ((do extend_wait_time st urn; answer (ok urn)) t1)
  unfolding extend_wait_time statement answer ◌>>=◌
  extended-Answers st urn t1 due =
      next-Answers NothingDue (λ _. Due urn) Due (λ _. answer (ok urn)) (extend_wait_time st urn t1)
        (run-Answers NothingDue (λ _. Due urn) _ t1.faults t1 (λ rest. due)) (λ _ _ _. due)

  -- a resource that is picked up was due, and where the query found no row, none was due
  pub fetch-Answers : (st : Store) → Answers NothingDue Due (fetch_resource_for_sync st scope t)
  unfolding fetch_resource_for_sync within_tx statement answer ◌>>=◌
  fetch-Answers st =
      begun-Answers NothingDue Due
        (do urn ← select_due scope; extend_wait_time st urn; answer (ok urn)) t t.faults
        (λ fs.
          next-Answers NothingDue Due Due (λ urn. do extend_wait_time st urn; answer (ok urn))
            (select_due scope (record t { faults = fs })) (select_due-Answers fs)
            (extended-Answers st))
