-- ===== src/Postgres/Resources/Leases.antt =====
-- `fetchResourceForSync` of resource_store.go: the resource that it picks up is leased.
use mathlib.Core.Path.{subst}
use entropy.Base.{
  ℕ, ◌+◌, ◌<◌, String, Option, none, some, List, [], ◌∷◌, ◌≡◌, ◌≢◌, refl, sym, ◌∙◌, ap, arith,
  eq_iff,
}
use entropy.Base.Dict.{Dict}
use entropy.Io.{Result, ok, err}
use entropy.Io.Invert.{ok-inj}
use entropy.Postgres.{Fault, ResourceRow, Tables, run_or_fail, statement}
use entropy.Postgres.Gives.{
  Content, content, Ends, Gives, Gives-statement, Gives-answer, Gives-bind, Gives-within_tx,
}
use entropy.Postgres.Resources.{Store}
use entropy.Postgres.Resources.Steps.{Same}
use entropy.Postgres.Resources.Due.{
  due_of, unknown_column, is_due, find_due, select_due, extend_rows, extend_wait_time,
  fetch_resource_for_sync,
}

-- the tables where a resource is not due for the time of a lease
abbrev pub leased : Store → String → Content → Content
leased st urn c = record c {
  rows = record c.rows {
    resources = extend_rows urn (c.time + st.extend_interval) c.rows.resources;
  };
}

module _ (st : Store) (scope : Dict (List String)) (before : Content) where
  due-Ends :
      (r : Result String) (t : Tables)
      → content t ≡ before
      → Ends (λ c. Unit) (λ urn c. c ≡ before) (r, t)
  due-Ends (ok urn) t e = e
  due-Ends (err x) t e = tt

  fetch-Gives :
      Gives
        (Same before)
        (λ c. Unit)
        (fetch_resource_for_sync st scope)
        (λ urn c. c ≡ leased st urn before)
  unfolding fetch_resource_for_sync select_due extend_wait_time
  fetch-Gives =
      Gives-within_tx (λ c e. tt) (λ b c e h. tt) (λ a b c e h. tt)
        (Gives-bind {Q = λ urn c. c ≡ before}
          (Gives-statement _ (λ t e. due-Ends _ t e) (λ c e. tt))
          (λ urn.
            Gives-bind {Q = λ _ c. c ≡ leased st urn before}
              (Gives-statement _ (λ t e. ap (leased st urn) e) (λ c e. tt))
              (λ _. Gives-answer _ (λ a c e s. rw (← ok-inj e) s) (λ c s. tt))))

-- the rows when a resource has been picked up
pub fetched_rows :
    (st : Store) (scope : Dict (List String)) (t taken : Tables) (urn : String)
    → fetch_resource_for_sync st scope t ≡ (ok urn, taken)
    → taken.rows.resources ≡ extend_rows urn (t.time + st.extend_interval) t.rows.resources
fetched_rows st scope t taken urn e =
    ap (λ c. c.rows.resources)
      (subst (Ends (λ c. Unit) (λ urn c. c ≡ leased st urn (content t))) e
        ((fetch-Gives st scope (content t)).at t refl))

-- a row that is leased is not found
find_due-extend_rows :
    (scope : Dict (List String)) (t : Tables) (urn found : String) (time : ℕ)
    (rows : List ResourceRow)
    → t.time < time
    → find_due scope t (extend_rows urn time rows) ≡ ok found
    → found ≢ urn
unfolding find_due extend_rows is_due
find_due-extend_rows scope t urn found time [] early e = λ same. ground arith
find_due-extend_rows scope t urn found time (row ∷ rows) early e =
    ground (arith, find_due-extend_rows scope t urn found time rows early, eq_iff row.urn urn)

pub find_due_faults :
    (scope : Dict (List String)) (t : Tables) (fs : List (Option Fault)) (rows : List ResourceRow)
    → find_due scope (record t { faults = fs }) rows ≡ find_due scope t rows
unfolding find_due is_due
find_due_faults scope t fs [] = refl
find_due_faults scope t fs (row ∷ rows) = rw (find_due_faults scope t fs rows) refl

due_of-eq-ok :
    (o : Option String) (r : Result String) {urn : String} → due_of o r ≡ ok urn → r ≡ ok urn
due_of-eq-ok none r e = e
due_of-eq-ok (some column) r e = ground arith

module _ (scope : Dict (List String)) (t : Tables) {urn : String} {t' : Tables} where
  run-eq-ok :
      (fs : List (Option Fault))
      → run_or_fail fs
          (λ t. (due_of (unknown_column scope) (find_due scope t t.rows.resources), t))
          t
        ≡ (ok urn, t')
      → (find_due scope t t.rows.resources ≡ ok urn)
        × ((rest : List (Option Fault)) × (t' ≡ record t { faults = rest }))
  run-eq-ok [] e = (due_of-eq-ok _ _ (ap (λ x. x.0) e), (t.faults, sym (ap (λ x. x.1) e)))
  run-eq-ok (none ∷ fs) e = (
    sym (find_due_faults scope t fs t.rows.resources) ∙ due_of-eq-ok _ _ (ap (λ x. x.0) e),
    (fs, sym (ap (λ x. x.1) e)),
  )
  run-eq-ok (some x ∷ fs) e = ground arith

  select_due-eq-ok :
      select_due scope t ≡ (ok urn, t')
      → (find_due scope t t.rows.resources ≡ ok urn)
        × ((rest : List (Option Fault)) × (t' ≡ record t { faults = rest }))
  unfolding select_due statement
  select_due-eq-ok e = run-eq-ok t.faults e

-- If `fetchResourceForSync` has returned the URN of a resource, then no query for a resource that is
-- due returns that URN before the extension has gone by, as long as nobody else changes the rows.
pub fetch-leased :
    (st : Store) (scope : Dict (List String)) (t t1 : Tables) (urn : String)
    → fetch_resource_for_sync st scope t ≡ (ok urn, t1)
    → (other : Dict (List String)) (t2 t3 : Tables) (found : String)
    → t2.rows.resources ≡ t1.rows.resources
    → t2.time < t.time + st.extend_interval
    → select_due other t2 ≡ (ok found, t3)
    → found ≢ urn
fetch-leased st scope t t1 urn e other t2 t3 found same early selected =
    let rows = fetched_rows st scope t t1 urn e in
    find_due-extend_rows other t2 urn found (t.time + st.extend_interval) t.rows.resources early
      (ap (find_due other t2) (sym (same ∙ rows)) ∙ (select_due-eq-ok other t2 selected).0)
