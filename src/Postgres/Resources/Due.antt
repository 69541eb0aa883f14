-- ===== src/Postgres/Resources/Due.antt =====
-- internal/store/postgres/resource_store.go: finding a resource that is due for a sync, and its lease.
use entropy.Base.{
  ℕ, ◌+◌, String, Bool, true, false, not, ◌&&◌, Option, none, some, List, [], ◌∷◌, ◌==◌, leb, any,
  is_empty, if◌then◌else◌,
}
use entropy.Base.Dict.{Dict}
use entropy.Base.Text.{◌<>◌}
use entropy.Errors.{no_rows, pq_error}
use entropy.Io.{Result, ok, err, Call}
use entropy.Io.Calls.{answer, ◌>>=◌, ◌>>◌}
use entropy.Postgres.{ResourceRow, Tables, statement, within_tx}
use entropy.Postgres.Resources.{Store}

abbrev pub columns : List String
columns =
    "id" ∷ "urn" ∷ "kind" ∷ "project" ∷ "name" ∷ "created_at" ∷ "updated_at" ∷ "spec_configs"
    ∷ "state_status" ∷ "state_output" ∷ "state_module_data" ∷ "state_next_sync"
    ∷ "state_sync_result" ∷ "created_by" ∷ "updated_by" ∷ []

-- The first key of a scope that is no column of `resources`. A key without values is not named in the
-- query, which has a condition that is false in its place.
unfoldable pub unknown_column : Dict (List String) → Option String
unknown_column [] = none
unknown_column ((key, values) ∷ scope) =
    let rest = unknown_column scope in
    if is_empty values
    then rest
    else if any (λ column. column == key) columns
    then rest
    else some key

abbrev pub due_of : Option String → Result String → Result String
due_of none found = found
due_of (some column) found =
    err (pq_error "undefined_column" ("pq: column \"" <> column <> "\" does not exist"))

-- A column of text that a scope may name; one on a column of another type selects nothing here.
unfoldable pub text_column : String → ResourceRow → Option String
text_column column row =
    if column == "urn"
    then some row.urn
    else if column == "kind"
    then some row.kind
    else if column == "name"
    then some row.name
    else if column == "project"
    then some row.project
    else if column == "state_status"
    then some row.state_status
    else if column == "created_by"
    then some row.created_by
    else if column == "updated_by"
    then some row.updated_by
    else none

abbrev pub is_one_of : List String → Option String → Bool
is_one_of values none = false
is_one_of values (some text) = any (λ value. value == text) values

-- `key IN (values)` for each key of the scope
unfoldable pub in_scope : Dict (List String) → ResourceRow → Bool
in_scope [] row = true
in_scope ((key, values) ∷ scope) row = is_one_of values (text_column key row) && in_scope scope row

abbrev pub is_past : ℕ → Option ℕ → Bool
is_past time none = false
is_past time (some t) = leb t time

-- the WHERE of `fetchResourceForSync`, with FOR UPDATE SKIP LOCKED
unfoldable pub is_due : Dict (List String) → Tables → ResourceRow → Bool
is_due scope t row =
    is_past t.time row.state_next_sync
    && in_scope scope row
    && not (any (λ urn. urn == row.urn) t.locked)

-- the first row: the order of the rows stands for the choice of the database
unfoldable pub find_due : Dict (List String) → Tables → List ResourceRow → Result String
find_due scope t [] = err no_rows
find_due scope t (row ∷ rows) =
    let rest = find_due scope t rows in if is_due scope t row then ok row.urn else rest

-- The query runs on `st.db`, beside the transaction: it is a transaction of its own, and the lock of
-- the row is gone when it returns.
unfoldable pub select_due : Dict (List String) → Call Tables String
select_due scope =
    statement (λ t. (due_of (unknown_column scope) (find_due scope t t.rows.resources), t))

unfoldable pub extend_rows : String → ℕ → List ResourceRow → List ResourceRow
extend_rows urn time [] = []
extend_rows urn time (row ∷ rows) =
    (if row.urn == urn then record row { state_next_sync = some time } else row)
    ∷ extend_rows urn time rows

unfoldable pub extend_wait_time : Store → String → Call Tables (Unit {0})
extend_wait_time st urn = statement (λ t. (
  ok tt,
  record t {
    rows = record t.rows {
      resources = extend_rows urn (t.time + st.extend_interval) t.rows.resources;
    };
  },
))

unfoldable pub fetch_resource_for_sync : Store → Dict (List String) → Call Tables String
fetch_resource_for_sync st scope =
    within_tx (do urn ← select_due scope; extend_wait_time st urn; answer (ok urn))

-- `runHeartbeat`, for its ticks: it stops at the first that fails
unfoldable pub run_heartbeat : Store → List ℕ → String → Tables → Tables
run_heartbeat st [] id t = t
run_heartbeat st (time ∷ ticks) id t =
    let (r, t') = extend_wait_time st id (record t { time = time }) in
    let rest = run_heartbeat st ticks id t' in elim r [ ok _ ↦ rest | err _ ↦ t' ]
