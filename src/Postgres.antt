-- ===== src/Postgres.antt =====
-- internal/store/postgres: the database as the store sees it, and utils.go, its errors.
pub mod Modules
pub mod Gives
pub mod Reading
pub mod Undone
pub mod Tags
pub mod Resources
pub mod Revisions
use entropy.Base.{
  ℕ, String, Bool, true, false, Option, none, some, List, [], ◌∷◌, ◌==◌, if◌then◌else◌,
}
use entropy.Errors.{
  GoError, own, no_rows, pq_error, foreign, wrapped, err_not_found, err_conflict, err_internal,
  with_causef, is, go_text,
}
use entropy.Io.{Result, ok, err, Call}
use entropy.Io.Calls.{answer, ◌>>=◌, ◌>>◌}
use entropy.Resource.{RawMessage}
use entropy.Module.{Module}

-- `resourceModel`, a row of the table `resources` of schema.sql
pub record ResourceRow : Type 0 where
  pub id : ℕ
  pub urn : String
  pub kind : String
  pub name : String
  pub project : String
  pub created_at : ℕ
  pub updated_at : ℕ
  pub created_by : String
  pub updated_by : String
  pub spec_configs : RawMessage
  pub state_status : String
  pub state_output : RawMessage
  pub state_module_data : RawMessage
  pub state_next_sync : Option ℕ
  pub state_sync_result : RawMessage

-- a row of `resource_dependencies`
pub record DependencyRow : Type 0 where
  pub resource_id : ℕ
  pub dependency_key : String
  pub depends_on : ℕ

-- a row of `resource_tags` or of `revision_tags`, with the id of what it belongs to
pub record TagRow : Type 0 where
  pub owner_id : ℕ
  pub tag : String

-- `revisionModel`, a row of `revisions`
pub record RevisionRow : Type 0 where
  pub id : ℕ
  pub reason : String
  pub created_at : ℕ
  pub created_by : String
  pub resource_id : ℕ
  pub spec_configs : RawMessage

-- the tables of the resources
pub record Rows : Type 0 where
  pub resources : List ResourceRow
  pub dependencies : List DependencyRow
  pub resource_tags : List TagRow
  pub revisions : List RevisionRow
  pub revision_tags : List TagRow

-- An error of the database, with the name of its code, or of the connection to it. A query that finds
-- nothing is no such error.
pub data Fault : Type 0 where
  refused : String → String → Fault
  broken : String → Fault

-- The tables of schema.sql with the sequences that number new rows, the rows of resources that others
-- have locked, the database's time, and what becomes of the next statements: `none` runs, as does
-- every statement after the list.
pub record Tables : Type 0 where
  pub modules : List Module
  pub rows : Rows
  pub next_resource_id : ℕ
  pub next_revision_id : ℕ
  pub locked : List String
  pub time : ℕ
  pub faults : List (Option Fault)

abbrev pub fault_error : Fault → GoError
fault_error (refused name text) = pq_error name text
fault_error (broken text) = foreign text

module _ {A : Type 0} where
  abbrev pub run_or_fail : List (Option Fault) → Call Tables A → Call Tables A
  run_or_fail (some e ∷ faults) stmt t = (err (fault_error e), record t { faults = faults })
  run_or_fail (none ∷ faults) stmt t = stmt (record t { faults = faults })
  run_or_fail [] stmt t = stmt t

  -- one statement
  unfoldable pub statement : Call Tables A → Call Tables A
  statement stmt t = run_or_fail t.faults stmt t

-- `errors.As(err, &pgErr)`: the name of the code
unfoldable pub pq_code : GoError → Option String
pq_code (pq_error name text) = some name
pq_code (wrapped text inner) = pq_code inner
pq_code _ = none

abbrev pub category : GoError → Option String → GoError
category e none = e
category e (some name) =
    if name == "unique_violation"
    then own (with_causef err_conflict (go_text e))
    else own (with_causef err_internal (go_text e))

unfoldable pub translated : GoError → GoError
translated e =
    if is e no_rows then own (with_causef err_not_found (go_text e)) else category e (pq_code e)

-- `translateErr`; a nil error stays one
abbrev pub translate_err : {A : Type 0} → Result A → Result A
translate_err (ok a) = ok a
translate_err (err e) = err (translated e)

-- `if errors.Is(err, sql.ErrNoRows) { return nil }`
abbrev pub no_rows_as : {A : Type 0} → A → Result A → Result A
no_rows_as none_found (ok a) = ok a
no_rows_as none_found (err e) = if is e no_rows then ok none_found else err e

-- a transaction that ends without a commit leaves the tables as they were; the sequences stay
abbrev pub restored : Tables → Tables → Tables
restored before t = record t { modules = before.modules; rows = before.rows }

module _ {A : Type 0} where
  abbrev pub committed : Tables → A → Result (Unit {0}) × Tables → Result A × Tables
  committed before a (ok _, t) = (ok a, t)
  committed before a (err e, t) = (err e, restored before t)

  abbrev pub finished_tx : Tables → Result A × Tables → Result A × Tables
  finished_tx before (ok a, t) = committed before a (statement (answer (ok tt)) t)
  finished_tx before (err e, t) = (err e, restored before t)

  abbrev pub begun_tx : Tables → Call Tables A → Result (Unit {0}) × Tables → Result A × Tables
  begun_tx before fn (ok _, t) = finished_tx before (fn t)
  begun_tx before fn (err e, t) = (err e, t)

  -- `withinTx` with one function, whose results are what it writes to variables of the caller
  unfoldable pub within_tx : Call Tables A → Call Tables A
  within_tx fn t = begun_tx t fn (statement (answer (ok tt)) t)

-- `resource.MutationHook`, a function of the context only: it gets no transaction, and what it does, it
-- does outside of this one, to other things than these tables. Of its call the store sees the error.
abbrev pub MutationHook : Type 0
MutationHook = Result (Unit {0})

unfoldable pub run_all_hooks : List MutationHook → Call Tables (Unit {0})
run_all_hooks [] = answer (ok tt)
run_all_hooks (hook ∷ hooks) = do answer hook; run_all_hooks hooks
