-- ===== src/Postgres/Modules.antt =====
-- internal/store/postgres/module_store.go and module_model.go: the store of modules. The names of
-- columns and the attributes for tracing are left out.
pub mod Rows
pub mod Found
use entropy.Base.{
  ℕ, String, Bool, true, false, Option, none, some, List, [], ◌∷◌, ◌==◌, any, if◌then◌else◌,
}
use entropy.Errors.{GoError, own, no_rows, pq_error, err_not_found, is}
use entropy.Io.{Result, ok, err, Call}
use entropy.Io.Calls.{answer, try, ◌>>=◌, ◌>>◌}
use entropy.Resource.{RawMessage, non_nil}
use entropy.Module.{Module}
use entropy.Module.Service.{ModuleStore}
use entropy.Postgres.{Tables, statement, translate_err}

-- the row with the URN, the primary key
unfoldable pub find_module : String → List Module → Option Module
find_module urn [] = none
find_module urn (m ∷ rows) = if m.urn == urn then some m else find_module urn rows

abbrev pub scanned_module : Option Module → Result Module
scanned_module none = err no_rows
scanned_module (some m) = ok m

-- the error handling of `readModuleRecord`
abbrev pub or_not_found : Result Module → Result Module
or_not_found (ok m) = ok m
or_not_found (err e) = if is e no_rows then err (own err_not_found) else err e

unfoldable pub read_module_record : String → Call Tables Module
read_module_record urn = do
  r ← try (statement (λ t. (scanned_module (find_module urn t.modules), t)))
  answer (or_not_found r)

unfoldable pub get_module : String → Call Tables Module
get_module urn = read_module_record urn

-- the URNs that the query of `ListModules` returns
unfoldable pub urns_of : String → List Module → List String
urns_of project [] = []
urns_of project (m ∷ rows) =
    let rest = urns_of project rows in
    if project == "" then m.urn ∷ rest else if m.project == project then m.urn ∷ rest else rest

-- the loop of `ListModules`
unfoldable pub read_all : List String → Call Tables (List Module)
read_all [] = answer (ok [])
read_all (urn ∷ urns) = do m ← read_module_record urn; rest ← read_all urns; answer (ok (m ∷ rest))

abbrev pub no_rows_is_empty : Result (List String) → Result (List String)
no_rows_is_empty (ok urns) = ok urns
no_rows_is_empty (err e) = if is e no_rows then ok [] else err e

unfoldable pub list_modules : String → Call Tables (List Module)
list_modules project = do
  queried ← try (statement (λ t. (ok (urns_of project t.modules), t)))
  urns ← answer (no_rows_is_empty queried)
  read_all urns

-- the row of a module, whose configuration is never NULL
abbrev pub module_row : Module → Module
module_row m = record m { configs = non_nil m.configs }

-- the constraints of the table on a new row
abbrev pub insert_module : Option Module → Module → Tables → Result (Unit {0}) × Tables
insert_module (some old) m t =
    (err (pq_error "unique_violation" "duplicate key value violates unique constraint"), t)
insert_module none m t = (ok tt, record t { modules = module_row m ∷ t.modules })

-- `insertModuleRecord`
unfoldable pub insert_module_record : Module → Call Tables (Unit {0})
insert_module_record m = statement (λ t. insert_module (find_module m.urn t.modules) m t)

unfoldable pub create_module : Module → Call Tables (Unit {0})
create_module m = do r ← try (insert_module_record m); answer (translate_err r)

-- the SET of `UpdateModule`
unfoldable pub set_configs : RawMessage → ℕ → String → List Module → List Module
set_configs configs time urn [] = []
set_configs configs time urn (m ∷ rows) =
    (if m.urn == urn then record m { configs = configs; updated_at = time } else m)
    ∷ set_configs configs time urn rows

unfoldable pub update_module : Module → Call Tables (Unit {0})
update_module m = do
  r ← try (
      statement (λ t.
        (ok tt, record t { modules = set_configs (non_nil m.configs) t.time m.urn t.modules })))
  answer (translate_err r)

unfoldable pub without_module : String → List Module → List Module
without_module urn [] = []
without_module urn (m ∷ rows) =
    let rest = without_module urn rows in if m.urn == urn then rest else m ∷ rest

unfoldable pub delete_module : String → Call Tables (Unit {0})
delete_module urn = do
  r ← try (statement (λ t. (ok tt, record t { modules = without_module urn t.modules })))
  answer (translate_err r)

-- `Store` as the store of the module service
abbrev pub module_store : ModuleStore Tables
module_store = record {
  get_module = get_module;
  list_modules = list_modules;
  create_module = create_module;
  update_module = update_module;
  delete_module = delete_module;
}
