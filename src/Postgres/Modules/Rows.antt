-- ===== src/Postgres/Modules/Rows.antt =====
-- The operations of the store of modules as those of a map from URNs to modules.
use entropy.Base.{
  ℕ, String, Option, none, some, List, [], ◌∷◌, ◌==◌, ◌≡◌, refl, arith, eq_iff, if◌then◌else◌,
}
use entropy.Errors.{GoError}
use entropy.Io.{Result, ok, err, Call}
use entropy.Io.Calls.{answer, try, and_error, next, ◌>>=◌}
use entropy.Resource.{RawMessage, non_nil}
use entropy.Module.{Module}
use entropy.Postgres.{Fault, fault_error, Tables, run_or_fail, statement, translate_err}
use entropy.Postgres.Modules.{
  find_module, insert_module, insert_module_record, create_module, set_configs, module_row,
  update_module, without_module, delete_module,
}

module _ {A : Type 0} (stmt : Call Tables A) (P : Result A × Tables → Type 0) (t : Tables)
    (runs : (faults : List (Option Fault)) → P (stmt (record t { faults = faults })))
    (fails : (e : GoError) (faults : List (Option Fault))
      → P (err e, record t { faults = faults })) where
  run_or_fail-elim : (fs : List (Option Fault)) → P (run_or_fail fs stmt t)
  run_or_fail-elim [] = runs t.faults
  run_or_fail-elim (none ∷ fs) = runs fs
  run_or_fail-elim (some e ∷ fs) = fails (fault_error e) fs

  -- a statement runs, or fails and changes nothing
  pub statement-elim : P (statement stmt t)
  unfolding statement
  statement-elim = run_or_fail-elim t.faults

-- An operation on the map either returns an error and changes nothing, or has done `Done`.
abbrev pub Changes :
    (List Module → List Module → Type 0) → Tables → Result (Unit {0}) × Tables → Type 0
Changes Done t (ok _, t') = Done t.modules t'.modules
Changes Done t (err e, t') = t'.modules ≡ t.modules

translated-Changes :
    (Done : List Module → List Module → Type 0) (t : Tables) (out : Result (Unit {0}) × Tables)
    → Changes Done t out
    → Changes Done t (next (and_error out) (λ r. answer (translate_err r)))
unfolding answer
translated-Changes Done t (ok x, t') h = h
translated-Changes Done t (err e, t') h = h

-- what a creation does to the map
abbrev pub Creates : Module → List Module → List Module → Type 0
Creates m old new =
    (find_module m.urn old ≡ none)
    × ((urn : String)
        → find_module urn new ≡ (if m.urn == urn then some (module_row m) else find_module urn old))

insert_module-Changes :
    (o : Option Module) (m : Module) (t : Tables) (faults : List (Option Fault))
    → find_module m.urn t.modules ≡ o
    → Changes (Creates m) t (insert_module o m (record t { faults = faults }))
unfolding find_module
insert_module-Changes (some old) m t faults found = refl
insert_module-Changes none m t faults found = (found, λ urn. refl)

-- If `CreateModule` returns no error, then there was no module of that URN, and it is found under its
-- URN from now on, beside what was found under the others; if it returns one, nothing has changed.
pub create_module-Creates : (m : Module) (t : Tables) → Changes (Creates m) t (create_module m t)
unfolding create_module insert_module_record try ◌>>=◌
create_module-Creates m t = translated-Changes (Creates m) t _ (
    statement-elim _ (Changes (Creates m) t) t
      (λ faults. insert_module-Changes (find_module m.urn t.modules) m t faults refl)
      (λ e faults. refl))

-- a module with another configuration, as of the database's time
abbrev pub configured : RawMessage → ℕ → Option Module → Option Module
configured configs time none = none
configured configs time (some m) = some (record m { configs = configs; updated_at = time })

-- what an update does to the map
abbrev pub Updates : Module → ℕ → List Module → List Module → Type 0
Updates m time old new =
    (urn : String)
    → find_module urn new ≡ (
        if m.urn == urn
        then configured (non_nil m.configs) time (find_module urn old)
        else find_module urn old)

find_module-set_configs :
    (configs : RawMessage) (time : ℕ) (key urn : String) (rows : List Module)
    → find_module urn (set_configs configs time key rows) ≡ (
        if key == urn then configured configs time (find_module urn rows) else find_module urn rows)
unfolding find_module set_configs
find_module-set_configs configs time key urn [] = ground arith
find_module-set_configs configs time key urn (m ∷ rows) = ground (
  arith,
  find_module-set_configs configs time key urn rows,
  eq_iff m.urn key,
  eq_iff m.urn urn,
  eq_iff key urn,
)

-- If `UpdateModule` returns no error, then the module of that URN, where there is one, has the new
-- configuration and the database's time as its time of update, and nothing else has changed; where
-- there is none, nothing has. If it returns an error, nothing has changed.
pub update_module-Updates :
    (m : Module) (t : Tables) → Changes (Updates m t.time) t (update_module m t)
unfolding update_module try ◌>>=◌
update_module-Updates m t = translated-Changes (Updates m t.time) t _ (
    statement-elim _ (Changes (Updates m t.time) t) t
      (λ faults urn. find_module-set_configs (non_nil m.configs) t.time m.urn urn t.modules)
      (λ e faults. refl))

-- what a deletion does to the map
abbrev pub Deletes : String → List Module → List Module → Type 0
Deletes key old new =
    (urn : String) → find_module urn new ≡ (if key == urn then none else find_module urn old)

find_module-without_module :
    (key urn : String) (rows : List Module)
    → find_module urn (without_module key rows)
      ≡ (if key == urn then none else find_module urn rows)
unfolding find_module without_module
find_module-without_module key urn [] = ground arith
find_module-without_module key urn (m ∷ rows) = ground (
  arith,
  find_module-without_module key urn rows,
  eq_iff m.urn key,
  eq_iff m.urn urn,
  eq_iff key urn,
)

-- If `DeleteModule` returns no error, then there is no module of that URN and the others are as they
-- were; if it returns one, nothing has changed.
pub delete_module-Deletes :
    (key : String) (t : Tables) → Changes (Deletes key) t (delete_module key t)
unfolding delete_module try ◌>>=◌
delete_module-Deletes key t = translated-Changes (Deletes key) t _ (
    statement-elim _ (Changes (Deletes key) t) t
      (λ faults urn. find_module-without_module key urn t.modules) (λ e faults. refl))

-- Each write of the store of modules, if it returns an error, changes nothing; if it returns none,
-- `CreateModule` has put a module under a URN that had none, with an empty configuration for a nil
-- one, `UpdateModule` has replaced the
-- configuration and the time of update of the module of that URN, where there is one,
-- `DeleteModule` has removed the module of that URN, and nothing else has changed.
pub module_writes-Changes :
    (m : Module) (key : String) (t : Tables)
    → Changes (Creates m) t (create_module m t)
      × Changes (Updates m t.time) t (update_module m t)
      × Changes (Deletes key) t (delete_module key t)
module_writes-Changes m key t =
    (create_module-Creates m t, update_module-Updates m t, delete_module-Deletes key t)
