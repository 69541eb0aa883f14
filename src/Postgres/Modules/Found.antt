-- ===== src/Postgres/Modules/Found.antt =====
-- The module service over the store of modules: a module that was created is discovered.
use entropy.Base.{ℕ, ◌≢◌, String, true, some, [], ◌≡◌, refl, ap, sym, ◌∙◌, arith, eq_iff, eq_refl}
use mathlib.Core.Path.{subst}
use entropy.Base.Text.{trim_space}
use entropy.Io.Invert.{ok-inj}
use entropy.Io.{Result, ok, err, Call}
use entropy.Io.Calls.{answer, try, ◌>>=◌, bind-eq-ok, answer-eq-ok, try-eq-ok}
use entropy.Module.{Module, Driver, Descriptor, generate_module_urn, sanitise}
use entropy.Module.Service
use entropy.Module.Service.{ModuleService, created, driver_found, known_kind, discover_module}
use entropy.Postgres.{Tables, statement}
use entropy.Postgres.Modules.{
  module_row, find_module, module_store, create_module, read_module_record, get_module,
}
use entropy.Postgres.Modules.Rows.{Changes, Creates, create_module-Creates}

-- what `sanitise` makes of a module that is valid for creation
sanitised :
    (t : ℕ) (m valid : Module)
    → sanitise true t m ≡ ok valid
    → (valid.name ≡ m.name)
      × (valid.project ≡ m.project)
      × (valid.configs ≡ m.configs)
      × (valid.urn ≡ trim_space (generate_module_urn m.name m.project))
      × (m.name ≢ "")
      × (m.project ≢ "")
unfolding sanitise
sanitised t m valid e = ground (arith, eq_iff m.name "", eq_iff m.project "")

created-eq-ok :
    (m : Module) (r : Result (Unit {0})) (v : Module) → created m r ≡ ok v → (r ≡ ok tt) × (m ≡ v)
created-eq-ok m (ok tt) v e = (refl, ok-inj e)
created-eq-ok m (err x) v e = ground arith

read_found :
    (urn : String) (t : Tables) (m : Module)
    → t.faults ≡ []
    → find_module urn t.modules ≡ some m
    → get_module urn t ≡ (ok m, t)
unfolding get_module read_module_record statement try answer ◌>>=◌
read_found urn t m calm found = rw (calm, found) refl

module _ (get_driver : Module → Call Tables (Driver Tables × Descriptor Tables))
    (time_now : Tables → ℕ) where
  -- the module service over the store of modules
  abbrev pub over_tables : ModuleService Tables
  over_tables = record { store = module_store; get_driver = get_driver; time_now = time_now }

  created_rows :
      (valid : Module) (u t : Tables)
      → create_module valid u ≡ (ok tt, t)
      → find_module valid.urn t.modules ≡ some (module_row valid)
  created_rows valid u t e =
      let (_, rows) = subst (Changes (Creates valid) u) e (create_module-Creates valid u) in
      rows valid.urn ∙ (rw (eq_refl valid.urn) refl)

  create-eq-ok :
      (m valid : Module) (t t' : Tables)
      → Service.create_module over_tables m t ≡ (ok valid, t')
      → (find_module valid.urn t'.modules ≡ some (module_row valid))
        × (sanitise true (time_now t) m ≡ ok valid)
  unfolding Service.create_module
  create-eq-ok m valid t t' e =
      let (v, u1, e1, r1) = bind-eq-ok _ _ t e in
      let (_, u2, e2, r2) = bind-eq-ok _ _ u1 r1 in
      let (_, u3, e3, r3) = bind-eq-ok _ _ u2 r2 in
      let (stored, u4, e4, r4) = bind-eq-ok _ _ u3 r3 in
      let (clean, _) = answer-eq-ok _ t e1 in
      let (made, ended) = answer-eq-ok _ u4 r4 in
      let (accepted, same) = created-eq-ok v stored valid made in
      rw (sym same, sym ended)
        (created_rows v u3 u4 (try-eq-ok _ u3 e4 ∙ ap (λ r. (r, u4)) accepted), clean)

  -- If `CreateModule` of the service returns a module and the URN of its name and project needs no
  -- trimming, then as long as the database answers, the kind of that name is discovered in the
  -- project, as this module, with an empty configuration where its one was nil.
  pub discover-create_module :
      (m valid : Module) (t t' : Tables)
      → Service.create_module over_tables m t ≡ (ok valid, t')
      → trim_space (generate_module_urn m.name m.project) ≡ generate_module_urn m.name m.project
      → t'.faults ≡ []
      → discover_module over_tables m.name m.project t' ≡ (ok (module_row valid), t')
  unfolding discover_module try answer ◌>>=◌
  discover-create_module m valid t t' e trimmed calm =
      let (found, clean) = create-eq-ok m valid t t' e in
      let (_, _, _, urn, _, _) = sanitised (time_now t) m valid clean in
      rw
        (read_found (generate_module_urn m.name m.project) t' (module_row valid) calm
          (ap (λ u. find_module u t'.modules) (sym (urn ∙ trimmed)) ∙ found))
        refl
