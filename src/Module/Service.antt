-- ===== src/Module/Service.antt =====
-- core/module/service.go: the module service, over its store and its registry of drivers. No call
-- of it loops, so a call is from a world to a result and a world.
pub mod Planned
use entropy.Base.{ℕ, String, Bool, true, false, Option, none, some, List, if◌then◌else◌}
use entropy.Base.Dict.{GoMap}
use entropy.Base.Text.{◌<>◌}
use entropy.Errors.{
  own, err_invalid, err_not_found, err_conflict, err_unsupported, with_msgf, with_causef, is,
  go_text,
}
use entropy.Io.{Result, ok, err, Call}
use entropy.Io.Calls.{answer, try, ◌>>=◌, ◌>>◌}
use entropy.Resource.{RawMessage, Resource, State}
use entropy.Module.{
  Module, ExpandedResource, ActionRequest, LogChunk, Driver, Descriptor, generate_module_urn,
  sanitise,
}
use entropy.Module.Checks.{validate_dependencies, validate_action_req}

-- the interface `Store`
pub record ModuleStore (W : Type 0) : Type 0 where
  pub get_module : String → Call W Module
  pub list_modules : String → Call W (List Module)
  pub create_module : Module → Call W (Unit {0})
  pub update_module : Module → Call W (Unit {0})
  pub delete_module : String → Call W (Unit {0})

-- The service: its store, the interface `Registry`, and the time that `sanitise` reads.
pub record ModuleService (W : Type 0) : Type 0 where
  pub store : ModuleStore W
  pub get_driver : Module → Call W (Driver W × Descriptor W)
  pub time_now : W → ℕ

-- the error handling of `discoverModule`
abbrev pub known_kind : String → String → Result Module → Result Module
known_kind kind project (ok m) = ok m
known_kind kind project (err e) =
    if is e (own err_not_found)
    then err (
        own (
          with_causef
            (with_msgf err_invalid
              ("kind '" <> kind <> "' is not valid in project '" <> project <> "'"))
            ("failed to find module with urn '" <> generate_module_urn kind project <> "'")))
    else err e

-- the error handling of `initDriver`, and of the same call in `CreateModule`
abbrev pub driver_found : {A : Type 0} → Module → Result A → Result A
driver_found mod' (ok a) = ok a
driver_found mod' (err e) =
    if is e (own err_not_found)
    then err (own (with_msgf err_invalid ("driver not found for kind '" <> mod'.name <> "'")))
    else if is e (own err_invalid)
    then err (
        own (
          with_causef (with_msgf err_invalid "failed to init driver with given configs")
            (go_text e)))
    else err e

-- the error handling of `CreateModule`, after its store
abbrev pub created : Module → Result (Unit {0}) → Result Module
created mod' (ok _) = ok mod'
created mod' (err e) =
    if is e (own err_conflict)
    then err (
        own (
          with_causef (with_msgf err_conflict "module with given name and project already exists")
            (go_text e)))
    else err e

module _ {W : Type 0} (svc : ModuleService W) where
  unfoldable pub discover_module : String → String → Call W Module
  discover_module kind project = do
    m ← try (svc.store.get_module (generate_module_urn kind project))
    answer (known_kind kind project m)

  unfoldable pub init_driver : Module → Call W (Driver W × Descriptor W)
  init_driver mod' = do found ← try (svc.get_driver mod'); answer (driver_found mod' found)

  unfoldable pub plan_action : ExpandedResource → ActionRequest → Call W Resource
  plan_action res act = do
    mod' ← discover_module res.resource.kind res.resource.project
    (driver, desc) ← init_driver mod'
    answer (validate_dependencies desc.kind desc.dependencies res.dependencies)
    answer (validate_action_req desc res act)
    driver.plan res act

  unfoldable pub sync_state : ExpandedResource → Call W State
  sync_state res = do
    mod' ← discover_module res.resource.kind res.resource.project
    (driver, desc) ← init_driver mod'
    answer (validate_dependencies desc.kind desc.dependencies res.dependencies)
    driver.sync res

  unfoldable pub stream_logs : ExpandedResource → GoMap String → Call W (List LogChunk)
  stream_logs res filter = do
    mod' ← discover_module res.resource.kind res.resource.project
    (driver, _) ← init_driver mod'
    elim driver.log [
      | none ↦ answer (
          err (
            own (
              with_msgf err_unsupported
                ("log streaming not supported for kind '" <> res.resource.kind <> "'"))))
      | some log ↦ log res filter
    ]

  unfoldable pub get_output : ExpandedResource → Call W RawMessage
  get_output res = do
    mod' ← discover_module res.resource.kind res.resource.project
    (driver, _) ← init_driver mod'
    driver.get_output res

  unfoldable pub get_module : String → Call W Module
  get_module urn = svc.store.get_module urn

  unfoldable pub list_modules : String → Call W (List Module)
  list_modules project = svc.store.list_modules project

  -- The clock only stamps the module, and its reading is left out of the world.
  unfoldable pub create_module : Module → Call W Module
  create_module m w =
      (do
        valid ← answer (sanitise true (svc.time_now w) m)
        found ← try (svc.get_driver valid)
        answer (driver_found valid found)
        stored ← try (svc.store.create_module valid)
        answer (created valid stored))
        w

  unfoldable pub update_module : String → RawMessage → Call W Module
  update_module urn new_configs w =
      (do
        m ← svc.store.get_module urn
        valid ← answer (sanitise false (svc.time_now w) (record m { configs = new_configs }))
        svc.store.update_module valid
        answer (ok valid))
        w

  unfoldable pub delete_module : String → Call W (Unit {0})
  delete_module urn = svc.store.delete_module urn
