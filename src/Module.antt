-- ===== src/Module.antt =====
-- core/module/module.go, core/module/action.go and core/module/driver.go: modules, the actions that
-- they describe, and the driver that stands behind one.
pub mod Checks
pub mod Service
pub mod Registry
use entropy.Base.{ℕ, String, Bool, Option, some, List, ◌==◌, if◌then◌else◌}
use entropy.Base.Dict.{Dict, GoMap}
use entropy.Base.Text.{◌<>◌, trim_space}
use entropy.Errors.{own, err_invalid, with_msgf, with_causef, go_text}
use entropy.Resource.{RawMessage, Resource, State}
use entropy.Io.{Result, ok, err, Call}

abbrev pub create_action : String
create_action = "create"

abbrev pub update_action : String
update_action = "update"

abbrev pub delete_action : String
delete_action = "delete"

pub record ActionRequest : Type 0 where
  pub name : String
  pub params : RawMessage
  pub labels : GoMap String
  pub user_id : String

pub record ResolvedDependency : Type 0 where
  pub kind : String
  pub output : RawMessage

pub record ExpandedResource : Type 0 where
  pub resource : Resource
  pub dependencies : Dict ResolvedDependency

pub record LogChunk : Type 0 where
  pub chunk : String
  pub labels : GoMap String

-- A compiled JSON schema: what its library answers to a document, the texts of the violations or an
-- error.
abbrev pub Schema : Type 0
Schema = RawMessage → Result (List String)

pub record ActionDesc : Type 0 where
  pub name : String
  pub description : String
  pub param_schema : String
  pub schema : Option Schema

-- The interface `Driver`; `log` is there where the driver is also `Loggable`.
pub record Driver (W : Type 0) : Type 0 where
  pub plan : ExpandedResource → ActionRequest → Call W Resource
  pub sync : ExpandedResource → Call W State
  pub get_output : ExpandedResource → Call W RawMessage
  pub log : Option (ExpandedResource → GoMap String → Call W (List LogChunk))

pub record Descriptor (W : Type 0) : Type 0 where
  pub kind : String
  pub actions : List ActionDesc
  pub dependencies : Dict String
  pub driver_factory : RawMessage → Result (Driver W)

pub record Module : Type 0 where
  pub urn : String
  pub name : String
  pub project : String
  pub configs : RawMessage
  pub created_at : ℕ
  pub updated_at : ℕ

-- `generateURN` of core/module/service.go
unfoldable pub generate_module_urn : String → String → String
generate_module_urn name project = "orn:entropy:module:" <> project <> ":" <> name

-- `sanitise`, at the time `t`
unfoldable pub sanitise : Bool → ℕ → Module → Result Module
sanitise is_create t mod' =
    if mod'.name == ""
    then err (own (with_msgf err_invalid "name must be set"))
    else if mod'.project == ""
    then err (own (with_msgf err_invalid "project must be set"))
    else if is_create
    then ok (record mod' {
      urn = trim_space (generate_module_urn mod'.name mod'.project);
      created_at = t;
      updated_at = t;
    })
    else ok (record mod' { urn = trim_space mod'.urn })

-- the schema of an action, compiled, or the error that it is not valid
abbrev pub with_schema : ActionDesc → Result Schema → Result ActionDesc
with_schema ad (ok s) = ok (record ad { schema = some s })
with_schema ad (err e) = err (
    own (
      with_causef
        (with_msgf err_invalid ("parameter schema for action '" <> ad.name <> "' is not valid"))
        (go_text e)))

-- `ActionDesc.Sanitise`, over the schema library's compiler
unfoldable pub sanitise_action : (String → Result Schema) → ActionDesc → Result ActionDesc
sanitise_action new_schema ad =
    if ad.param_schema == "" then ok ad else with_schema ad (new_schema ad.param_schema)
