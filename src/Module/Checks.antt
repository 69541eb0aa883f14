-- ===== src/Module/Checks.antt =====
-- The checks of core/module/module.go and core/module/action.go on a request, before its driver
-- plans it.
pub mod Accepted
use entropy.Base.{
  String, Bool, true, false, not, Option, none, some, List, [], ◌∷◌, ◌==◌, if◌then◌else◌, is_empty,
}
use entropy.Base.Dict.{Dict, lookup}
use entropy.Base.Text.{◌<>◌, join}
use entropy.Errors.{own, err_invalid, err_internal, with_msgf, with_causef, go_text}
use entropy.Io.{Result, ok, err}
use entropy.Resource.{RawMessage}
use entropy.Module.{
  ActionRequest, ResolvedDependency, ExpandedResource, Schema, ActionDesc, Descriptor,
}

-- the answer of the schema library to the parameters of a request
abbrev pub schema_answer : Result (List String) → Result (Unit {0})
schema_answer (err e) = err (own (with_causef err_internal (go_text e)))
schema_answer (ok []) = ok tt
schema_answer (ok (v ∷ vs)) = err (own (with_msgf err_invalid (join "\n" (v ∷ vs))))

-- `validateReq`
unfoldable pub validate_req : ActionDesc → ActionRequest → Result (Unit {0})
validate_req ad req = elim ad.schema [
  | none ↦ ok tt
  | some schema ↦ schema_answer (schema req.params)
]

-- `findAction`
unfoldable pub find_action : String → List ActionDesc → Option ActionDesc
find_action name [] = none
find_action name (action ∷ actions) =
    if action.name == name then some action else find_action name actions

module _ {W : Type 0} where
  -- `validateActionReq`
  unfoldable pub validate_action_req :
      Descriptor W → ExpandedResource → ActionRequest → Result (Unit {0})
  validate_action_req desc res req = elim (find_action req.name desc.actions) [
    | none ↦ err (
        own (
          with_msgf err_invalid
            ("action '" <> req.name <> "' is not valid on kind '" <> res.resource.kind <> "'")))
    | some act_desc ↦ validate_req act_desc req
  ]

-- one round of the loop of `validateDependencies`
unfoldable pub check_kind : String → String → String → Option ResolvedDependency → Result (Unit {0})
check_kind kind key want none = err (
    own (
      with_msgf err_invalid
        ("kind '" <> kind <> "' needs resource of kind '" <> want <> "' at key '" <> key <> "'")))
check_kind kind key want (some dep) =
    if want == dep.kind
    then ok tt
    else err (
        own (
          with_msgf err_invalid (
            "value for '" <> key <> "' must be of kind '" <> want <> "', not '" <> dep.kind
            <> "'")))

abbrev pub both : Result (Unit {0}) → Result (Unit {0}) → Result (Unit {0})
both (ok _) rest = rest
both (err e) rest = err e

-- `validateDependencies`
unfoldable pub validate_dependencies :
    String → Dict String → Dict ResolvedDependency → Result (Unit {0})
validate_dependencies kind [] dependencies = ok tt
validate_dependencies kind ((key, want) ∷ wanted) dependencies =
    both (check_kind kind key want (lookup key dependencies))
      (validate_dependencies kind wanted dependencies)
