-- ===== src/Module/Registry.antt =====
-- modules/registry.go: the drivers that are registered, by kind.
pub mod Drivers
use entropy.Base.{String, Bool, true, false, Option, none, some, List, [], ◌∷◌, if◌then◌else◌}
use entropy.Base.Dict.{Dict, lookup, insert}
use entropy.Base.Text.{◌<>◌}
use entropy.Errors.{own, err_invalid, err_not_found, err_conflict, with_msgf, with_causef, go_text}
use entropy.Io.{Result, ok, err}
use entropy.Resource.{RawMessage}
use entropy.Module.{Module, Driver, Descriptor, ActionDesc, Schema, sanitise_action}

-- `Registry`: a nil map is the empty one
abbrev pub Registry : Type 0 → Type 0
Registry W = Dict (Descriptor W)

abbrev pub driver_of :
    {W : Type 0} → Descriptor W → Result (Driver W) → Result (Driver W × Descriptor W)
driver_of desc (ok driver) = ok (driver, desc)
driver_of desc (err e) =
    err (own (with_causef (with_msgf err_invalid "failed to initialise module") (go_text e)))

abbrev pub add_action : Result ActionDesc → Result (List ActionDesc) → Result (List ActionDesc)
add_action (err e) rest = err e
add_action (ok a) (err e) = err e
add_action (ok a) (ok rest) = ok (a ∷ rest)

-- the loop over the actions in `Register`
unfoldable pub sanitise_actions :
    (String → Result Schema) → List ActionDesc → Result (List ActionDesc)
sanitise_actions new_schema [] = ok []
sanitise_actions new_schema (action ∷ actions) =
    add_action (sanitise_action new_schema action) (sanitise_actions new_schema actions)

module _ {W : Type 0} where
  abbrev pub driver_for : RawMessage → Option (Descriptor W) → Result (Driver W × Descriptor W)
  driver_for configs none = err (own err_not_found)
  driver_for configs (some desc) = driver_of desc (desc.driver_factory configs)

  unfoldable pub get_driver : Registry W → Module → Result (Driver W × Descriptor W)
  get_driver mr mod' = driver_for mod'.configs (lookup mod'.name mr)

  abbrev pub registered :
      Registry W → Descriptor W → Result (List ActionDesc) → Result (Unit {0}) × Registry W
  registered mr desc (err e) = (err e, mr)
  registered mr desc (ok actions) = (ok tt, insert desc.kind (record desc { actions = actions }) mr)

  -- The text of a conflict names the type of a descriptor.
  abbrev pub register_over :
      Registry W
      → Descriptor W
      → Option (Descriptor W)
      → Result (List ActionDesc)
      → Result (Unit {0}) × Registry W
  register_over mr desc (some old) actions = (
    err (
        own (
          with_msgf err_conflict
            ("module 'module.Descriptor' is already registered for kind '" <> desc.kind <> "'"))),
    mr,
  )
  register_over mr desc none actions = registered mr desc actions

  unfoldable pub register :
      (String → Result Schema) → Registry W → Descriptor W → Result (Unit {0}) × Registry W
  register new_schema mr desc =
      register_over mr desc (lookup desc.kind mr) (sanitise_actions new_schema desc.actions)
