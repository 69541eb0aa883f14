-- ===== src/Module/Registry/Drivers.antt =====
-- Registering a driver and finding it again.
use mathlib.Core.Path.{subst}
use entropy.Base.{
  [], ◌∷◌, sym, arith, String, Bool, true, false, Option, none, some, List, ◌==◌, ◌≡◌, refl, ap,
  ◌∙◌, if◌then◌else◌,
}
use entropy.Base.Dict.{lookup, insert, lookup-insert}
use entropy.Errors.{own, err_conflict, is}
use entropy.Io.{Result, ok, err}
use entropy.Io.Invert.{ok-inj}
use entropy.Resource.{RawMessage}
use entropy.Module.{Module, Descriptor, ActionDesc, Schema, with_schema, sanitise_action}
use entropy.Module.Registry.{
  Registry, add_action, sanitise_actions, driver_of, driver_for, get_driver, registered,
  register_over, register,
}

-- What `Sanitise` makes of an action: one with a schema for its parameters gets it compiled.
abbrev pub IsSanitised : (String → Result Schema) → ActionDesc → ActionDesc → Type 0
IsSanitised new_schema ad done =
    ((ad.param_schema == "") ≡ true → done ≡ ad)
    × ((ad.param_schema == "") ≡ false
        → (s : Schema) × (new_schema ad.param_schema ≡ ok s)
          × (done ≡ record ad { schema = some s }))

-- the actions one by one, in order
abbrev pub AreSanitised : (String → Result Schema) → List ActionDesc → List ActionDesc → Type 0
AreSanitised new_schema [] [] = Unit
AreSanitised new_schema (ad ∷ ads) (done ∷ dones) =
    IsSanitised new_schema ad done × AreSanitised new_schema ads dones
AreSanitised new_schema _ _ = ⊥

with_schema-eq-ok :
    (ad : ActionDesc) (o : Result Schema) {done : ActionDesc}
    → with_schema ad o ≡ ok done
    → (s : Schema) × (o ≡ ok s) × (done ≡ record ad { schema = some s })
with_schema-eq-ok ad (ok s) e = (s, refl, sym (ok-inj e))
with_schema-eq-ok ad (err x) e = ground arith

sanitise_action-IsSanitised :
    (new_schema : String → Result Schema) (ad : ActionDesc) {done : ActionDesc}
    → sanitise_action new_schema ad ≡ ok done
    → IsSanitised new_schema ad done
unfolding sanitise_action
sanitise_action-IsSanitised new_schema ad {done} e = (
  λ none_given. ground arith,
  λ given.
      let compiled : with_schema ad (new_schema ad.param_schema) ≡ ok done = ground arith in
      with_schema-eq-ok ad (new_schema ad.param_schema) compiled,
)

add_action-eq-ok :
    (a : Result ActionDesc) (rest : Result (List ActionDesc)) {out : List ActionDesc}
    → add_action a rest ≡ ok out
    → (done : ActionDesc) × (dones : List ActionDesc) × (a ≡ ok done)
      × (rest ≡ ok dones)
      × ((done ∷ dones) ≡ out)
add_action-eq-ok (err x) rest e = ground arith
add_action-eq-ok (ok a) (err x) e = ground arith
add_action-eq-ok (ok a) (ok rest) e = (a, rest, refl, refl, ok-inj e)

sanitise_actions-AreSanitised :
    (new_schema : String → Result Schema) (ads dones : List ActionDesc)
    → sanitise_actions new_schema ads ≡ ok dones
    → AreSanitised new_schema ads dones
unfolding sanitise_actions
sanitise_actions-AreSanitised new_schema [] dones e =
    subst (AreSanitised new_schema []) (ok-inj e) tt
sanitise_actions-AreSanitised new_schema (ad ∷ ads) dones e =
    let (done, rest, first, others, same) =
      add_action-eq-ok (sanitise_action new_schema ad) (sanitise_actions new_schema ads) e in
    subst (AreSanitised new_schema (ad ∷ ads)) same (
      sanitise_action-IsSanitised new_schema ad first,
      sanitise_actions-AreSanitised new_schema ads rest others,
    )

-- What a registration leaves behind: on an error the registry as it was, which is a conflict where
-- the kind has a driver; otherwise the drivers of before, and that of the new kind.
abbrev pub Registration :
    {W : Type 0}
    → (String → Result Schema)
    → Registry W
    → Descriptor W
    → Result (Unit {0}) × Registry W
    → Type 0
Registration {W} new_schema mr desc (err e, mr') =
    (mr' ≡ mr)
    × ((old : Descriptor W) → lookup desc.kind mr ≡ some old → is e (own err_conflict) ≡ true)
Registration {W} new_schema mr desc (ok _, mr') =
    (lookup desc.kind mr ≡ none)
    × (actions : List ActionDesc) × AreSanitised new_schema desc.actions actions
    × ((m : Module)
        → get_driver mr' m ≡ (
            if desc.kind == m.name
            then driver_of (record desc { actions = actions }) (desc.driver_factory m.configs)
            else get_driver mr m))

driver_for-if :
    {W : Type 0} (b : Bool) (configs : RawMessage) (desc : Descriptor W) (o : Option (Descriptor W))
    → driver_for configs (if b then some desc else o)
      ≡ (if b then driver_of desc (desc.driver_factory configs) else driver_for configs o)
driver_for-if true configs desc o = refl
driver_for-if false configs desc o = refl

get_driver-insert :
    {W : Type 0} (mr : Registry W) (kind : String) (desc : Descriptor W) (m : Module)
    → get_driver (insert kind desc mr) m
      ≡ (if kind == m.name then driver_of desc (desc.driver_factory m.configs) else get_driver mr m)
unfolding get_driver
get_driver-insert mr kind desc m =
    ap (driver_for m.configs) (lookup-insert kind m.name desc mr)
    ∙ driver_for-if (kind == m.name) m.configs desc (lookup m.name mr)

module _ {W : Type 0} (new_schema : String → Result Schema) (mr : Registry W)
    (desc : Descriptor W) where
  registered-Registration :
      (r : Result (List ActionDesc))
      → sanitise_actions new_schema desc.actions ≡ r
      → lookup desc.kind mr ≡ none
      → Registration new_schema mr desc (registered mr desc r)
  registered-Registration (err e) made fresh = (refl, λ old there. cc)
  registered-Registration (ok actions) made fresh = (
    fresh,
    actions,
    sanitise_actions-AreSanitised new_schema desc.actions actions made,
    get_driver-insert mr desc.kind (record desc { actions = actions }),
  )

  register_over-Registration :
      (o : Option (Descriptor W))
      → lookup desc.kind mr ≡ o
      → Registration new_schema mr desc
          (register_over mr desc o (sanitise_actions new_schema desc.actions))
  register_over-Registration none fresh =
      registered-Registration (sanitise_actions new_schema desc.actions) refl fresh
  register_over-Registration (some old) there = (refl, λ old' there'. refl)

  -- `Register` leaves the registry as it was if it returns an error, which is a conflict where the
  -- kind is registered already. Otherwise the kind was free, the actions that are
  -- registered are those of the descriptor, in order, where each that has a schema for its parameters
  -- has it compiled; and the registry finds the new driver for the modules of that kind and what it
  -- found before for the others.
  pub register-Registration : Registration new_schema mr desc (register new_schema mr desc)
  unfolding register
  register-Registration = register_over-Registration (lookup desc.kind mr) refl
