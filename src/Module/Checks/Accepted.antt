-- ===== src/Module/Checks/Accepted.antt =====
-- The checks of core/module/module.go and core/module/action.go against what they ask for.
use entropy.Base.{
  String, Option, none, some, List, [], ◌∷◌, ◌≡◌, refl, arith, eq_iff, All, inl, inr, Option-cases,
}
use entropy.Base.Dict.{Dict, lookup}
use entropy.Io.{Result, ok, err}
use entropy.Resource.{RawMessage}
use entropy.Module.{
  ActionRequest, ResolvedDependency, ExpandedResource, Schema, ActionDesc, Descriptor,
}
use entropy.Module.Checks.{
  find_action, schema_answer, validate_req, validate_action_req, check_kind, both,
  validate_dependencies,
}

-- the dependencies hold one of the wanted kind at the key
abbrev pub HasKind : Dict ResolvedDependency → String × String → Type 0
HasKind deps (key, want) = (d : ResolvedDependency) × (lookup key deps ≡ some d) × (d.kind ≡ want)

-- the schema of the action, if it has one, finds nothing wrong with the parameters
abbrev pub AcceptsParams : ActionDesc → RawMessage → Type 0
AcceptsParams ad params = (s : Schema) → ad.schema ≡ some s → s params ≡ ok []

check_kind-HasKind :
    (kind key want : String) (deps : Dict ResolvedDependency) (o : Option ResolvedDependency)
    → lookup key deps ≡ o
    → check_kind kind key want o ≡ ok tt
    → HasKind deps (key, want)
unfolding check_kind
check_kind-HasKind kind key want deps none found e = ground arith
check_kind-HasKind kind key want deps (some d) found e =
    (d, found, ground (arith, eq_iff want d.kind))

both-eq-ok : (a b : Result (Unit {0})) → both a b ≡ ok tt → (a ≡ ok tt) × (b ≡ ok tt)
both-eq-ok (ok tt) b e = (refl, e)
both-eq-ok (err x) b e = ground arith

-- Checked dependencies are there for each key that the module wants, with the kind that it wants.
pub validate_dependencies-eq-ok :
    (kind : String) (wanted : Dict String) (deps : Dict ResolvedDependency)
    → validate_dependencies kind wanted deps ≡ ok tt
    → All (HasKind deps) wanted
unfolding validate_dependencies
validate_dependencies-eq-ok kind [] deps e = tt
validate_dependencies-eq-ok kind ((key, want) ∷ wanted) deps e =
    let (first, rest) = both-eq-ok _ _ e in
    (
      check_kind-HasKind kind key want deps (lookup key deps) refl first,
      validate_dependencies-eq-ok kind wanted deps rest,
    )

answer-accepts : (r : Result (List String)) → schema_answer r ≡ ok tt → r ≡ ok []
answer-accepts (err x) e = ground arith
answer-accepts (ok []) e = refl
answer-accepts (ok (v ∷ vs)) e = ground arith

validate_req-accepts :
    (ad : ActionDesc) (req : ActionRequest)
    → validate_req ad req ≡ ok tt
    → AcceptsParams ad req.params
unfolding validate_req
validate_req-accepts ad req e s h = answer-accepts (s req.params) (rw h at e)

find_action-name :
    (name : String) (actions : List ActionDesc) (ad : ActionDesc)
    → find_action name actions ≡ some ad
    → ad.name ≡ name
unfolding find_action
find_action-name name [] ad e = cc
find_action-name name (a ∷ actions) ad e =
    ground (arith, eq_iff a.name name, find_action-name name actions ad)

module _ {W : Type 0} where
  validated :
      (desc : Descriptor W) (res : ExpandedResource) (req : ActionRequest)
      → validate_action_req desc res req ≡ ok tt
      → (ad : ActionDesc) × (find_action req.name desc.actions ≡ some ad)
        × (validate_req ad req ≡ ok tt)
  unfolding validate_action_req
  validated desc res req e = elim (Option-cases (find_action req.name desc.actions)) [
    | inl missing ↦ ground arith
    | inr (ad, found) ↦ (ad, found, ground arith)
  ]

  -- A checked request is for an action that the module describes, with parameters that its schema
  -- accepts.
  pub validate_action_req-eq-ok :
      (desc : Descriptor W) (res : ExpandedResource) (req : ActionRequest)
      → validate_action_req desc res req ≡ ok tt
      → (ad : ActionDesc) × (find_action req.name desc.actions ≡ some ad)
        × (ad.name ≡ req.name)
        × AcceptsParams ad req.params
  validate_action_req-eq-ok desc res req e =
      let (ad, found, valid) = validated desc res req e in
      (
        ad,
        found,
        find_action-name req.name desc.actions ad found,
        validate_req-accepts ad req valid,
      )
