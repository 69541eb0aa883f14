-- ===== src/Core/Dependencies.antt =====
-- `generateModuleSpec` of core/core.go: what a driver is told of the dependencies.
use entropy.Base.{
  String, false, none, some, [], ◌∷◌, ◌≡◌, refl, ◌∙◌, arith, ◌==◌, eq_iff, inl, inr, Bool-cases,
}
use entropy.Base.Dict.{
  Dict, lookup, insert, has_key, HasUniqueKeys, lookup-insert, lookup_of_not_has_key,
}
use mathlib.Core.Path.{subst}
use entropy.Io.{Result, ok, err, Go}
use entropy.Io.Invert.{bind-eq-ok, attempt-eq-ok, lift-eq-ok, pure-eq-ok}
use entropy.Resource.{Resource, status_completed}
use entropy.Module.{ResolvedDependency, ExpandedResource}
use entropy.Core.{check_dependency, resolve_dependencies, generate_module_spec}

module _ {W : Type 0} (get : String → Go W Resource) (res : Resource) where
  -- `dep` tells the kind and the output of a resource that was read at `urn`, completed and of the
  -- project of `res`.
  pub record IsResolved (urn : String) (dep : ResolvedDependency) : Type 0 where
    pub found : Resource
    pub before : W
    pub after : W
    pub read : get urn before ≡ some (ok found, after)
    pub completed : found.state.status ≡ status_completed
    pub same_project : found.project ≡ res.project
    pub kind : dep.kind ≡ found.kind
    pub output : dep.output ≡ found.state.output

  check-eq-ok :
      (urn : String) (r : Result Resource) (dep : ResolvedDependency)
      → check_dependency res urn r ≡ ok dep
      → (d : Resource) × (r ≡ ok d)
        × (d.state.status ≡ status_completed)
        × (d.project ≡ res.project)
        × (dep.kind ≡ d.kind)
        × (dep.output ≡ d.state.output)
  unfolding check_dependency
  check-eq-ok urn (err x) dep e = ground arith
  check-eq-ok urn (ok d) dep e = (
    d,
    refl,
    ground (arith, eq_iff d.state.status status_completed, eq_iff d.project res.project),
    ground (arith, eq_iff d.state.status status_completed, eq_iff d.project res.project),
    ground arith,
    ground arith,
  )

  -- the entries that are resolved still, and those that are
  abbrev Resolves : Dict String → Dict ResolvedDependency → Dict ResolvedDependency → Type 0
  Resolves deps acc out =
      (key : String)
      → (lookup key deps ≡ none → lookup key out ≡ lookup key acc)
        × ((urn : String)
            → lookup key deps ≡ some urn
            → (dep : ResolvedDependency) × (lookup key out ≡ some dep) × IsResolved urn dep)

  Resolves-cons :
      (k urn : String) (deps : Dict String) (acc out : Dict ResolvedDependency)
      (dep : ResolvedDependency)
      → has_key k deps ≡ false
      → IsResolved urn dep
      → Resolves deps (insert k dep acc) out
      → Resolves ((k, urn) ∷ deps) acc out
  unfolding lookup
  Resolves-cons k urn deps acc out dep fresh done rest key = elim (Bool-cases (k == key)) [
    | inl same ↦
        let at_key : k ≡ key = (eq_iff k key).0 same in
        let gone : lookup key deps ≡ none = rw (← at_key) (lookup_of_not_has_key k deps fresh) in
        let written : lookup key out ≡ some dep =
          (rest key).0 gone ∙ lookup-insert k key dep acc ∙ (rw same) in
        rw same (λ h. cc, λ u h. (dep, written, subst (λ x. IsResolved x dep) (cc) done))
    | inr other ↦
        rw other
          (λ h. (rest key).0 h ∙ lookup-insert k key dep acc ∙ (rw other), λ u h. (rest key).1 u h)
  ]

  resolve-eq-ok :
      (deps : Dict String) (acc out : Dict ResolvedDependency) (w w' : W)
      → HasUniqueKeys deps
      → resolve_dependencies get res deps acc w ≡ some (ok out, w')
      → Resolves deps acc out
  unfolding resolve_dependencies
  resolve-eq-ok [] acc out w w' u e =
      let (same, _) = pure-eq-ok acc w e in (λ key. unfold lookup in (λ h. rw same, λ urn h. cc))
  resolve-eq-ok ((k, urn) ∷ deps) acc out w w' (fresh, u) e =
      let (r, w1, e1, e2) = bind-eq-ok _ _ w e in
      let (dep, w2, e3, e4) = bind-eq-ok _ _ w1 e2 in
      let (checked, _) = lift-eq-ok _ w1 e3 in
      let (d, is_ok, c, p, kind, output) = check-eq-ok urn r dep checked in
      Resolves-cons k urn deps acc out dep fresh
        (record {
          found = d;
          before = w;
          after = w1;
          read = rw is_ok at (attempt-eq-ok (get urn) w e1);
          completed = c;
          same_project = p;
          kind = kind;
          output = output;
        })
        (resolve-eq-ok deps (insert k dep acc) out w2 w' u e4)

  -- If `generateModuleSpec` returns an expanded resource, and the resource's dependencies have each
  -- key once, then it is that of the resource, it has an entry for each of these dependencies and for
  -- no other key, and each entry tells the kind and the output of a resource that was read at the
  -- URN, is completed and is of the same project.
  pub generate_module_spec-eq-ok :
      (w w' : W) (spec : ExpandedResource)
      → HasUniqueKeys res.spec.dependencies
      → generate_module_spec get res w ≡ some (ok spec, w')
      → (spec.resource ≡ res)
        × ((key : String)
            → (lookup key res.spec.dependencies ≡ none → lookup key spec.dependencies ≡ none)
              × ((urn : String)
                  → lookup key res.spec.dependencies ≡ some urn
                  → (dep : ResolvedDependency) × (lookup key spec.dependencies ≡ some dep)
                    × IsResolved urn dep))
  unfolding generate_module_spec
  generate_module_spec-eq-ok w w' spec u e =
      let (out, w1, e1, e2) = bind-eq-ok _ _ w e in
      let (same, _) = pure-eq-ok _ w1 e2 in
      rw (← same) (refl, unfold lookup in resolve-eq-ok res.spec.dependencies [] out w w1 u e1)
