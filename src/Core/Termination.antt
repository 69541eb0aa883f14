-- ===== src/Core/Termination.antt =====
-- `GetResource` and `generateModuleSpec` (core/read.go, core/core.go) call one another along the
-- dependencies: when they come to an end.
use entropy.Base.{
  ℕ, zero, suc, ◌<◌, String, Bool, some, [], ◌∷◌, ◌≡◌, refl, sym, ◌∙◌, ap, arith, inl, inr,
  Bool-cases, All, All-map,
}
use entropy.Base.Dict.{Dict}
use entropy.Io.{Result, ok, err, Go}
use entropy.Io.Total.{
  Total, Anything, Post, Total-pure, Total-call, Total-lift, Total-attempt, Total-bind,
}
use entropy.Resource.{RawMessage, Resource, bytes_equal}
use entropy.Module.{ResolvedDependency, ExpandedResource}
use entropy.Core.{
  Service, resolve_dependencies, generate_module_spec, not_found_for, refresh_output, get_resource,
}

-- What a store and a module service do to `deps`, the dependencies that are stored for each URN: a
-- resource is read with its URN and its dependencies, and only a write of other dependencies changes
-- them.
pub record KeepsDependencies {W : Type 0} (svc : Service W) (deps : W → String → Dict String)
    : Type 0 where
  pub read_keeps : (urn : String) (w : W) → deps (svc.store.get_by_urn urn w).1 ≡ deps w
  pub read_urn :
      (urn : String) (w : W) (r : Resource)
      → (svc.store.get_by_urn urn w).0 ≡ ok r
      → (r.urn ≡ urn) × (r.spec.dependencies ≡ deps w urn)
  pub update_keeps :
      (r : Resource) (rev : Bool) (reason : String) (w : W)
      → r.spec.dependencies ≡ deps w r.urn
      → deps (svc.store.update r rev reason w).1 ≡ deps w
  pub output_keeps :
      (spec : ExpandedResource) (w : W) → deps (svc.module_svc.get_output spec w).1 ≡ deps w

-- Each dependency has a smaller rank: there is no cycle.
abbrev pub IsRanked : (String → ℕ) → (String → Dict String) → Type 0
IsRanked rank d = (urn : String) → All (λ dep. rank dep.1 < rank urn) (d urn)

-- what `GetResource` needs to know of the resource that it read
abbrev IsStored : (String → Dict String) → String → Resource → Type 0
IsStored d urn r = (r.urn ≡ urn) × (r.spec.dependencies ≡ d urn)

not_found_for-IsStored :
    (d : String → Dict String) (urn : String) (found : Result Resource)
    → Post (IsStored d urn) found
    → (r : Resource) → not_found_for urn found ≡ ok r
    → IsStored d urn r
not_found_for-IsStored d urn (ok a) h r e = cc_of (ok_injective e) h
  where
    ok_injective : {a b : Resource} → ok a ≡ ok b → a ≡ b
    ok_injective p = cc

    cc_of : {a b : Resource} → a ≡ b → IsStored d urn a → IsStored d urn b
    cc_of p s = rw (← p) s
not_found_for-IsStored d urn (err x) h r e = ground arith

module _ {W : Type 0} (svc : Service W) (deps : W → String → Dict String)
    (laws : KeepsDependencies svc deps) (rank : String → ℕ) (d : String → Dict String)
    (ranked : IsRanked rank d) where
  abbrev At : W → Type 0
  At w = deps w ≡ d

  resolve-Total :
      (get : String → Go W Resource) (res : Resource) (list : Dict String)
      (acc : Dict ResolvedDependency)
      → All (λ dep. Total At Anything (get dep.1)) list
      → Total At Anything (resolve_dependencies get res list acc)
  unfolding resolve_dependencies
  resolve-Total get res [] acc _ = Total-pure acc tt
  resolve-Total get res ((key, urn) ∷ list) acc (t, ts) = Total-bind (Total-attempt t) (λ found _.
      Total-bind (Total-lift {Q = Anything} _ (λ a e. tt))
        (λ dep _. resolve-Total get res list _ ts))

  refresh-Total :
      (res : Resource) (output : RawMessage) (urn : String)
      → IsStored d urn res
      → Total At Anything (refresh_output svc res output)
  unfolding refresh_output
  refresh-Total res output urn (named, stored) =
      elim (Bool-cases (bytes_equal res.state.output output)) [
        | inl same ↦ rw same (Total-pure res tt)
        | inr changed ↦ rw changed (
            Total-bind
              (Total-call {Q = Anything} _
                (λ w at.
                  laws.update_keeps _ _ _ w
                    (stored ∙ ap d (sym named) ∙ ap (λ f. f res.urn) (sym at))
                  ∙ at)
                (λ w a p e. tt))
              (λ a _. Total-pure _ tt))
      ]

  spec-Total :
      (get : String → Go W Resource) (res : Resource)
      → All (λ dep. Total At Anything (get dep.1)) res.spec.dependencies
      → Total At Anything (generate_module_spec get res)
  unfolding generate_module_spec
  spec-Total get res h =
      Total-bind (resolve-Total get res res.spec.dependencies [] h) (λ found _. Total-pure _ tt)

  read-IsStored :
      (urn : String) (w : W) (r : Resource)
      → At w
      → (svc.store.get_by_urn urn w).0 ≡ ok r
      → IsStored d urn r
  read-IsStored urn w r at e =
      let (named, stored) = laws.read_urn urn w r e in (named, stored ∙ ap (λ f. f urn) at)

  -- the dependencies have smaller ranks, so one unit of fuel less is enough for them
  parts-Total :
      (fuel : ℕ) (urn : String)
      → ((u : String) → rank u < fuel → Total At Anything (get_resource svc fuel u))
      → rank urn < suc fuel
      → (res : Resource) → IsStored d urn res
      → All (λ dep. Total At Anything (get_resource svc fuel dep.1)) res.spec.dependencies
  parts-Total fuel urn ih h res s = rw s.1 (
      All-map (λ dep. rank dep.1 < rank urn) _ (λ dep l. ih dep.1 (omega arith)) (d urn)
        (ranked urn))

  get-Total :
      (fuel : ℕ) (urn : String) → rank urn < fuel → Total At Anything (get_resource svc fuel urn)
  unfolding get_resource
  get-Total zero urn h = absurd (omega arith)
  get-Total (suc fuel) urn h = record {
    at =
        (Total-bind
          (Total-attempt (
            Total-call (svc.store.get_by_urn urn) (λ w at. laws.read_keeps urn w ∙ at)
              (read-IsStored urn)))
          (λ found stored.
            Total-bind (Total-lift _ (not_found_for-IsStored d urn found stored)) (λ res s.
              Total-bind
                (spec-Total (get_resource svc fuel) res
                  (parts-Total fuel urn (get-Total fuel) h res s))
                (λ spec _.
                  Total-bind
                    (Total-call {Q = Anything} _ (λ w at. laws.output_keeps spec w ∙ at)
                      (λ w a p e. tt))
                    (λ output _. refresh-Total res output urn s))))).at;
  }

-- If the stored dependencies have no cycle and are kept by the calls of the store and the drivers that
-- reading makes, then `GetResource` returns, with a resource or an error, as soon as the fuel exceeds
-- the rank of the resource, and it leaves the stored dependencies as they were.
pub get_resource_total :
    {W : Type 0} (svc : Service W) (deps : W → String → Dict String)
    → KeepsDependencies svc deps
    → (rank : String → ℕ) (w : W) → IsRanked rank (deps w)
    → (fuel : ℕ) (urn : String) → rank urn < fuel
    → (r : Result Resource) × (w' : W) × (get_resource svc fuel urn w ≡ some (r, w'))
      × (deps w' ≡ deps w)
get_resource_total svc deps laws rank w ranked fuel urn h =
    let (r, w', e, kept, _) = (get-Total svc deps laws rank (deps w) ranked fuel urn h).at w refl in
    (r, w', e, kept)
