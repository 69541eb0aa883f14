-- ===== src/Core/Monotone.antt =====
-- The fuel of `GetResource` only bounds the depth that is explored.
use entropy.Base.{ℕ, zero, suc, ◌≤◌, String, some, [], ◌∷◌, ◌≡◌, arith}
use native.Mathlib.Decide.{dec_le}
use entropy.Base.Dict.{Dict}
use entropy.Io.{Result, Go}
use entropy.Io.Below.{Below, Below-refl, Below-attempt, Below-bind}
use entropy.Resource.{Resource}
use entropy.Module.{ResolvedDependency}
use entropy.Core.{Service, resolve_dependencies, generate_module_spec, get_resource}

module _ {W : Type 0} (get more : String → Go W Resource)
    (b : (u : String) → Below (get u) (more u)) (res : Resource) where
  resolve_dependencies-Below :
      (deps : Dict String) (acc : Dict ResolvedDependency)
      → Below (resolve_dependencies get res deps acc) (resolve_dependencies more res deps acc)
  unfolding resolve_dependencies
  resolve_dependencies-Below [] acc = Below-refl _
  resolve_dependencies-Below ((key, urn) ∷ deps) acc =
      Below-bind (Below-attempt (b urn))
        (λ found. Below-bind (Below-refl _) (λ dep. resolve_dependencies-Below deps _))

  pub generate_module_spec-Below :
      Below (generate_module_spec get res) (generate_module_spec more res)
  unfolding generate_module_spec
  generate_module_spec-Below =
      Below-bind (resolve_dependencies-Below res.spec.dependencies []) (λ deps. Below-refl _)

module _ {W : Type 0} (svc : Service W) where
  get_resource-suc :
      (fuel : ℕ) (urn : String)
      → Below (get_resource svc fuel urn) (get_resource svc (suc fuel) urn)
  unfolding get_resource
  get_resource-suc zero urn = record { at = λ w out e. cc }
  get_resource-suc (suc fuel) urn = record {
    at =
        (Below-bind (Below-refl _) (λ found. Below-bind (Below-refl _) (λ res.
          Below-bind
            (generate_module_spec-Below (get_resource svc fuel) (get_resource svc (suc fuel))
              (get_resource-suc fuel) res)
            (λ spec. Below-refl _)))).at;
  }

  -- If `GetResource` returns with some fuel, it returns the same with any greater fuel, and leaves the
  -- same world.
  pub get_resource_mono :
      (fuel more : ℕ) (urn : String) (w : W) (out : Result Resource × W)
      → fuel ≤ more
      → get_resource svc fuel urn w ≡ some out
      → get_resource svc more urn w ≡ some out
  get_resource_mono fuel zero urn w out h e = rw (← zero_of fuel h) e
    where
      zero_of : (n : ℕ) → n ≤ 0 → n ≡ 0
      zero_of n l = omega arith
  get_resource_mono fuel (suc more) urn w out h e = elim (dec_le fuel more) [
    | yes l ↦ (get_resource-suc more urn).at w out (get_resource_mono fuel more urn w out l e)
    | no l ↦ rw (last fuel more h l) at e
  ]
    where
      last : (n m : ℕ) → n ≤ suc m → ¬ (n ≤ m) → n ≡ suc m
      last n m a b = omega arith
