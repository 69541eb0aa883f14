-- ===== src/Module/Service/Planned.antt =====
-- What stands behind a plan and a state that the module service returns.
use entropy.Base.{String, some, ◌≡◌, sym, arith, All}
use entropy.Io.{Result, ok, err}
use entropy.Io.Calls.{bind-eq-ok, answer-eq-ok, try-eq-ok}
use entropy.Resource.{Resource, State}
use entropy.Module.{
  Module, ExpandedResource, ActionRequest, ActionDesc, Driver, Descriptor, generate_module_urn,
}
use entropy.Module.Checks.{find_action, validate_dependencies}
use entropy.Module.Checks.Accepted.{
  HasKind, AcceptsParams, validate_dependencies-eq-ok, validate_action_req-eq-ok,
}
use entropy.Module.Service.{
  ModuleService, known_kind, driver_found, discover_module, init_driver, plan_action, sync_state,
}

known_kind-eq-ok :
    (kind project : String) (r : Result Module) (m : Module)
    → known_kind kind project r ≡ ok m
    → r ≡ ok m
known_kind-eq-ok kind project (ok n) m e = e
known_kind-eq-ok kind project (err x) m e = ground arith

driver_found-eq-ok :
    {A : Type 0} (m : Module) (r : Result A) (a : A) → driver_found m r ≡ ok a → r ≡ ok a
driver_found-eq-ok m (ok b) a e = e
driver_found-eq-ok m (err x) a e = ground arith

module _ {W : Type 0} (svc : ModuleService W) where
  discover_module-eq-ok :
      (kind project : String) (w w' : W) (m : Module)
      → discover_module svc kind project w ≡ (ok m, w')
      → svc.store.get_module (generate_module_urn kind project) w ≡ (ok m, w')
  unfolding discover_module
  discover_module-eq-ok kind project w w' m e =
      let (r, u, tried, e1) = bind-eq-ok _ _ w e in
      let (known, same) = answer-eq-ok _ u e1 in
      rw (known_kind-eq-ok kind project r m known, same) at (try-eq-ok _ w tried)

  init_driver-eq-ok :
      (m : Module) (w w' : W) (d : Driver W × Descriptor W)
      → init_driver svc m w ≡ (ok d, w')
      → svc.get_driver m w ≡ (ok d, w')
  unfolding init_driver
  init_driver-eq-ok m w w' d e =
      let (r, u, tried, e1) = bind-eq-ok _ _ w e in
      let (known, same) = answer-eq-ok _ u e1 in
      rw (driver_found-eq-ok m r d known, same) at (try-eq-ok _ w tried)

  -- the module of the resource, its driver, and dependencies of the kinds that it wants
  pub record Served (res : ExpandedResource) (w : W) : Type 0 where
    pub mod' : Module
    pub seen : W
    pub ready : W
    pub driver : Driver W
    pub desc : Descriptor W
    pub discovered :
        svc.store.get_module (generate_module_urn res.resource.kind res.resource.project) w
        ≡ (ok mod', seen)
    pub found : svc.get_driver mod' seen ≡ (ok (driver, desc), ready)
    pub dependencies : All (HasKind res.dependencies) desc.dependencies

  -- what was found on the way to the driver
  abbrev served :
      (res : ExpandedResource) (w w1 w2 : W) (m : Module) (driver : Driver W) (desc : Descriptor W)
      → discover_module svc res.resource.kind res.resource.project w ≡ (ok m, w1)
      → init_driver svc m w1 ≡ (ok (driver, desc), w2)
      → validate_dependencies desc.kind desc.dependencies res.dependencies ≡ ok tt
      → Served res w
  served res w w1 w2 m driver desc e1 e2 kinds = record {
    mod' = m;
    seen = w1;
    ready = w2;
    driver = driver;
    desc = desc;
    discovered = discover_module-eq-ok _ _ w w1 m e1;
    found = init_driver-eq-ok m w1 w2 (driver, desc) e2;
    dependencies = validate_dependencies-eq-ok _ _ _ kinds;
  }

  -- If the module service returns a plan, then the module of the kind and the project of the
  -- resource is in the store and has a driver, each dependency that the module wants is there and
  -- has the wanted kind, the module describes the action and its schema accepts the parameters, and
  -- the plan is the one that this driver made.
  pub plan_action-eq-ok :
      (res : ExpandedResource) (act : ActionRequest) (w w' : W) (r : Resource)
      → plan_action svc res act w ≡ (ok r, w')
      → (s : Served res w) × ((ad : ActionDesc) × (find_action act.name s.desc.actions ≡ some ad)
          × (ad.name ≡ act.name)
          × AcceptsParams ad act.params)
        × (s.driver.plan res act s.ready ≡ (ok r, w'))
  unfolding plan_action
  plan_action-eq-ok res act w w' r e =
      let (m, w1, e1, r1) = bind-eq-ok _ _ w e in
      let ((driver, desc), w2, e2, r2) = bind-eq-ok _ _ w1 r1 in
      let (_, w3, e3, r3) = bind-eq-ok _ _ w2 r2 in
      let (_, w4, e4, r4) = bind-eq-ok _ _ w3 r3 in
      let (kinds, same3) = answer-eq-ok _ w2 e3 in
      let (valid, same4) = answer-eq-ok _ w3 e4 in
      (
        served res w w1 w2 m driver desc e1 e2 kinds,
        validate_action_req-eq-ok desc res act valid,
        rw (sym same4, sym same3) at r4,
      )

  -- If the module service returns a state, then the module of the kind and the project of the resource
  -- is in the store and has a driver, each dependency that the module wants is there and has the
  -- wanted kind, and the state is the answer of one sync by this driver.
  pub sync_state-eq-ok :
      (res : ExpandedResource) (w w' : W) (state : State)
      → sync_state svc res w ≡ (ok state, w')
      → (s : Served res w) × (s.driver.sync res s.ready ≡ (ok state, w'))
  unfolding sync_state
  sync_state-eq-ok res w w' state e =
      let (m, w1, e1, r1) = bind-eq-ok _ _ w e in
      let ((driver, desc), w2, e2, r2) = bind-eq-ok _ _ w1 r1 in
      let (_, w3, e3, r3) = bind-eq-ok _ _ w2 r2 in
      let (kinds, same3) = answer-eq-ok _ w2 e3 in
      (served res w w1 w2 m driver desc e1 e2 kinds, rw (sym same3) at r3)
