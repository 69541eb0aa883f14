-- ===== src/Tests/Modules.antt =====
-- Planning an action over a registry with one driver.
use entropy.Base.{some, none, [], ◌∷◌, ◌≡◌, refl, Option}
use entropy.Base.Dict.{Dict, lookup, insert}
use entropy.Errors.{own, err_not_found}
use entropy.Io.{Result, ok, err}
use entropy.Io.Calls.{answer, try, ◌>>=◌}
use entropy.Resource.{Resource, generate_urn, status_completed}
use entropy.Module.{
  Module, ExpandedResource, ActionDesc, Schema, Driver, Descriptor, generate_module_urn,
}
use entropy.Module.Checks.{
  find_action, validate_req, validate_action_req, check_kind, validate_dependencies,
}
use entropy.Module.Checks.Accepted.{AcceptsParams}
use entropy.Module.Service.{ModuleService, discover_module, init_driver, plan_action, sync_state}
use entropy.Module.Service.Planned.{Served, plan_action-eq-ok, sync_state-eq-ok}
use entropy.Module.Registry.{Registry, get_driver, register}
use entropy.Module.Registry.Drivers.{Registration, register-Registration}
use entropy.Tests.Fixture.{firehose, cluster, scale_up, state_of}

-- the modules that are stored, by URN
abbrev Modules : Type 0
Modules = Dict Module

abbrev stored_module : Option Module → Result Module
stored_module none = err (own err_not_found)
stored_module (some m) = ok m

-- a schema that accepts every document but the empty one
abbrev some_document : Schema
some_document none = ok ("a document is needed" ∷ [])
some_document (some text) = ok []

abbrev driver : Driver Modules
driver = record {
  plan = λ res act w. (ok (record res.resource { updated_by = act.user_id }), w);
  sync = λ res w. (ok (state_of status_completed none), w);
  get_output = λ res w. (ok none, w);
  log = none;
}

abbrev scale_desc : ActionDesc
scale_desc = record { name = "scale"; description = ""; param_schema = "{}"; schema = none }

abbrev firehose_desc : Descriptor Modules
firehose_desc = record {
  kind = "firehose";
  actions = scale_desc ∷ [];
  dependencies = ("kube_cluster", "kubernetes") ∷ [];
  driver_factory = λ configs. ok driver;
}

abbrev registered_desc : Descriptor Modules
registered_desc = record firehose_desc {
  actions = record scale_desc { schema = some some_document } ∷ [];
}

register-Registration_example :
    Registration
      (λ text. ok some_document)
      []
      firehose_desc
      (register (λ text. ok some_document) [] firehose_desc)
register-Registration_example = register-Registration (λ text. ok some_document) [] firehose_desc

abbrev registry : Registry Modules
registry = ("firehose", registered_desc) ∷ []

abbrev service : ModuleService Modules
service = record {
  store = record {
    get_module = λ urn w. (stored_module (lookup urn w), w);
    list_modules = λ project w. (ok [], w);
    create_module = λ m w. (ok tt, insert m.urn m w);
    update_module = λ m w. (ok tt, insert m.urn m w);
    delete_module = λ urn w. (ok tt, w);
  };
  get_driver = λ m w. (get_driver registry m, w);
  time_now = λ w. 5;
}

abbrev firehose_module : Module
firehose_module = record {
  urn = "orn:entropy:module:shop:firehose";
  name = "firehose";
  project = "shop";
  configs = some "{}";
  created_at = 1;
  updated_at = 1;
}

abbrev modules : Modules
modules = ("orn:entropy:module:shop:firehose", firehose_module) ∷ []

abbrev expanded : ExpandedResource
expanded = record {
  resource = firehose;
  dependencies =
      ("kube_cluster", record { kind = "kubernetes"; output = cluster.state.output }) ∷ [];
}

abbrev planned : Resource
planned = record firehose { updated_by = "bob" }

plan_scale_up : plan_action service expanded scale_up modules ≡ (ok planned, modules)
unfolding plan_action discover_module init_driver generate_module_urn validate_dependencies
    check_kind validate_action_req validate_req find_action get_driver lookup answer try ◌>>=◌
    generate_urn
plan_scale_up = refl

plan_action-eq-ok_example :
    (s : Served service expanded modules) × ((ad : ActionDesc) × (find_action "scale" s.desc.actions
        ≡ some ad)
      × (ad.name ≡ "scale")
      × AcceptsParams ad scale_up.params)
    × (s.driver.plan expanded scale_up s.ready ≡ (ok planned, modules))
plan_action-eq-ok_example =
    plan_action-eq-ok service expanded scale_up modules modules planned plan_scale_up

synced : sync_state service expanded modules ≡ (ok (state_of status_completed none), modules)
unfolding sync_state discover_module init_driver generate_module_urn validate_dependencies
    check_kind get_driver lookup answer try ◌>>=◌ generate_urn
synced = refl

sync_state-eq-ok_example :
    (s : Served service expanded modules) × (s.driver.sync expanded s.ready
      ≡ (ok (state_of status_completed none), modules))
sync_state-eq-ok_example =
    sync_state-eq-ok service expanded modules modules (state_of status_completed none) synced
