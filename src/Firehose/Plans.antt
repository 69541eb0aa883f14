-- ===== src/Firehose/Plans.antt =====
-- modules/firehose/driver_plan.go: `Plan`, at the time of its clock.
use entropy.Base.{
  ℕ, String, true, false, not, ◌&&◌, Option, none, some, [], ◌∷◌, ◌==◌, eqb, if◌then◌else◌,
}
use entropy.Base.Dict.{Dict, entries, lookup, insert, or_zero}
use entropy.Errors.{own, err_invalid, err_internal, with_msgf, with_causef, go_text}
use entropy.Io.{Result, ok, err}
use entropy.Kafka.{ResetParams, ResetV2Params, parse_reset_params, parse_reset_v2_params}
use entropy.Resource.{RawMessage, Resource, status_pending}
use entropy.Module.{ActionRequest, ExpandedResource, create_action, update_action}
use entropy.Firehose.{
  pos, keda_type, conf_sink_type, conf_key_consumer_id, key_kube_dependency, step_release_create,
  step_release_update, step_release_stop, step_kafka_reset, ChartValues, Keda, Autoscaler, Config,
  DriverConf, KubeOutput, TransientData, Libraries,
}
use entropy.Firehose.Charts.{merge_chart_values}
use entropy.Firehose.Configs.{then_result, read_config, driver_namespace}
use entropy.Firehose.Numbers.{get_new_consumer_group_id}
use entropy.Firehose.Release.{ReleaseConfig, get_helm_release}
use entropy.Firehose.Scaling.{pause, resume, update_triggers_metadata, on_spec}

abbrev pub scale_action : String
scale_action = "scale"

abbrev pub start_action : String
start_action = "start"

abbrev pub stop_action : String
stop_action = "stop"

abbrev pub reset_action : String
reset_action = "reset"

abbrev pub reset_v2_action : String
reset_v2_action = "reset-v2"

abbrev pub upgrade_action : String
upgrade_action = "upgrade"

abbrev pub auto_offset_reset : String
auto_offset_reset = "SOURCE_KAFKA_CONSUMER_CONFIG_AUTO_OFFSET_RESET"

-- the decoders of the parameters of a reset, with `strings.ToLower`
pub record ResetParsers : Type 0 where
  pub to_lower : String → String
  pub decode_reset : RawMessage → Result ResetParams
  pub decode_reset_v2 : RawMessage → Result ResetV2Params

abbrev pub bad_kube : {A : Type 0} → Result A → Result A
bad_kube (ok out) = ok out
bad_kube (err e) = err (own (with_causef (with_msgf err_internal "invalid kube state") (go_text e)))

-- the output of the cluster that the firehose depends on
unfoldable pub read_kube : Libraries → ExpandedResource → Result KubeOutput
read_kube lib exr = bad_kube (
    lib.decode_kube
      (or_zero (record { kind = ""; output = none })
        (lookup key_kube_dependency exr.dependencies)).output)

abbrev pub or_namespace : String → String → String
or_namespace given ns = if given == "" then ns else given

-- the configuration of an update, once the namespace is allowed
abbrev pub in_namespace : Config → Config → Result Config
in_namespace cur new =
    if not (cur.namespace == new.namespace) && not cur.stopped
    then err (own (with_causef err_invalid "cannot update kube namespace of a running firehose"))
    else ok new

-- the new configuration with what is not the user's
abbrev pub restored : DriverConf → Config → Config → Option ChartValues → KubeOutput → Config
restored dc cur new chart kube = record new {
  deployment_id = cur.deployment_id;
  chart_values = chart;
  telegraf = dc.telegraf;
  init_container = dc.init_container;
  namespace =
      or_namespace kube.configs.namespace
        (driver_namespace dc (or_zero "" (lookup conf_sink_type (entries new.env_variables))));
}

abbrev pub bad_scale : {A B : Type 0} → Result A → (A → Result B) → Result B
bad_scale (ok a) f = f a
bad_scale (err e) f =
    err (own (with_causef (with_msgf err_invalid "invalid params for scale action") (go_text e)))

abbrev pub bad_start : {A B : Type 0} → Result A → (A → Result B) → Result B
bad_start (ok a) f = f a
bad_start (err e) f =
    err (own (with_causef (with_msgf err_invalid "invalid params for start action") (go_text e)))

abbrev pub or_time : Option ℕ → Option ℕ → Option ℕ
or_time base none = base
or_time base (some t) = some t

-- the environment of a reset: where to start, and a new consumer group
unfoldable pub reset_env : String → Dict String → Result (Dict String)
reset_env reset_value env =
    let with_reset = insert auto_offset_reset reset_value env in
    then_result (get_new_consumer_group_id (or_zero "" (lookup conf_key_consumer_id with_reset)))
      (λ group. ok (insert conf_key_consumer_id group with_reset))

-- a call of a method of an autoscaler of KEDA
abbrev pub on_keda : (Keda → Keda) → Option Autoscaler → Option Autoscaler
on_keda f none = none
on_keda f (some a) = if a.kind == keda_type then some (record a { spec = f a.spec }) else some a

-- the configuration of a reset, for its environment
abbrev pub restarted : String → Dict String → Config → Config
restarted reset_value env cur = record cur {
  reset_offset = reset_value;
  env_variables = some env;
  autoscaler = on_keda (update_triggers_metadata env) cur.autoscaler;
}

-- the configuration of a creation, with the defaults of the driver
abbrev pub created_config : DriverConf → Config → Option ChartValues → KubeOutput → Config
created_config dc read chart kube = record read {
  telegraf = dc.telegraf;
  chart_values = chart;
  namespace = or_namespace kube.configs.namespace read.namespace;
}

module _ (lib : Libraries) (dc : DriverConf) (now : ℕ) where
  unfoldable pub updated_config : ExpandedResource → ActionRequest → Config → Result Config
  updated_config exr act cur = then_result (read_config lib dc exr.resource act.params) (λ new.
      then_result (merge_chart_values cur.chart_values new.chart_values) (λ chart.
        then_result (read_kube lib exr)
          (λ kube. in_namespace cur (restored dc cur new chart kube))))

  unfoldable pub scaled_config : ActionRequest → Config → Result Config
  scaled_config act cur = bad_scale (lib.decode_replicas act.params) (λ replicas.
      if eqb replicas 0
      then err (own (with_msgf err_invalid "replicas must be >= 1"))
      else ok (record cur { replicas = replicas }))

  unfoldable pub started_config : ActionRequest → Config → Result Config
  started_config act cur = bad_start (lib.decode_stop_time act.params) (λ stop_time.
      ok (record cur {
        stopped = false;
        stop_time = or_time cur.stop_time stop_time;
        autoscaler = on_spec resume cur.autoscaler;
      }))

  unfoldable pub stopped_config : Config → Config
  stopped_config cur = record cur {
    stopped = true;
    autoscaler = on_spec (pause (pos 0)) cur.autoscaler;
  }

  -- the switch of `planChange`: any other action leaves the configuration as it is read
  unfoldable pub changed_config : ExpandedResource → ActionRequest → Config → Result Config
  changed_config exr act cur =
      if act.name == update_action
      then updated_config exr act cur
      else if act.name == scale_action
      then scaled_config act cur
      else if act.name == start_action
      then started_config act cur
      else if act.name == stop_action
      then ok (stopped_config cur)
      else if act.name == upgrade_action
      then ok (record cur { chart_values = some dc.chart_values })
      else ok cur

  -- `validateHelmReleaseConfigs`
  unfoldable pub validate_helm_release_configs : ExpandedResource → Config → Result ReleaseConfig
  validate_helm_release_configs exr config =
      then_result (read_kube lib exr) (λ kube. get_helm_release lib dc exr.resource config kube)

  -- the resource of a plan: pending, and to be synced now
  unfoldable pub planned : Resource → Config → RawMessage → TransientData → Resource
  planned r conf output steps = record r {
    spec = record r.spec { configs = some (lib.encode_config conf) };
    state = record {
      status = status_pending;
      output = output;
      module_data = some (lib.encode_transient steps);
      next_sync_at = some now;
      sync_result = record { retries = 0; last_error = "" };
    };
  }

  -- `planChange`
  unfoldable pub plan_change : ExpandedResource → ActionRequest → Result Resource
  plan_change exr act =
      then_result (read_config lib dc exr.resource exr.resource.spec.configs) (λ cur.
        then_result (changed_config exr act cur) (λ conf.
          then_result (validate_helm_release_configs exr conf) (λ _. ok (
            planned exr.resource conf exr.resource.state.output
              (record { pending_steps = step_release_update ∷ []; reset_offset_to = "" })))))

  -- `planCreate`
  unfoldable pub plan_create : ExpandedResource → ActionRequest → Result Resource
  plan_create exr act = then_result (read_config lib dc exr.resource act.params) (λ read.
      then_result (merge_chart_values (some dc.chart_values) read.chart_values) (λ chart.
        then_result (read_kube lib exr) (λ kube.
          let conf = created_config dc read chart kube in
          then_result (validate_helm_release_configs exr conf) (λ _. ok (
            planned exr.resource conf
              (some (
                lib.encode_output (record {
                  pods = [];
                  namespace = conf.namespace;
                  release_name = conf.deployment_id;
                  deployment = none;
                  desired_status = "";
                  autoscaler_enabled = false;
                })))
              (record { pending_steps = step_release_create ∷ []; reset_offset_to = "" }))))))

  -- `planResetV2`
  unfoldable pub plan_reset_v2 : ResetParsers → ExpandedResource → ActionRequest → Result Resource
  plan_reset_v2 parsers exr act =
      then_result (parse_reset_v2_params parsers.to_lower parsers.decode_reset_v2 act.params)
        (λ reset_value.
          then_result (read_config lib dc exr.resource exr.resource.spec.configs) (λ cur. ok (
            planned exr.resource (record cur { reset_offset = reset_value })
              exr.resource.state.output
              (record {
                pending_steps = step_release_stop ∷ step_kafka_reset ∷ step_release_update ∷ [];
                reset_offset_to = reset_value;
              }))))

  -- `planReset`
  unfoldable pub plan_reset : ResetParsers → ExpandedResource → ActionRequest → Result Resource
  plan_reset parsers exr act =
      then_result (parse_reset_params parsers.to_lower parsers.decode_reset act.params)
        (λ reset_value.
          then_result (read_config lib dc exr.resource exr.resource.spec.configs) (λ cur.
            then_result (reset_env reset_value (entries cur.env_variables)) (λ env. ok (
              planned exr.resource (restarted reset_value env cur) exr.resource.state.output
                (record {
                  pending_steps = step_release_stop ∷ step_release_update ∷ [];
                  reset_offset_to = "";
                })))))

  -- `Plan`
  unfoldable pub plan : ResetParsers → ExpandedResource → ActionRequest → Result Resource
  plan parsers exr act =
      if act.name == create_action
      then plan_create exr act
      else if act.name == reset_action
      then plan_reset parsers exr act
      else if act.name == reset_v2_action
      then plan_reset_v2 parsers exr act
      else plan_change exr act
