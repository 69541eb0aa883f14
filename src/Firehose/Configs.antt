-- ===== src/Firehose/Configs.antt =====
-- modules/firehose/config.go: reading the configuration of a firehose over that of its driver.
use entropy.Base.{ℕ, String, Option, none, some, ◌==◌, ltb, eqb, if◌then◌else◌}
use entropy.Base.Dict.{Dict, entries, lookup, insert, or_zero}
use entropy.Base.Text.{◌<>◌}
use entropy.Errors.{own, foreign, err_invalid, with_msgf, with_causef, go_text}
use entropy.Io.{Result, ok, err}
use entropy.Helpers.{clone_and_merge_maps, safe_name, text_length}
use entropy.Resource.{RawMessage, Resource}
use entropy.Firehose.{
  conf_sink_type, conf_key_consumer_id, default_key, helm_release_name_max_length, UsageSpec,
  RequestsAndLimits, merge_usage, Autoscaler, Config, DriverConf, Libraries,
}
use entropy.Firehose.Scaling.{read_keda_config, validate_autoscaler}

abbrev pub then_result : {A B : Type 0} → Result A → (A → Result B) → Result B
then_result (ok a) f = f a
then_result (err e) f = err e

-- `errors.ErrInvalid.WithMsgf("invalid config json").WithCausef(...)`
abbrev pub or_bad_config : Result Config → Result Config
or_bad_config (ok cfg) = ok cfg
or_bad_config (err e) =
    err (own (with_causef (with_msgf err_invalid "invalid config json") (go_text e)))

abbrev pub or_panic : Option String → Result String
or_panic none = err (foreign "panic: slice bounds out of range")
or_panic (some name) = ok name

-- the name of the deployment: given, or made of those of the project and the resource
unfoldable pub deployment_name : (String → String) → Resource → String → Result String
deployment_name hex r given =
    if eqb (text_length given) 0
    then or_panic
        (safe_name hex (r.project <> "-" <> r.name) "-firehose" helm_release_name_max_length)
    else if ltb helm_release_name_max_length (text_length given)
    then err (own (with_msgf err_invalid "deployment_id must not have more than 53 chars"))
    else ok given

-- the environment with a consumer group that is named for the deployment, unless it has one
unfoldable pub with_consumer_id : String → Dict String → Dict String
with_consumer_id deployment_id env =
    if or_zero "" (lookup conf_key_consumer_id env) == ""
    then insert conf_key_consumer_id (deployment_id <> "-1") env
    else env

abbrev pub no_usage : UsageSpec
no_usage = record { cpu = ""; memory = "" }

abbrev pub over_limits : RequestsAndLimits → Option RequestsAndLimits → RequestsAndLimits
over_limits rl none = rl
over_limits rl (some override) = record {
  limits = merge_usage rl.limits override.limits;
  requests = merge_usage rl.requests override.requests;
}

-- the default of the driver, and over it what it has for the sink
unfoldable pub driver_limits : DriverConf → String → RequestsAndLimits
driver_limits dc sink_type =
    over_limits
      (or_zero (record { limits = no_usage; requests = no_usage })
        (lookup default_key dc.requests_and_limits))
      (lookup sink_type dc.requests_and_limits)

-- the namespace of the driver for a sink
unfoldable pub driver_namespace : DriverConf → String → String
driver_namespace dc sink_type =
    or_zero (or_zero "" (lookup default_key dc.namespace)) (lookup sink_type dc.namespace)

abbrev pub at_least_one : ℕ → ℕ
at_least_one n = if eqb n 0 then 1 else n

-- the configuration once its deployment has a name
unfoldable pub filled_config : DriverConf → String → Config → Config
filled_config dc deployment_id cfg =
    let env =
      with_consumer_id deployment_id (clone_and_merge_maps dc.env_variables cfg.env_variables) in
    let sink_type = or_zero "" (lookup conf_sink_type env) in
    let rl = driver_limits dc sink_type in
    record cfg {
      replicas = at_least_one cfg.replicas;
      namespace = if cfg.namespace == "" then driver_namespace dc sink_type else cfg.namespace;
      deployment_id = deployment_id;
      env_variables = some env;
      limits = merge_usage rl.limits cfg.limits;
      requests = merge_usage rl.requests cfg.requests;
      init_container = dc.init_container;
    }

abbrev pub validated : Config → Autoscaler → Result (Unit {0}) → Result Config
validated cfg a (ok _) = ok (record cfg { autoscaler = some a })
validated cfg a (err e) = err e

abbrev pub read_autoscaler : DriverConf → Config → Autoscaler → Result Config
read_autoscaler dc cfg a =
    let read = record a { spec = read_keda_config (entries cfg.env_variables) dc a.spec } in
    validated cfg read (validate_autoscaler read)

-- the end of `readConfig`
unfoldable pub with_autoscaler : DriverConf → Config → Option Autoscaler → Result Config
with_autoscaler dc cfg none = ok cfg
with_autoscaler dc cfg (some a) = if a.enabled then read_autoscaler dc cfg a else ok cfg

-- `readConfig`
unfoldable pub read_config : Libraries → DriverConf → Resource → RawMessage → Result Config
read_config lib dc r conf_json = then_result (or_bad_config (lib.decode_config conf_json)) (λ cfg.
    then_result (lib.validate_config conf_json) (λ _.
      then_result (deployment_name lib.sha256_hex r cfg.deployment_id) (λ deployment_id.
        let filled = filled_config dc deployment_id cfg in
        with_autoscaler dc filled filled.autoscaler)))
