-- ===== src/Tests/Firehoses.antt =====
-- The firehose module: a configuration that is read, a stop that is planned, and a reset that is synced.
use entropy.Base.{String, true, false, none, some, List, [], ◌∷◌, ◌≡◌, ◌≤◌, refl, arith}
use entropy.Base.Text.{◌<>◌, join}
use entropy.Io.{ok}
use entropy.Resource.{State, Resource}
use entropy.Module.{ActionRequest, ExpandedResource}
use entropy.Helpers.{text_length, trim_suffix, clone_and_merge_maps, safe_name}
use entropy.Firehose.{
  pos, ChartValues, InitContainer, Trigger, Keda, Config, DriverConf, KubeOutput, TransientData,
  Libraries, merge_usage,
}
use entropy.Firehose.Bounds.{IsBounded, read_config-IsBounded}
use entropy.Firehose.Configs.{
  no_usage, read_config, deployment_name, driver_limits, driver_namespace, filled_config,
  with_autoscaler, with_consumer_id,
}
use entropy.Firehose.Plans.{ResetParsers, read_kube}
use entropy.Firehose.Release.{
  ReleaseConfig, affinity_of, get_helm_release, release_of, secrets_of, taint_key, template_values,
  tolerations_of, with_credentials, with_telegraf,
}
use entropy.Firehose.Scaling.{
  empty_keda, merge_triggers, pause, read_keda_config, update_trigger, update_triggers,
  update_triggers_metadata, validate_autoscaler, validate_keda,
}
use entropy.Firehose.Steps.{IsAdvance, sync-IsAdvance}
use entropy.Firehose.Stops.{run_step-stops}
use entropy.Firehose.Syncs.{
  Cluster, no_output, read_transient_data, sync, advance, internally, is_release, read_output_data,
  release_config, release_sync, run_step,
}
use entropy.Firehose.HelmValues.{annotations_of, autoscaler_values, has_bar, trigger_values}
use entropy.Io.Calls.{answer, ◌>>=◌}
use entropy.Base.Dict.{copy_into, insert, lookup}
use entropy.Firehose.Numbers.{digit_text, print_digits}
use entropy.Firehose.Templates.{render_tpl}

abbrev chart : ChartValues
chart = record {
  image_repository = "gotocompany/firehose";
  image_tag = "0.8.1";
  chart_version = "0.1.3";
  image_pull_policy = "IfNotPresent";
}

abbrev init_container : InitContainer
init_container = record {
  enabled = false;
  args = [];
  command = [];
  repository = "";
  image_tag = "";
  pull_policy = "";
}

abbrev lag : Trigger
lag = record {
  scaler = "kafka";
  metadata = ("lagThreshold", "50") ∷ [];
  authentication_ref = record { name = ""; kind = "" };
}

abbrev scaler : Keda
scaler = record empty_keda {
  min_replicas = pos 1;
  max_replicas = pos 4;
  triggers = ("lag", lag) ∷ [];
}

-- what a user asks for
abbrev asked : Config
asked = record {
  stopped = false;
  stop_time = none;
  replicas = 0;
  namespace = "";
  deployment_id = "";
  env_variables = some (("SINK_TYPE", "LOG") ∷ []);
  reset_offset = "";
  limits = no_usage;
  requests = no_usage;
  telegraf = none;
  chart_values = some chart;
  init_container = init_container;
  autoscaler = some (record { enabled = true; kind = "keda"; spec = scaler });
}

abbrev dc : DriverConf
dc = record {
  labels = none;
  telegraf = none;
  namespace = ("default", "firehose") ∷ [];
  chart_values = chart;
  env_variables = some (("SOURCE_KAFKA_BROKERS", "b:9092") ∷ []);
  init_container = init_container;
  gcs_sink_credential = "";
  dlq_gcs_sink_credential = "";
  big_query_sink_credential = "";
  requests_and_limits = [];
  node_affinity = record { required = none; preferred = none };
  offset_reset_delay_seconds = 5;
  kube_deploy_timeout = 60;
  keda = [];
}

abbrev pending : TransientData
pending = record {
  pending_steps = "consumer_reset" ∷ "release_update" ∷ [];
  reset_offset_to = "latest";
}

abbrev kube_out : KubeOutput
kube_out = record {
  configs = record { namespace = ""; access = "" };
  toleration_mode = [];
  tolerations = [];
  affinity_mode = [];
  affinities = [];
}

-- libraries with one answer each
abbrev lib : Libraries
lib = record {
  decode_config = λ raw. ok asked;
  encode_config = λ conf. conf.deployment_id;
  validate_config = λ raw. ok tt;
  decode_replicas = λ raw. ok 3;
  decode_stop_time = λ raw. ok none;
  decode_kube = λ raw. ok kube_out;
  decode_transient = λ raw. ok pending;
  encode_transient = λ data'. join "," data'.pending_steps;
  decode_output = λ raw. ok no_output;
  encode_output = λ out. out.release_name;
  parse_template = λ text. ok (λ values. ok text);
  sha256_hex = λ text. "0123456789";
}

abbrev parsers : ResetParsers
parsers = record {
  to_lower = λ text. text;
  decode_reset = λ raw. ok (record { to = "latest" });
  decode_reset_v2 = λ raw. ok (record { to = "latest"; datetime = "" });
}

abbrev in_state : State → Resource
in_state state = record {
  urn = "orn:entropy:firehose:shop:logs";
  kind = "firehose";
  name = "logs";
  project = "shop";
  labels = none;
  created_at = 1;
  updated_at = 1;
  updated_by = "ann";
  created_by = "ann";
  spec = record { configs = some "{}"; dependencies = [] };
  state = state;
}

abbrev state_of : String → String → State
state_of status steps = record {
  status = status;
  output = some "out";
  module_data = some steps;
  next_sync_at = some 100;
  sync_result = record { retries = 0; last_error = "" };
}

abbrev expanded : Resource → ExpandedResource
expanded r = record { resource = r; dependencies = [] }

abbrev resetting : Resource
resetting = in_state (state_of "STATUS_PENDING" "consumer_reset,release_update")

abbrev stopping : ActionRequest
stopping = record { name = "stop"; params = none; labels = none; user_id = "ann" }

abbrev stop_planned : Resource
stop_planned = record (in_state (state_of "STATUS_PENDING" "release_update")) {
  spec = record { configs = some "shop-logs-firehose"; dependencies = [] };
}

-- a cluster that records the deployments and the resets
abbrev cl : Cluster (List String)
cl = record {
  kube_deploy = λ is_create kube rc w. (ok tt, rc.name ∷ w);
  kube_get_pod = λ kube ns app w. (ok [], w);
  kube_get_deployment = λ kube ns name w. (ok "", w);
  consumer_reset =
      λ conf kube reset_to delay w. (ok tt, (conf.deployment_id <> " to " <> reset_to) ∷ w);
}

enough_digits : 6 ≤ text_length "0123456789"
unfolding text_length
enough_digits = omega arith

abbrev filled : Config
filled = record asked {
  replicas = 1;
  namespace = "firehose";
  deployment_id = "shop-logs-firehose";
  env_variables = some (
      ("SOURCE_KAFKA_BROKERS", "b:9092")
      ∷ ("SINK_TYPE", "LOG")
      ∷ ("SOURCE_KAFKA_CONSUMER_GROUP_ID", "shop-logs-firehose-1")
      ∷ []);
  autoscaler = some (record {
    enabled = true;
    kind = "keda";
    spec = record scaler {
      triggers =
          (
            "lag",
            record lag {
              metadata =
                  ("lagThreshold", "50")
                  ∷ ("consumerGroup", "shop-logs-firehose-1")
                  ∷ ("bootstrapServers", "b:9092")
                  ∷ [];
            },
          )
          ∷ [];
    };
  });
}

is_read : read_config lib dc resetting none ≡ ok filled
unfolding read_config deployment_name text_length safe_name trim_suffix with_autoscaler
    filled_config validate_autoscaler validate_keda read_keda_config update_triggers_metadata
    update_triggers update_trigger merge_triggers insert lookup clone_and_merge_maps copy_into
    merge_usage with_consumer_id driver_limits driver_namespace
is_read = refl

read_config-IsBounded_example : IsBounded filled
read_config-IsBounded_example = read_config-IsBounded lib dc resetting none enough_digits is_read

abbrev stepped_on : State
stepped_on = state_of "STATUS_PENDING" "release_update"

reset_is_synced :
    sync lib dc cl 100 (expanded resetting) []
    ≡ (ok stepped_on, "shop-logs-firehose to latest" ∷ [])
unfolding sync read_transient_data read_output_data answer ◌>>=◌ read_kube advance run_step
    is_release join read_config deployment_name text_length safe_name trim_suffix with_autoscaler
    filled_config validate_autoscaler validate_keda read_keda_config update_triggers_metadata
    update_triggers update_trigger merge_triggers insert lookup clone_and_merge_maps copy_into
    merge_usage with_consumer_id driver_limits driver_namespace
reset_is_synced = refl

sync-IsAdvance_example :
    (data' : TransientData) × (conf : Config) × (kube : KubeOutput) × (read_transient_data lib
        (expanded resetting)
      ≡ ok data')
    × (read_config lib dc resetting (some "{}") ≡ ok conf)
    × (read_kube lib (expanded resetting) ≡ ok kube)
    × IsAdvance lib dc cl 100 resetting conf kube data'.reset_offset_to [] stepped_on
        ("shop-logs-firehose to latest" ∷ [])
        data'.pending_steps
sync-IsAdvance_example = sync-IsAdvance lib dc cl 100 (expanded resetting) [] reset_is_synced

stop_step_runs :
    run_step lib dc cl resetting filled kube_out "latest" "release_stop" []
    ≡ (ok tt, "shop-logs-firehose" ∷ [])
unfolding run_step is_release release_sync release_config internally answer ◌>>=◌ get_helm_release
    render_tpl template_values with_telegraf release_of autoscaler_values trigger_values
    annotations_of clone_and_merge_maps copy_into affinity_of tolerations_of taint_key secrets_of
    with_credentials print_digits digit_text insert lookup has_bar pause
stop_step_runs = refl

releases : is_release "release_stop" ≡ true
unfolding is_release
releases = refl

run_step-stops_example :
    (rc : ReleaseConfig) × (rc.name ≡ filled.deployment_id)
    × (rc.replica_count ≡ 0)
    × (cl.kube_deploy false kube_out.configs rc [] ≡ (ok tt, "shop-logs-firehose" ∷ []))
run_step-stops_example =
    run_step-stops lib dc cl resetting filled kube_out "latest" "release_stop" [] releases refl
      stop_step_runs
