-- ===== src/Firehose.antt =====
-- modules/firehose: the configuration of a firehose, of its driver and of its autoscaler. Numbers that
-- may be negative are integers; where a number that is not positive is replaced, it is natural.
pub mod Scaling
pub mod Configs
pub mod Templates
pub mod Numbers
pub mod HelmValues
pub mod Release
pub mod Charts
pub mod Bounds
pub mod Plans
pub mod Planned
pub mod Syncs
pub mod Steps
pub mod Stops
use entropy.Base.{
  ℕ, suc, String, Bool, true, false, Option, none, some, List, [], ◌==◌, if◌then◌else◌,
}
use entropy.Base.Dict.{Dict, GoMap}
use entropy.Io.{Result, Call}
use entropy.Resource.{RawMessage}

pub data ℤ : Type 0 where
  pos : ℕ → ℤ
  negsuc : ℕ → ℤ

abbrev pub conf_sink_type : String
conf_sink_type = "SINK_TYPE"

abbrev pub conf_key_consumer_id : String
conf_key_consumer_id = "SOURCE_KAFKA_CONSUMER_GROUP_ID"

abbrev pub conf_key_kafka_brokers : String
conf_key_kafka_brokers = "SOURCE_KAFKA_BROKERS"

abbrev pub conf_key_kafka_topic : String
conf_key_kafka_topic = "SOURCE_KAFKA_TOPIC"

abbrev pub helm_release_name_max_length : ℕ
helm_release_name_max_length = 53

abbrev pub default_key : String
default_key = "default"

abbrev pub key_kube_dependency : String
key_kube_dependency = "kube_cluster"

abbrev pub step_release_create : String
step_release_create = "release_create"

abbrev pub step_release_update : String
step_release_update = "release_update"

abbrev pub step_release_stop : String
step_release_stop = "release_stop"

abbrev pub step_kafka_reset : String
step_kafka_reset = "consumer_reset"

abbrev pub keda_type : String
keda_type = "keda"

pub record UsageSpec : Type 0 where
  pub cpu : String
  pub memory : String

pub record RequestsAndLimits : Type 0 where
  pub limits : UsageSpec
  pub requests : UsageSpec

abbrev or_text : String → String → String
or_text old new = if new == "" then old else new

-- `UsageSpec.merge`
unfoldable pub merge_usage : UsageSpec → UsageSpec → UsageSpec
merge_usage us override = record {
  cpu = or_text us.cpu override.cpu;
  memory = or_text us.memory override.memory;
}

pub record ChartValues : Type 0 where
  pub image_repository : String
  pub image_tag : String
  pub chart_version : String
  pub image_pull_policy : String

-- A value of `map[string]any` in the output of Telegraf: a text, or the JSON of another value.
pub data Scalar : Type 0 where
  text_value : String → Scalar
  other_value : String → Scalar

pub data TelegrafOutput : Type 0 where
  map_value : Dict Scalar → TelegrafOutput
  no_map : String → TelegrafOutput

pub record Telegraf : Type 0 where
  pub enabled : Bool
  pub image : Dict Scalar
  pub output : Dict TelegrafOutput
  pub additional_global_tags : GoMap String

pub record InitContainer : Type 0 where
  pub enabled : Bool
  pub args : List String
  pub command : List String
  pub repository : String
  pub image_tag : String
  pub pull_policy : String

-- the types of keda.go; a fraction is the text of its number
pub record AuthenticationRef : Type 0 where
  pub name : String
  pub kind : String

-- The metadata is a map that is made: at a nil one `updateTriggersMetadata` panics.
pub record Trigger : Type 0 where
  pub scaler : String
  pub metadata : Dict String
  pub authentication_ref : AuthenticationRef

pub record Fallback : Type 0 where
  pub behavior : String
  pub replicas : ℤ
  pub failure_threshold : ℤ

pub record Policy : Type 0 where
  pub policy_type : String
  pub value : String
  pub period_seconds : ℤ

pub record ScaleBehaviour : Type 0 where
  pub policies : List Policy
  pub stabilization_window_seconds : Option ℤ
  pub tolerance : Option String

pub record HorizontalPodAutoscaler : Type 0 where
  pub scale_down : ScaleBehaviour
  pub scale_up : ScaleBehaviour

pub record Keda : Type 0 where
  pub paused : Bool
  pub paused_with_replica : Bool
  pub paused_replica : ℤ
  pub min_replicas : ℤ
  pub max_replicas : ℤ
  pub polling_interval : ℤ
  pub cooldown_period : ℤ
  pub triggers : Dict Trigger
  pub restore_to_original_replica : Bool
  pub fallback : Option Fallback
  pub hpa : Option HorizontalPodAutoscaler

-- `Autoscaler`. Its decoder sets the specification, of KEDA, or fails; one that is null is refused by
-- the schema, and left out.
pub record Autoscaler : Type 0 where
  pub enabled : Bool
  pub kind : String
  pub spec : Keda

-- A time that is set is a natural number. `replicas` below 1 is 0 here.
pub record Config : Type 0 where
  pub stopped : Bool
  pub stop_time : Option ℕ
  pub replicas : ℕ
  pub namespace : String
  pub deployment_id : String
  pub env_variables : GoMap String
  pub reset_offset : String
  pub limits : UsageSpec
  pub requests : UsageSpec
  pub telegraf : Option Telegraf
  pub chart_values : Option ChartValues
  pub init_container : InitContainer
  pub autoscaler : Option Autoscaler

pub record Toleration : Type 0 where
  pub key : String
  pub value : String
  pub effect : String
  pub operator : String

-- pkg/kube/pod/pod.go: a preference is the JSON of its fields
pub record NodeAffinity : Type 0 where
  pub required : Option (List String)
  pub preferred : Option (List String)

pub record DriverConf : Type 0 where
  pub labels : GoMap String
  pub telegraf : Option Telegraf
  pub namespace : Dict String
  pub chart_values : ChartValues
  pub env_variables : GoMap String
  pub init_container : InitContainer
  pub gcs_sink_credential : String
  pub dlq_gcs_sink_credential : String
  pub big_query_sink_credential : String
  pub requests_and_limits : Dict RequestsAndLimits
  pub node_affinity : NodeAffinity
  pub offset_reset_delay_seconds : ℕ
  pub kube_deploy_timeout : ℕ
  pub keda : Dict Keda

-- `kube.Config`: its namespace, and what the client of the cluster needs
pub record KubeConfig : Type 0 where
  pub namespace : String
  pub access : String

-- `kubernetes.Output`
pub record KubeOutput : Type 0 where
  pub configs : KubeConfig
  pub toleration_mode : Dict String
  pub tolerations : Dict (List Toleration)
  pub affinity_mode : Dict String
  pub affinities : Dict NodeAffinity

pub record TransientData : Type 0 where
  pub pending_steps : List String
  pub reset_offset_to : String

-- `Output`, with the JSON of what the cluster reports of pods and deployments
pub record Output : Type 0 where
  pub pods : List String
  pub namespace : String
  pub release_name : String
  pub deployment : Option String
  pub desired_status : String
  pub autoscaler_enabled : Bool

-- The libraries that the driver uses: JSON, JSON schema, templates, SHA-256 and the atoi of strconv.
pub record Libraries : Type 0 where
  pub decode_config : RawMessage → Result Config
  pub encode_config : Config → String
  pub validate_config : RawMessage → Result (Unit {0})
  pub decode_replicas : RawMessage → Result ℕ
  pub decode_stop_time : RawMessage → Result (Option ℕ)
  pub decode_kube : RawMessage → Result KubeOutput
  pub decode_transient : RawMessage → Result TransientData
  pub encode_transient : TransientData → String
  pub decode_output : RawMessage → Result Output
  pub encode_output : Output → String
  pub parse_template : String → Result (Dict String → Result String)
  pub sha256_hex : String → String
