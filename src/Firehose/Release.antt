-- ===== src/Firehose/Release.antt =====
-- modules/firehose/driver.go: the Helm release of a firehose.
use entropy.Base.{
  ℕ, String, Bool, true, false, Option, none, some, List, [], ◌∷◌, ◌++◌, ◌==◌, if◌then◌else◌,
}
use entropy.Base.Dict.{Dict, GoMap, entries, lookup, insert, or_zero}
use entropy.Base.Text.{◌<>◌}
use entropy.Errors.{foreign}
use entropy.Io.{Result, ok, err}
use entropy.Helpers.{clone_and_merge_maps}
use entropy.Resource.{Resource}
use entropy.Firehose.{
  UsageSpec, ChartValues, Telegraf, InitContainer, Autoscaler, Config, Toleration, NodeAffinity,
  DriverConf, KubeOutput, Libraries,
}
use entropy.Firehose.Configs.{then_result}
use entropy.Firehose.Templates.{render_tpl, render_output}
use entropy.Firehose.HelmValues.{AutoscalerValues, autoscaler_values}

abbrev pub chart_repo : String
chart_repo = "https://goto.github.io/charts/"

abbrev pub chart_name : String
chart_name = "firehose"

abbrev pub orchestrator_label_value : String
orchestrator_label_value = "entropy"

pub record MountSecret : Type 0 where
  pub value : String
  pub key : String
  pub path : String

-- `helm.ReleaseConfig` as far as `getHelmRelease` sets it, with the entries of its values as fields.
pub record ReleaseConfig : Type 0 where
  pub timeout : ℕ
  pub name : String
  pub repository : String
  pub chart : String
  pub namespace : String
  pub force_update : Bool
  pub version : String
  pub labels : Dict String
  pub replica_count : ℕ
  pub image_repository : String
  pub image_pull_policy : String
  pub image_tag : String
  pub config : GoMap String
  pub limits : UsageSpec
  pub requests : UsageSpec
  pub tolerations : List Toleration
  pub affinity : NodeAffinity
  pub init_firehose : InitContainer
  pub telegraf : Option Telegraf
  pub mount_secrets : List MountSecret
  pub autoscaler : Option AutoscalerValues

abbrev pub entropy_labels : Config → Dict String
entropy_labels conf =
    ("deployment", conf.deployment_id) ∷ ("orchestrator", orchestrator_label_value) ∷ []

abbrev pub other_labels : Resource → Config → Dict String
other_labels res conf = ("urn", res.urn) ∷ ("name", res.name) ∷ ("namespace", conf.namespace) ∷ []

abbrev pub merged : Dict String → Dict String → Dict String
merged a b = clone_and_merge_maps (some a) (some b)

-- the values for the templates of the environment and of Telegraf
unfoldable pub template_values : Resource → Config → Dict String → Dict String
template_values res conf deployment_labels =
    merged
      (merged (entries conf.env_variables)
        (merged deployment_labels (merged (entries res.labels) (entropy_labels conf))))
      (other_labels res conf)

-- the branch of `getHelmRelease` for a Telegraf that is enabled: the environment and Telegraf
abbrev pub render_telegraf :
    Libraries → Dict String → Config → Telegraf → Result (Config × Option Telegraf)
render_telegraf lib values conf telegraf =
    then_result (render_tpl lib (entries conf.env_variables) values []) (λ env.
      then_result (render_tpl lib (entries telegraf.additional_global_tags) values []) (λ tags.
        then_result (render_output lib telegraf.output values) (λ output. ok (
          record conf { env_variables = some env },
          some (record {
            enabled = true;
            image = telegraf.image;
            output = output;
            additional_global_tags = some tags;
          }),
        ))))

unfoldable pub with_telegraf :
    Libraries → Dict String → Config → Option Telegraf → Result (Config × Option Telegraf)
with_telegraf lib values conf none = ok (conf, none)
with_telegraf lib values conf (some telegraf) =
    if telegraf.enabled then render_telegraf lib values conf telegraf else ok (conf, none)

abbrev pub is_scaled : Option Autoscaler → Bool
is_scaled none = false
is_scaled (some a) = a.enabled

-- the key of the tolerations and of the affinities of a firehose, by the mode of the cluster
unfoldable pub taint_key : String → Config → String
taint_key mode conf =
    if mode == "AUTOSCALER"
    then (if is_scaled conf.autoscaler then "firehose_autoscaler" else "firehose_non_autoscaler")
    else "firehose_" <> or_zero "" (lookup "SINK_TYPE" (entries conf.env_variables))

abbrev pub or_list : {A : Type 0} → Option A → Option A → Option A
or_list base none = base
or_list base (some a) = some a

abbrev pub no_affinity : NodeAffinity
no_affinity = record { required = some []; preferred = some [] }

-- what the cluster has for the key, and over it what the driver has
unfoldable pub affinity_of : DriverConf → KubeOutput → Config → NodeAffinity
affinity_of dc kube conf =
    let key = taint_key (or_zero "" (lookup "firehose" kube.affinity_mode)) conf in
    let base = or_zero no_affinity (lookup key kube.affinities) in
    record {
      required = or_list base.required dc.node_affinity.required;
      preferred = or_list base.preferred dc.node_affinity.preferred;
    }

unfoldable pub tolerations_of : KubeOutput → Config → List Toleration
tolerations_of kube conf =
    or_zero [] (
      lookup (taint_key (or_zero "" (lookup "firehose" kube.toleration_mode)) conf)
        kube.tolerations)

-- a secret that is mounted, and the variables that say where
abbrev pub mounted : String → String → String → List MountSecret
mounted value key path =
    if value == "" then [] else record { value = value; key = key; path = path } ∷ []

abbrev pub with_path : String → List String → String → Dict String → Dict String
with_path value [] path env = env
with_path value (key ∷ keys) path env =
    let rest = with_path value keys path (insert key ("/etc/secret/" <> path) env) in
    if value == "" then env else rest

unfoldable pub secrets_of : DriverConf → List MountSecret
secrets_of dc =
    mounted dc.gcs_sink_credential "gcs_credential" "gcs_auth.json"
    ++ mounted dc.dlq_gcs_sink_credential "dlq_gcs_credential" "dlq_gcs_auth.json"
    ++ mounted dc.big_query_sink_credential "bigquery_credential" "bigquery_auth.json"

unfoldable pub with_credentials : DriverConf → Dict String → Dict String
with_credentials dc env =
    with_path dc.big_query_sink_credential ("SINK_BIGQUERY_CREDENTIAL_PATH" ∷ [])
      "bigquery_auth.json"
      (with_path dc.dlq_gcs_sink_credential ("DLQ_GCS_CREDENTIAL_PATH" ∷ []) "dlq_gcs_auth.json" (
        with_path dc.gcs_sink_credential
          ("SINK_BLOB_GCS_CREDENTIAL_PATH" ∷ "SINK_BIGTABLE_CREDENTIAL_PATH" ∷ []) "gcs_auth.json"
          env))

-- The release, once its templates are rendered and the chart is known.
unfoldable pub release_of :
    DriverConf → KubeOutput → Dict String → Config → Option Telegraf → ChartValues → ReleaseConfig
release_of dc kube deployment_labels conf telegraf chart = record {
  timeout = dc.kube_deploy_timeout;
  name = conf.deployment_id;
  repository = chart_repo;
  chart = chart_name;
  namespace = conf.namespace;
  force_update = true;
  version = chart.chart_version;
  labels = merged deployment_labels (entropy_labels conf);
  replica_count = conf.replicas;
  image_repository =
      if chart.image_repository == ""
      then dc.chart_values.image_repository
      else chart.image_repository;
  image_pull_policy = chart.image_pull_policy;
  image_tag = chart.image_tag;
  config = some (with_credentials dc (entries conf.env_variables));
  limits = conf.limits;
  requests = conf.requests;
  tolerations = tolerations_of kube conf;
  affinity = affinity_of dc kube conf;
  init_firehose = dc.init_container;
  telegraf = telegraf;
  mount_secrets = secrets_of dc;
  autoscaler = none;
}

-- the plan of a resource sets its chart values; without them the code panics
abbrev pub chart_or_panic : Option ChartValues → Result ChartValues
chart_or_panic none = err (foreign "panic: invalid memory address or nil pointer dereference")
chart_or_panic (some chart) = ok chart

abbrev pub with_autoscaler_values :
    Libraries → Config → ReleaseConfig → Option Autoscaler → Result ReleaseConfig
with_autoscaler_values lib conf rc none = ok rc
with_autoscaler_values lib conf rc (some a) =
    then_result (autoscaler_values lib conf a)
      (λ values. ok (record rc { autoscaler = some values }))

-- the labels of the deployment
abbrev pub deployment_labels_of : Libraries → DriverConf → Resource → Config → Result (Dict String)
deployment_labels_of lib dc res conf =
    render_tpl lib (entries dc.labels)
      (merged (entries res.labels) (merged (entropy_labels conf) (other_labels res conf))) []

-- `getHelmRelease`. What it renders or adds in place, in maps of the configuration, goes to the release
-- only: done again, it renders the same templates.
unfoldable pub get_helm_release :
    Libraries → DriverConf → Resource → Config → KubeOutput → Result ReleaseConfig
get_helm_release lib dc res conf kube =
    then_result (deployment_labels_of lib dc res conf) (λ labels.
      then_result (with_telegraf lib (template_values res conf labels) conf conf.telegraf)
        (λ rendered. then_result (chart_or_panic rendered.0.chart_values) (λ chart.
          with_autoscaler_values lib
            (record rendered.0 {
              env_variables = some (with_credentials dc (entries rendered.0.env_variables));
            })
            (release_of dc kube labels rendered.0 rendered.1 chart) rendered.0.autoscaler)))
