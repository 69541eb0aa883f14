-- ===== src/Firehose/Syncs.antt =====
-- modules/firehose/driver_sync.go and driver_output.go: `Sync` and `Output`, at the time of the clock.
use entropy.Base.{
  ℕ, zero, String, Bool, true, false, ◌||◌, Option, none, some, List, [], ◌∷◌, ◌==◌, ltb,
  if◌then◌else◌,
}
use entropy.Base.Text.{◌<>◌}
use entropy.Errors.{own, err_internal, with_msgf, with_causef, go_text}
use entropy.Io.{Result, ok, err, Call}
use entropy.Io.Calls.{answer, ◌>>=◌}
use entropy.Resource.{RawMessage, raw_is_empty, State, Resource, status_pending, status_completed}
use entropy.Module.{ExpandedResource}
use entropy.Firehose.{
  pos, step_release_create, step_release_update, step_release_stop, step_kafka_reset, Config,
  DriverConf, KubeConfig, KubeOutput, TransientData, Output, Libraries,
}
use entropy.Firehose.Configs.{read_config}
use entropy.Firehose.Plans.{read_kube}
use entropy.Firehose.Release.{ReleaseConfig, get_helm_release, is_scaled}
use entropy.Firehose.Scaling.{pause, on_spec}

abbrev pub desired_status_running : String
desired_status_running = "RUNNING"

abbrev pub desired_status_stopped : String
desired_status_stopped = "STOPPED"

-- The functions that `firehoseDriver` is made with, which talk to the cluster. `consumer_reset`
-- takes the configuration, the output of the cluster, the offset and the delay.
pub record Cluster (W : Type 0) : Type 0 where
  pub kube_deploy : Bool → KubeConfig → ReleaseConfig → Call W (Unit {0})
  pub kube_get_pod : KubeConfig → String → String → Call W (List String)
  pub kube_get_deployment : KubeConfig → String → String → Call W String
  pub consumer_reset : Config → KubeOutput → String → ℕ → Call W (Unit {0})

abbrev pub no_transient : TransientData
no_transient = record { pending_steps = []; reset_offset_to = "" }

abbrev pub no_output : Output
no_output = record {
  pods = [];
  namespace = "";
  release_name = "";
  deployment = none;
  desired_status = "";
  autoscaler_enabled = false;
}

abbrev pub corrupted : {A : Type 0} → String → Result A → Result A
corrupted what (ok a) = ok a
corrupted what (err e) = err (own (with_causef (with_msgf err_internal what) (go_text e)))

-- `ErrInternal.WithCausef`
abbrev pub or_internal : {A : Type 0} → Result A → Result A
or_internal (ok a) = ok a
or_internal (err e) = err (own (with_causef err_internal (go_text e)))

-- `desiredStatus`
unfoldable pub desired_status_of : Config → String
desired_status_of conf = if conf.stopped then desired_status_stopped else desired_status_running

-- the configuration with which a step releases
unfoldable pub release_config : String → Config → Config
release_config step conf =
    if step == step_release_stop || conf.stopped
    then record conf { replicas = zero; autoscaler = on_spec (pause (pos 0)) conf.autoscaler }
    else conf

-- the steps that release
unfoldable pub is_release : String → Bool
is_release step =
    step == step_release_create || (step == step_release_update || step == step_release_stop)

-- `time.Before`, of a stop time that is set
unfoldable pub is_due : Option ℕ → ℕ → Bool
is_due none now = false
is_due (some t) now = ltb t now

module _ {W A : Type 0} where
  abbrev pub wrap : Result A × W → Result A × W
  wrap (r, w) = (or_internal r, w)

  unfoldable pub internally : Call W A → Call W A
  internally m w = wrap (m w)

module _ (lib : Libraries) where
  -- `readTransientData`
  unfoldable pub read_transient_data : ExpandedResource → Result TransientData
  read_transient_data exr =
      if raw_is_empty exr.resource.state.module_data
      then ok no_transient
      else corrupted "corrupted transient data"
          (lib.decode_transient exr.resource.state.module_data)

  -- `readOutputData`
  unfoldable pub read_output_data : ExpandedResource → Result Output
  read_output_data exr =
      if raw_is_empty exr.resource.state.output
      then ok no_output
      else corrupted "corrupted output" (lib.decode_output exr.resource.state.output)

module _ {W : Type 0} (lib : Libraries) (dc : DriverConf) (cl : Cluster W) where
  -- `releaseSync`
  unfoldable pub release_sync : Resource → Bool → Config → KubeOutput → Call W (Unit {0})
  release_sync r is_create conf kube = do
    rc ← answer (get_helm_release lib dc r conf kube)
    internally (cl.kube_deploy is_create kube.configs rc)

  abbrev pub refreshed : Config → Output → List String → String → RawMessage
  refreshed conf out pods deployment = some (
      lib.encode_output (record out {
        pods = pods;
        namespace = conf.namespace;
        deployment = some deployment;
        desired_status = desired_status_of conf;
        autoscaler_enabled = is_scaled conf.autoscaler;
      }))

  -- `refreshOutput`; the pods are those with the label `app` of the release
  unfoldable pub refresh_output : Resource → Config → Output → KubeOutput → Call W RawMessage
  refresh_output r conf out kube = do
    rc ← answer (get_helm_release lib dc r conf kube)
    pods ← internally (cl.kube_get_pod kube.configs rc.namespace rc.name)
    deployment ← internally (cl.kube_get_deployment kube.configs rc.namespace conf.deployment_id)
    answer (ok (refreshed conf out pods deployment))

  -- one pending step
  unfoldable pub run_step : Resource → Config → KubeOutput → String → String → Call W (Unit {0})
  run_step r conf kube reset_to step =
      if is_release step
      then release_sync r (step == step_release_create) (release_config step conf) kube
      else if step == step_kafka_reset
      then cl.consumer_reset conf kube reset_to dc.offset_reset_delay_seconds
      else answer (err (own (with_msgf err_internal ("unknown step: '" <> step <> "'"))))

  -- the state with the steps that are left
  abbrev pub stepped : ℕ → RawMessage → TransientData → List String → State
  stepped now output data' steps = record {
    status = status_pending;
    output = output;
    module_data = some (lib.encode_transient (record data' { pending_steps = steps }));
    next_sync_at = some now;
    sync_result = record { retries = zero; last_error = "" };
  }

  abbrev pub completed : Option ℕ → RawMessage → State
  completed next output = record {
    status = status_completed;
    output = output;
    module_data = none;
    next_sync_at = next;
    sync_result = record { retries = zero; last_error = "" };
  }

  abbrev pub expired : Config → Config
  expired conf = record conf { replicas = zero; stopped = true }

  -- the end of `Sync`, for a firehose behind its stop time
  unfoldable pub expire : Resource → Config → Output → KubeOutput → Call W State
  expire r conf out kube = do
    _ ← release_sync r false (expired conf) kube
    output ← refresh_output r (expired conf) out kube
    answer (ok (completed none output))

  unfoldable pub refresh : Resource → Config → Output → KubeOutput → Call W State
  refresh r conf out kube = do
    output ← refresh_output r conf out kube
    answer (ok (completed conf.stop_time output))

  unfoldable pub settle : ℕ → Resource → Config → Output → KubeOutput → Call W State
  settle now r conf out kube =
      if is_due conf.stop_time now then expire r conf out kube else refresh r conf out kube

  -- the next pending step, or the end
  unfoldable pub advance :
      ℕ → Resource → Config → Output → KubeOutput → TransientData → List String → Call W State
  advance now r conf out kube data' [] = settle now r conf out kube
  advance now r conf out kube data' (step ∷ steps) = do
    _ ← run_step r conf kube data'.reset_offset_to step
    answer (ok (stepped now r.state.output data' steps))

  -- `Sync`
  unfoldable pub sync : ℕ → ExpandedResource → Call W State
  sync now exr = do
    data' ← answer (read_transient_data lib exr)
    out ← answer (or_internal (read_output_data lib exr))
    conf ← answer (or_internal (read_config lib dc exr.resource exr.resource.spec.configs))
    kube ← answer (read_kube lib exr)
    advance now exr.resource conf out kube data' data'.pending_steps

  -- `Output`
  unfoldable pub output_of : ExpandedResource → Call W RawMessage
  output_of exr = do
    out ← answer (read_output_data lib exr)
    conf ← answer (or_internal (read_config lib dc exr.resource exr.resource.spec.configs))
    kube ← answer (read_kube lib exr)
    refresh_output exr.resource conf out kube
