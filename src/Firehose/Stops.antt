-- ===== src/Firehose/Stops.antt =====
-- `Sync` of modules/firehose/driver_sync.go: what is deployed for a firehose that is to stop.
use mathlib.Core.Path.{subst}
use entropy.Base.{
  [], Bool-cases, inl, inr, String, Bool, true, ◌||◌, Option, none, some, ◌≡◌, refl, sym, ◌∙◌,
  arith, ◌==◌,
}
use entropy.Base.Dict.{Dict, entries}
use entropy.Io.{Result, ok, err}
use entropy.Io.Invert.{ok-inj}
use entropy.Io.Calls.{answer, bind-eq-ok, answer-eq-ok}
use entropy.Resource.{Resource}
use entropy.Firehose.{
  step_release_create, step_release_stop, Autoscaler, Config, DriverConf, KubeOutput, Telegraf,
  Libraries,
}
use entropy.Firehose.Bounds.{then_result-eq-ok}
use entropy.Firehose.HelmValues.{autoscaler_values}
use entropy.Firehose.Release.{
  ReleaseConfig, template_values, render_telegraf, with_telegraf, release_of, chart_or_panic,
  with_autoscaler_values, deployment_labels_of, get_helm_release,
}
use entropy.Firehose.Templates.{render_tpl, render_output}
use entropy.Firehose.Syncs.{
  wrap, Cluster, internally, release_config, is_release, release_sync, run_step,
}

-- the release is for this deployment, with this number of replicas
abbrev pub IsFor : Config → ReleaseConfig → Type 0
IsFor conf rc = (rc.name ≡ conf.deployment_id) × (rc.replica_count ≡ conf.replicas)

abbrev Keeps : Config → Config → Type 0
Keeps a b = (b.deployment_id ≡ a.deployment_id) × (b.replicas ≡ a.replicas)

render_telegraf-Keeps :
    (lib : Libraries) (values : Dict String) (conf : Config) (t : Telegraf)
    {o : Config × Option Telegraf}
    → render_telegraf lib values conf t ≡ ok o
    → Keeps conf o.0
render_telegraf-Keeps lib values conf t e =
    let (env, _, e1) =
      then_result-eq-ok (render_tpl lib (entries conf.env_variables) values []) _ e in
    let (tags, _, e2) =
      then_result-eq-ok (render_tpl lib (entries t.additional_global_tags) values []) _ e1 in
    let (output, _, e3) = then_result-eq-ok (render_output lib t.output values) _ e2 in
    subst (λ o. Keeps conf o.0) (ok-inj e3) (refl, refl)

with_telegraf-Keeps :
    (lib : Libraries) (values : Dict String) (conf : Config) (t : Option Telegraf)
    {o : Config × Option Telegraf}
    → with_telegraf lib values conf t ≡ ok o
    → Keeps conf o.0
unfolding with_telegraf
with_telegraf-Keeps lib values conf none e = subst (λ o. Keeps conf o.0) (ok-inj e) (refl, refl)
with_telegraf-Keeps lib values conf (some t) {o} e = elim (Bool-cases t.enabled) [
  | inl on ↦
      let rendered : render_telegraf lib values conf t ≡ ok o = ground arith in
      render_telegraf-Keeps lib values conf t rendered
  | inr off ↦
      let same : (conf, none) ≡ o = ground arith in subst (λ o. Keeps conf o.0) same (refl, refl)
]

with_autoscaler_values-IsFor :
    (lib : Libraries) (scaled conf : Config) (rc : ReleaseConfig) (a : Option Autoscaler)
    {out : ReleaseConfig}
    → IsFor conf rc
    → with_autoscaler_values lib scaled rc a ≡ ok out
    → IsFor conf out
with_autoscaler_values-IsFor lib scaled conf rc none is_for e = subst (IsFor conf) (ok-inj e) is_for
with_autoscaler_values-IsFor lib scaled conf rc (some a) is_for e =
    let (values, _, e1) = then_result-eq-ok (autoscaler_values lib scaled a) _ e in
    subst (IsFor conf) (ok-inj e1) is_for

get_helm_release-IsFor :
    (lib : Libraries) (dc : DriverConf) (res : Resource) (conf : Config) (kube : KubeOutput)
    {rc : ReleaseConfig}
    → get_helm_release lib dc res conf kube ≡ ok rc
    → IsFor conf rc
unfolding get_helm_release release_of
get_helm_release-IsFor lib dc res conf kube e =
    let (labels, _, e1) = then_result-eq-ok (deployment_labels_of lib dc res conf) _ e in
    let (rendered, is_rendered, e2) =
      then_result-eq-ok (with_telegraf lib (template_values res conf labels) conf conf.telegraf) _
        e1 in
    let (chart, _, e3) = then_result-eq-ok (chart_or_panic rendered.0.chart_values) _ e2 in
    with_autoscaler_values-IsFor lib _ conf (release_of dc kube labels rendered.0 rendered.1 chart)
      rendered.0.autoscaler (with_telegraf-Keeps lib _ conf conf.telegraf is_rendered) e3

module _ {W : Type 0} where
  internally-eq-ok : (o : Result (Unit {0}) × W) {w' : W} → wrap o ≡ (ok tt, w') → o ≡ (ok tt, w')
  internally-eq-ok (ok tt, w) e = ground arith
  internally-eq-ok (err x, w) e = ground arith

release_sync-Deploys :
    {W : Type 0} (lib : Libraries) (dc : DriverConf) (cl : Cluster W) (r : Resource)
    (is_create : Bool) (conf : Config) (kube : KubeOutput) (w : W) {w' : W}
    → release_sync lib dc cl r is_create conf kube w ≡ (ok tt, w')
    → (rc : ReleaseConfig) × IsFor conf rc
      × (cl.kube_deploy is_create kube.configs rc w ≡ (ok tt, w'))
unfolding release_sync internally
release_sync-Deploys lib dc cl r is_create conf kube w {w'} e =
    let (rc, u, made, e1) = bind-eq-ok (answer (get_helm_release lib dc r conf kube)) _ w e in
    let (is_made, same) = answer-eq-ok (get_helm_release lib dc r conf kube) w made in
    (
      rc,
      get_helm_release-IsFor lib dc r conf kube is_made,
      subst (λ v. cl.kube_deploy is_create kube.configs rc v ≡ (ok tt, w')) (sym same)
          (internally-eq-ok (cl.kube_deploy is_create kube.configs rc u) e1),
    )

release_config-stopped :
    (step : String) (conf : Config)
    → (step == step_release_stop || conf.stopped) ≡ true
    → ((release_config step conf).deployment_id ≡ conf.deployment_id)
      × ((release_config step conf).replicas ≡ 0)
unfolding release_config
release_config-stopped step conf stops = rw stops (refl, refl)

-- If a step that releases succeeds, and it is the stop or the firehose is stopped, then it has
-- deployed, without an error, a release with the name of the firehose's deployment and no replicas.
pub run_step-stops :
    {W : Type 0} (lib : Libraries) (dc : DriverConf) (cl : Cluster W) (r : Resource) (conf : Config)
    (kube : KubeOutput) (reset_to step : String) (w : W) {w' : W}
    → is_release step ≡ true
    → (step == step_release_stop || conf.stopped) ≡ true
    → run_step lib dc cl r conf kube reset_to step w ≡ (ok tt, w')
    → (rc : ReleaseConfig) × (rc.name ≡ conf.deployment_id)
      × (rc.replica_count ≡ 0)
      × (cl.kube_deploy (step == step_release_create) kube.configs rc w ≡ (ok tt, w'))
unfolding run_step
run_step-stops lib dc cl r conf kube reset_to step w {w'} releases stops e =
    let released : release_sync lib dc cl r (step == step_release_create) (release_config step conf)
          kube w
        ≡ (ok tt, w') =
      ground arith in
    let (rc, (named, sized), deployed) = release_sync-Deploys lib dc cl r _ _ kube w released in
    let (same_name, none_left) = release_config-stopped step conf stops in
    (rc, named ∙ same_name, sized ∙ none_left, deployed)
