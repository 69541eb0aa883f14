-- ===== src/Firehose/Steps.antt =====
-- `Sync` of modules/firehose/driver_sync.go: what a sync that succeeds has done.
use mathlib.Core.Path.{subst}
use entropy.Base.{
  ℕ, String, none, some, List, [], ◌∷◌, ◌≡◌, refl, sym, ◌∙◌, arith, ap, Bool-cases, inl, inr,
}
use entropy.Io.{Result, ok, err}
use entropy.Io.Invert.{ok-inj}
use entropy.Io.Calls.{bind-eq-ok, answer-eq-ok}
use entropy.Module.{ExpandedResource}
use entropy.Resource.{State, Resource, status_pending, status_completed}
use entropy.Firehose.{Config, DriverConf, KubeOutput, Output, TransientData, Libraries}
use entropy.Firehose.Configs.{read_config}
use entropy.Firehose.Plans.{read_kube}
use entropy.Firehose.Syncs.{
  Cluster, or_internal, read_transient_data, run_step, expire, refresh, settle, advance, sync,
  refresh_output, is_due,
}

or_internal-eq-ok : {A : Type 0} (o : Result A) {a : A} → or_internal o ≡ ok a → o ≡ ok a
or_internal-eq-ok (ok a) e = e
or_internal-eq-ok (err x) e = ground arith

module _ {W : Type 0} (lib : Libraries) (dc : DriverConf) (cl : Cluster W) where
  -- The state after a sync. Without a pending step it is completed. With one it is pending, due at
  -- once and with the steps behind that one, and from its world to the next one the step has run.
  abbrev pub IsAdvance :
      ℕ → Resource → Config → KubeOutput → String → W → State → W → List String → Type 0
  IsAdvance now r conf kube reset_to w s w' [] =
      (s.status ≡ status_completed) × (s.module_data ≡ none)
  IsAdvance now r conf kube reset_to w s w' (step ∷ steps) =
      (s.status ≡ status_pending)
      × (s.next_sync_at ≡ some now)
      × (s.output ≡ r.state.output)
      × (s.module_data
          ≡ some
              (lib.encode_transient (record { pending_steps = steps; reset_offset_to = reset_to })))
      × (run_step lib dc cl r conf kube reset_to step w ≡ (ok tt, w'))

  abbrev IsCompleted : State → Type 0
  IsCompleted s = (s.status ≡ status_completed) × (s.module_data ≡ none)

  refresh-IsCompleted :
      (r : Resource) (conf : Config) (out : Output) (kube : KubeOutput) (w : W) {s : State} {w' : W}
      → refresh lib dc cl r conf out kube w ≡ (ok s, w')
      → IsCompleted s
  unfolding refresh
  refresh-IsCompleted r conf out kube w e =
      let (output, u, _, e1) = bind-eq-ok (refresh_output lib dc cl r conf out kube) _ w e in
      let (same, _) = answer-eq-ok _ u e1 in subst IsCompleted (ok-inj same) (refl, refl)

  expire-IsCompleted :
      (r : Resource) (conf : Config) (out : Output) (kube : KubeOutput) (w : W) {s : State} {w' : W}
      → expire lib dc cl r conf out kube w ≡ (ok s, w')
      → IsCompleted s
  unfolding expire
  expire-IsCompleted r conf out kube w e =
      let (_, u, _, e1) = bind-eq-ok _ _ w e in
      let (output, v, _, e2) = bind-eq-ok _ _ u e1 in
      let (same, _) = answer-eq-ok _ v e2 in subst IsCompleted (ok-inj same) (refl, refl)

  settle-IsCompleted :
      (now : ℕ) (r : Resource) (conf : Config) (out : Output) (kube : KubeOutput) (w : W)
      {s : State} {w' : W}
      → settle lib dc cl now r conf out kube w ≡ (ok s, w')
      → IsCompleted s
  unfolding settle
  settle-IsCompleted now r conf out kube w {s} {w'} e =
      elim (Bool-cases (is_due conf.stop_time now)) [
        | inl due ↦
            let ended : expire lib dc cl r conf out kube w ≡ (ok s, w') = ground arith in
            expire-IsCompleted r conf out kube w ended
        | inr early ↦
            let ended : refresh lib dc cl r conf out kube w ≡ (ok s, w') = ground arith in
            refresh-IsCompleted r conf out kube w ended
      ]

  advance-IsAdvance :
      (now : ℕ) (r : Resource) (conf : Config) (out : Output) (kube : KubeOutput)
      (data' : TransientData) (steps : List String) (w : W) {s : State} {w' : W}
      → advance lib dc cl now r conf out kube data' steps w ≡ (ok s, w')
      → IsAdvance now r conf kube data'.reset_offset_to w s w' steps
  unfolding advance
  advance-IsAdvance now r conf out kube data' [] w e = settle-IsCompleted now r conf out kube w e
  advance-IsAdvance now r conf out kube data' (step ∷ steps) w {s} {w'} e =
      let (done, u, ran, e1) =
        bind-eq-ok (run_step lib dc cl r conf kube data'.reset_offset_to step) _ w e in
      let (same, there) = answer-eq-ok _ u e1 in
      subst (λ z. IsAdvance now r conf kube data'.reset_offset_to w z w' (step ∷ steps))
        (ok-inj same) (refl, refl, refl, refl, ran ∙ ap (λ x. (ok tt, x)) there)

-- If `Sync` returns a state, then it has read the configuration and the cluster, and it has taken one
-- pending step: the step has succeeded, it is gone from the steps of the new state, and the state is
-- pending with the output of before. Without a pending step the new state is completed and has no
-- steps.
pub sync-IsAdvance :
    {W : Type 0} (lib : Libraries) (dc : DriverConf) (cl : Cluster W) (now : ℕ)
    (exr : ExpandedResource) (w : W) {s : State} {w' : W}
    → sync lib dc cl now exr w ≡ (ok s, w')
    → (data' : TransientData) × (conf : Config) × (kube : KubeOutput) × (read_transient_data lib exr
        ≡ ok data')
      × (read_config lib dc exr.resource exr.resource.spec.configs ≡ ok conf)
      × (read_kube lib exr ≡ ok kube)
      × IsAdvance lib dc cl now exr.resource conf kube data'.reset_offset_to w s w'
          data'.pending_steps
unfolding sync
sync-IsAdvance lib dc cl now exr w {s} {w'} e =
    let (data', u, got, e1) = bind-eq-ok _ _ w e in
    let (out, v, read, e2) = bind-eq-ok _ _ u e1 in
    let (conf, x, configured, e3) = bind-eq-ok _ _ v e2 in
    let (kube, y, found, e4) = bind-eq-ok _ _ x e3 in
    let (is_data, at_u) = answer-eq-ok _ w got in
    let (_, at_v) = answer-eq-ok _ u read in
    let (is_conf, at_x) = answer-eq-ok _ v configured in
    let (is_kube, at_y) = answer-eq-ok _ x found in
    (
      data',
      conf,
      kube,
      is_data,
      or_internal-eq-ok _ is_conf,
      is_kube,
      subst
          (λ z.
            IsAdvance lib dc cl now exr.resource conf kube data'.reset_offset_to z s w'
              data'.pending_steps)
          (sym (at_u ∙ at_v ∙ at_x ∙ at_y))
          (advance-IsAdvance lib dc cl now exr.resource conf out kube data' data'.pending_steps y
            e4),
    )
