-- ===== src/Core/Write/Executed.antt =====
-- `execAction`, `CreateResource` and `ApplyAction` of core/write.go: what an action that succeeded
-- has done.
use entropy.Base.{ℕ, String, Bool, true, false, some, ◌≡◌, refl, sym, ◌∙◌, ap, arith, if◌then◌else◌}
use entropy.Base.Text.{◌<>◌}
use entropy.Io.{Result, ok, err, Call, call}
use entropy.Io.Invert.{bind-eq-ok, attempt-eq-ok, lift-eq-ok, pure-eq-ok}
use entropy.Resource.{Resource, validate}
use entropy.Module.{ActionRequest, ExpandedResource}
use entropy.Core.{Service, now, generate_module_spec, get_resource}
use entropy.Core.Write.{
  is_create, merge_labels, plan_failure, upsert_failure, plan_change, upsert, stamp, persist,
  exec_action,
}

stamp-updated :
    (res : Resource) (act : ActionRequest) (v : Resource) (t : ℕ) (r : Resource)
    → r ≡ stamp res act v t
    → (r.updated_at ≡ t) × (r.updated_by ≡ act.user_id)
unfolding stamp
stamp-updated res act v t r e = ground arith

stamp-creation :
    (res : Resource) (act : ActionRequest) (v : Resource) (t : ℕ) (r : Resource)
    → r ≡ stamp res act v t
    → is_create act.name ≡ false
    → r.created_at ≡ res.created_at
unfolding stamp
stamp-creation res act v t r e other = ground arith

module _ {W : Type 0} (svc : Service W) where
  -- the store's answer to a resource that is written with a revision
  abbrev pub write : ActionRequest → Resource → Call W (Unit {0})
  write act r =
      if is_create act.name
      then svc.store.create r
      else svc.store.update r true ("action:" <> act.name)

  -- What is behind a resource that `execAction` returned for an action on `res` in a world: the
  -- driver has planned for `res` with its dependencies, which are read from that world on, and the
  -- time is that of the clock after the plan, just before the write.
  pub record Executed (fuel : ℕ) (start : W) (res : Resource) (act : ActionRequest) (dry_run : Bool)
      (r : Resource) : Type 0 where
    pub spec : ExpandedResource
    pub before : W
    pub after : W
    pub planned : Resource
    pub valid : Resource
    pub expanded : generate_module_spec (get_resource svc fuel) res start ≡ some (ok spec, before)
    pub plan : svc.module_svc.plan_action spec act before ≡ (ok planned, after)
    pub checked :
        validate
          (is_create act.name)
          (record planned { labels = merge_labels res.labels act.labels })
        ≡ ok valid
    pub stamped : r ≡ stamp res act valid (svc.clock after).0
    pub updated : (r.updated_at ≡ (svc.clock after).0) × (r.updated_by ≡ act.user_id)
    pub creation : is_create act.name ≡ false → r.created_at ≡ res.created_at
    pub stored : dry_run ≡ false → (write act r (svc.clock after).1).0 ≡ ok tt

  plan_failure-eq-ok : (a : Result Resource) (p : Resource) → plan_failure a ≡ ok p → a ≡ ok p
  unfolding plan_failure
  plan_failure-eq-ok (ok q) p e = e
  plan_failure-eq-ok (err x) p e = ground arith

  upsert_failure-eq-ok :
      (c : Bool) (urn : String) (a : Result (Unit {0})) → upsert_failure c urn a ≡ ok tt → a ≡ ok tt
  unfolding upsert_failure
  upsert_failure-eq-ok c urn (ok _) e = refl
  upsert_failure-eq-ok c urn (err x) e = ground arith

  plan_change-eq-ok :
      (fuel : ℕ) (res : Resource) (act : ActionRequest) (w w' : W) (v : Resource)
      → plan_change svc fuel res act w ≡ some (ok v, w')
      → (spec : ExpandedResource) × (w1 : W) × (planned : Resource) × (generate_module_spec
            (get_resource svc fuel)
            res
            w
          ≡ some (ok spec, w1))
        × (svc.module_svc.plan_action spec act w1 ≡ (ok planned, w'))
        × (validate
              (is_create act.name)
              (record planned { labels = merge_labels res.labels act.labels })
            ≡ ok v)
  unfolding plan_change
  plan_change-eq-ok fuel res act w w' v h =
      let (spec, w1, read, h1) =
        bind-eq-ok (generate_module_spec (get_resource svc fuel) res) _ w h in
      let (answer, w2, asked, h2) = bind-eq-ok _ _ w1 h1 in
      let (planned, w3, lifted, h3) = bind-eq-ok _ _ w2 h2 in
      let (valid, ended) = lift-eq-ok _ w3 h3 in
      let (good, kept) = lift-eq-ok _ w2 lifted in
      let answered = attempt-eq-ok _ w1 asked in
      let is_ok = plan_failure-eq-ok answer planned good in
      (
        spec,
        w1,
        planned,
        read,
        unfold call in (ground (arith, is_ok, answered, ended, kept)),
        valid,
      )

  persist-eq-ok :
      (r : Resource) (act : ActionRequest) (dry_run : Bool) (w w' : W)
      → persist svc r act dry_run w ≡ some (ok tt, w')
      → dry_run ≡ false
      → (write act r w).0 ≡ ok tt
  unfolding persist upsert
  persist-eq-ok r act true w w' h no_dry = cc
  persist-eq-ok r act false w w' h no_dry =
      let (answer, w1, asked, h1) = bind-eq-ok _ _ w h in
      let (good, _) = lift-eq-ok _ w1 h1 in
      let answered = attempt-eq-ok _ w asked in
      let is_ok = upsert_failure-eq-ok _ _ answer good in
      unfold call in (ground (arith, is_ok, answered))

  now-eq-ok :
      (w w' : W) (t : ℕ)
      → now svc w ≡ some (ok t, w')
      → (t ≡ (svc.clock w).0) × (w' ≡ (svc.clock w).1)
  unfolding now
  now-eq-ok w w' t e = ground arith

  pub exec_action-Executed :
      (fuel : ℕ) (res : Resource) (act : ActionRequest) (dry_run : Bool) (w w' : W) (r : Resource)
      → exec_action svc fuel res act dry_run w ≡ some (ok r, w')
      → Executed fuel w res act dry_run r
  unfolding exec_action
  exec_action-Executed fuel res act dry_run w w' r h =
      let (valid, w1, planned, h1) = bind-eq-ok _ _ w h in
      let (t, w2, clocked, h2) = bind-eq-ok (now svc) _ w1 h1 in
      let (timed, moved) = now-eq-ok w1 w2 t clocked in
      let (_, w3, persisted, h3) = bind-eq-ok _ _ w2 h2 in
      let (_, w4, _, h4) = bind-eq-ok _ _ w3 h3 in
      let (_, w5, _, h5) = bind-eq-ok _ _ w4 h4 in
      let (same, _) = pure-eq-ok _ w5 h5 in
      let (spec, w0, p, expanded, plan, checked) =
        plan_change-eq-ok fuel res act w w1 valid planned in
      record {
        spec = spec;
        before = w0;
        after = w1;
        planned = p;
        valid = valid;
        expanded = expanded;
        plan = plan;
        checked = checked;
        stamped = sym same ∙ ap (stamp res act valid) timed;
        updated = stamp-updated res act valid _ r (sym same ∙ ap (stamp res act valid) timed);
        creation = stamp-creation res act valid t r (sym same);
        stored =
            λ no_dry. rw (← same, ← moved) (persist-eq-ok _ act dry_run w2 w3 persisted no_dry);
      }
