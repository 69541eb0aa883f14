-- ===== src/Core/Write/DryRun.antt =====
-- A dry run of an action (core/write.go).
use entropy.Base.{ℕ, zero, suc, String, true, false, not, some, List, [], ◌∷◌, ◌≡◌}
use entropy.Base.Dict.{Dict}
use entropy.Io.{Result, ok, Go, call}
use entropy.Io.Keeps.{
  Keeps, Keeps-pure, Keeps-fail, Keeps-lift, Keeps-call, Keeps-attempt, Keeps-bind, Keeps-if,
}
use entropy.Resource.{RawMessage, Resource, is_terminal, bytes_equal}
use entropy.Module.{ActionRequest, ExpandedResource, ResolvedDependency}
use entropy.Core.{
  Service, SyncStatus, now, count, resolve_dependencies, generate_module_spec, refresh_output,
  get_resource,
}
use entropy.Core.Write.{Options, dry_run_of, plan_change, persist, exec_action, apply_action}

-- `P` survives what reading and planning do: the calls of the driver, the clock, the counters, and
-- the writes of a refreshed output, which make no revision.
pub record SurvivesReads {W : Type 0} (svc : Service W) (P : W → Type 0) : Type 0 where
  pub get_by_urn : (urn : String) (w : W) → P w → P (svc.store.get_by_urn urn w).1
  pub update_output : (r : Resource) (w : W) → P w → P (svc.store.update r false "" w).1
  pub get_output : (spec : ExpandedResource) (w : W) → P w → P (svc.module_svc.get_output spec w).1
  pub plan_action :
      (spec : ExpandedResource) (act : ActionRequest) (w : W)
      → P w
      → P (svc.module_svc.plan_action spec act w).1
  pub clock : (w : W) → P w → P (svc.clock w).1
  pub setup_counter : (c : SyncStatus) (w : W) → P w → P (svc.setup_counter c w).1
  pub add_counter : (c : SyncStatus) (urn : String) (w : W) → P w → P (svc.add_counter c urn w)

module _ {W : Type 0} (svc : Service W) (P : W → Type 0) (s : SurvivesReads svc P) where
  now-Keeps : Keeps P (now svc)
  unfolding now
  now-Keeps = (unfold call in Keeps-call (λ w. let (t, u) = svc.clock w in (ok t, u)) s.clock)

  count-Keeps : (c : SyncStatus) (urn : String) → Keeps P (count svc c urn)
  unfolding count
  count-Keeps c urn =
      (unfold call in Keeps-call (λ w. (ok tt, svc.add_counter c urn w)) (s.add_counter c urn))

  resolve-Keeps :
      (get : String → Go W Resource)
      → ((u : String) → Keeps P (get u))
      → (res : Resource) (deps : Dict String) (acc : Dict ResolvedDependency)
      → Keeps P (resolve_dependencies get res deps acc)
  unfolding resolve_dependencies
  resolve-Keeps get k res [] acc = Keeps-pure acc
  resolve-Keeps get k res ((key, urn) ∷ deps) acc =
      Keeps-bind (Keeps-attempt (k urn))
        (λ found. Keeps-bind (Keeps-lift _) (λ dep. resolve-Keeps get k res deps _))

  spec-Keeps :
      (get : String → Go W Resource)
      → ((u : String) → Keeps P (get u))
      → (res : Resource) → Keeps P (generate_module_spec get res)
  unfolding generate_module_spec
  spec-Keeps get k res =
      Keeps-bind (resolve-Keeps get k res res.spec.dependencies []) (λ deps. Keeps-pure _)

  refresh-Keeps : (res : Resource) (output : RawMessage) → Keeps P (refresh_output svc res output)
  unfolding refresh_output
  refresh-Keeps res output =
      Keeps-if (bytes_equal res.state.output output) (λ _. Keeps-pure res)
        (λ _. Keeps-bind (Keeps-call _ (s.update_output _)) (λ _. Keeps-pure _))

  get-Keeps : (fuel : ℕ) (urn : String) → Keeps P (get_resource svc fuel urn)
  unfolding get_resource
  get-Keeps zero urn = record { at = λ w p r w' e. cc }
  get-Keeps (suc fuel) urn = record {
    at =
        (Keeps-bind (Keeps-attempt (Keeps-call _ (s.get_by_urn urn))) (λ found.
          Keeps-bind (Keeps-lift _) (λ res. Keeps-bind (spec-Keeps _ (get-Keeps fuel) res) (λ spec.
            Keeps-bind (Keeps-call _ (s.get_output spec))
              (λ output. refresh-Keeps res output))))).at;
  }

  plan-Keeps :
      (fuel : ℕ) (res : Resource) (act : ActionRequest) → Keeps P (plan_change svc fuel res act)
  unfolding plan_change
  plan-Keeps fuel res act = Keeps-bind (spec-Keeps _ (get-Keeps fuel) res) (λ spec.
      Keeps-bind (Keeps-attempt (Keeps-call _ (s.plan_action spec act)))
        (λ answer. Keeps-bind (Keeps-lift _) (λ planned. Keeps-lift _)))

  exec-Keeps :
      (fuel : ℕ) (res : Resource) (act : ActionRequest)
      → Keeps P (exec_action svc fuel res act true)
  unfolding exec_action persist
  exec-Keeps fuel res act = Keeps-bind (plan-Keeps fuel res act) (λ planned.
      Keeps-bind now-Keeps (λ t. Keeps-bind (Keeps-pure tt) (λ _.
        Keeps-bind (Keeps-call _ (s.setup_counter _))
          (λ _. Keeps-bind (count-Keeps _ _) (λ _. Keeps-pure _)))))

  -- A dry run of an action, whether it succeeds or fails, keeps every property of the world that the
  -- calls of reading, of planning, of the clock and of the counters keep: none of the calls that create
  -- a resource or write a revision is made.
  pub apply_action-dry_run :
      (fuel : ℕ) (urn : String) (act : ActionRequest) (opts : List Options)
      → dry_run_of false opts ≡ true
      → (w w' : W) (r : Result Resource) → P w
      → apply_action svc fuel urn act opts w ≡ some (r, w')
      → P w'
  unfolding apply_action
  apply_action-dry_run fuel urn act opts dry w w' r p e =
      (Keeps-bind (get-Keeps fuel urn) (λ res.
          Keeps-if (not (is_terminal res.state)) (λ _. Keeps-fail _)
            (λ _. rw dry (exec-Keeps fuel res act)))).at
        w p r w' e
