-- ===== src/Core/Write.antt =====
-- core/write.go: the operations that change a resource.
pub mod Labels
pub mod Executed
pub mod Created
pub mod DryRun
use entropy.Base.{
  ℕ, String, Bool, true, false, not, ◌&&◌, none, some, List, [], ◌∷◌, ◌==◌, if◌then◌else◌, is_empty,
}
use entropy.Base.Dict.{Dict, GoMap, entries, insert, remove, copy_into}
use entropy.Base.Text.{◌<>◌}
use entropy.Errors.{
  own, err_invalid, err_not_found, err_conflict, err_internal, err_unsupported, with_msgf,
  with_causef, is, go_text,
}
use entropy.Io.{Result, ok, err, Go, pure, fail, call, lift, attempt, ◌>>=◌, ◌>>◌}
use entropy.Resource.{Resource, UpdateRequest, raw_is_empty, is_terminal, validate}
use entropy.Module.{ActionRequest, create_action, update_action, delete_action}
use entropy.Core.{Service, pending_counter, now, count, generate_module_spec, get_resource}

pub record Options : Type 0 where
  pub dry_run : Bool

-- `for _, opt := range resourceOpts { dryRun = opt.DryRun }`
unfoldable pub dry_run_of : Bool → List Options → Bool
dry_run_of dry_run [] = dry_run
dry_run_of dry_run (opt ∷ opts) = dry_run_of opt.dry_run opts

unfoldable pub is_create : String → Bool
is_create name = name == create_action

-- `for k, v := range res { if v == "" { delete(res, k) } }`, over the entries that `range` visits
unfoldable pub drop_empty : Dict String → Dict String → Dict String
drop_empty [] res = res
drop_empty ((k, v) ∷ m) res = drop_empty m (if v == "" then remove k res else res)

unfoldable pub merge_labels : GoMap String → GoMap String → GoMap String
merge_labels none none = none
merge_labels m1 m2 =
    let res = copy_into (copy_into [] (entries m1)) (entries m2) in some (drop_empty res res)

-- the two error branches of `planChange`
unfoldable pub plan_failure : Result Resource → Result Resource
plan_failure (ok planned) = ok planned
plan_failure (err e) =
    if is e (own err_invalid)
    then err e
    else err (own (with_causef (with_msgf err_internal "plan() failed") (go_text e)))

-- the error branches of `upsert`
unfoldable pub upsert_failure : Bool → String → Result (Unit {0}) → Result (Unit {0})
upsert_failure create urn (ok _) = ok tt
upsert_failure create urn (err e) =
    if create && is e (own err_conflict)
    then err (own (with_msgf err_conflict ("resource with urn '" <> urn <> "' already exists")))
    else if not create && is e (own err_not_found)
    then err (own (with_msgf err_not_found ("resource with urn '" <> urn <> "' does not exist")))
    else err (own (with_causef err_internal (go_text e)))

-- who and when, in `execAction`
unfoldable pub stamp : Resource → ActionRequest → Resource → ℕ → Resource
stamp res act planned t =
    if is_create act.name
    then record planned {
      created_at = t;
      updated_at = t;
      created_by = act.user_id;
      updated_by = act.user_id;
    }
    else record planned { created_at = res.created_at; updated_at = t; updated_by = act.user_id }

module _ {W : Type 0} (svc : Service W) where
  unfoldable pub plan_change : ℕ → Resource → ActionRequest → Go W Resource
  plan_change fuel res act = do
    spec ← generate_module_spec (get_resource svc fuel) res
    result ← attempt (call (svc.module_svc.plan_action spec act))
    planned ← lift (plan_failure result)
    lift (
        validate (is_create act.name)
          (record planned { labels = merge_labels res.labels act.labels }))

  unfoldable pub upsert : Resource → Bool → Bool → String → Go W (Unit {0})
  upsert res create save_revision reason = do
    result ←
        attempt (
          call (if create then svc.store.create res else svc.store.update res save_revision reason))
    lift (upsert_failure create res.urn result)

  unfoldable pub persist : Resource → ActionRequest → Bool → Go W (Unit {0})
  persist planned act dry_run =
      if dry_run then pure tt else upsert planned (is_create act.name) true ("action:" <> act.name)

  unfoldable pub exec_action : ℕ → Resource → ActionRequest → Bool → Go W Resource
  exec_action fuel res act dry_run = do
    planned ← plan_change fuel res act
    t ← now svc
    let stamped = stamp res act planned t
    persist stamped act dry_run
    call (svc.setup_counter pending_counter)
    count svc pending_counter res.urn
    pure stamped

  unfoldable pub apply_action : ℕ → String → ActionRequest → List Options → Go W Resource
  apply_action fuel urn act opts = do
    res ← get_resource svc fuel urn
    if not (is_terminal res.state)
        then fail (
            own (
              with_msgf err_invalid (
                "cannot perform '" <> act.name <> "' on resource in '" <> res.state.status <> "'")))
        else exec_action fuel res act (dry_run_of false opts)

  unfoldable pub create_resource : ℕ → Resource → List Options → Go W Resource
  create_resource fuel res opts = do
    valid ← lift (validate true res)
    let act : ActionRequest = record {
      name = create_action;
      params = valid.spec.configs;
      labels = valid.labels;
      user_id = valid.created_by;
    }
    exec_action fuel (record valid { spec = record valid.spec { configs = none } }) act
        (dry_run_of false opts)

  unfoldable pub update_resource : ℕ → String → UpdateRequest → List Options → Go W Resource
  update_resource fuel urn req opts =
      if not (is_empty req.spec.dependencies)
      then fail (own (with_msgf err_unsupported "updating dependencies is not supported"))
      else if raw_is_empty req.spec.configs
      then fail (own (with_msgf err_invalid "no config is being updated, nothing to do"))
      else apply_action fuel urn
          (record {
            name = update_action;
            params = req.spec.configs;
            labels = req.labels;
            user_id = req.user_id;
          })
          opts

  unfoldable pub delete_resource : ℕ → String → Go W (Unit {0})
  delete_resource fuel urn = do
    apply_action fuel urn
        (record { name = delete_action; params = none; labels = none; user_id = "" })
        (record { dry_run = false } ∷ [])
    pure tt
