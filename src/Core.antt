-- ===== src/Core.antt =====
-- core/core.go and core/read.go: the resource service over a store and a module service, which are
-- interfaces to it, and its reading operations.
pub mod Write
pub mod Listed
pub mod Monotone
pub mod Dependencies
pub mod Termination
pub mod Sync
use entropy.Base.{
  ℕ, zero, suc, String, Bool, true, false, not, Option, none, some, List, [], ◌∷◌, ◌==◌, length,
  if◌then◌else◌,
}
use entropy.Base.Dict.{Dict, GoMap, insert}
use entropy.Base.Text.{◌<>◌}
use entropy.Errors.{
  GoError, own, err_invalid, err_not_found, err_internal, err_unsupported, with_msgf, with_causef,
  is, go_text,
}
use entropy.Io.{Result, ok, err, Call, Go, pure, call, lift, attempt, ◌>>=◌, ◌>>◌}
use entropy.Resource.{RawMessage, bytes_equal, Resource, State, Revision, status_completed}
use entropy.Resource.Filter.{Filter, apply}
use entropy.Module.{ActionRequest, ExpandedResource, ResolvedDependency, LogChunk}

-- core/sync.go: the counters of the service
pub data SyncStatus : Type 0 where
  pending_counter completed_counter error_counter retry_counter : SyncStatus

-- The interface `resource.Store`, without the hooks, which the service never passes.
pub record Store (W : Type 0) : Type 0 where
  pub get_by_urn : String → Call W Resource
  pub list : Filter → Bool → Call W (List Resource)
  pub create : Resource → Call W (Unit {0})
  pub update : Resource → Bool → String → Call W (Unit {0})
  pub revisions : String → Call W (List Revision)

-- The interface `ModuleService`. A stream of logs is the list of its chunks.
pub record ModuleService (W : Type 0) : Type 0 where
  pub plan_action : ExpandedResource → ActionRequest → Call W Resource
  pub sync_state : ExpandedResource → Call W State
  pub stream_logs : ExpandedResource → GoMap String → Call W (List LogChunk)
  pub get_output : ExpandedResource → Call W RawMessage

-- The service; `setup_counter` and `add_counter` are the calls of the telemetry library. A limit of
-- retries that is not positive is 0 here: the code treats both alike.
pub record Service (W : Type 0) : Type 0 where
  pub store : Store W
  pub module_svc : ModuleService W
  pub clock : W → ℕ × W
  pub sync_backoff : ℕ
  pub max_sync_retries : ℕ
  pub setup_counter : SyncStatus → Call W (Unit {0})
  pub add_counter : SyncStatus → String → W → W

-- `svc.clock()`
unfoldable pub now : {W : Type 0} → Service W → Go W ℕ
now svc w = let (t, w') = svc.clock w in some (ok t, w')

unfoldable pub count : {W : Type 0} → Service W → SyncStatus → String → Go W (Unit {0})
count svc counter urn w = some (ok tt, svc.add_counter counter urn w)

-- the checks on one dependency in `generateModuleSpec`
unfoldable pub check_dependency : Resource → String → Result Resource → Result ResolvedDependency
check_dependency res urn (err e) =
    if is e (own err_not_found)
    then err (own (with_msgf err_invalid ("dependency '" <> urn <> "' not found")))
    else err e
check_dependency res urn (ok d) =
    if not (d.state.status == status_completed)
    then err (
        own (
          with_msgf err_invalid
            ("dependency '" <> urn <> "' is in incomplete state (" <> d.state.status <> ")")))
    else if not (d.project == res.project)
    then err (
        own (
          with_causef (with_msgf err_invalid ("dependency '" <> urn <> "' not found"))
            "cross-project references not allowed"))
    else ok (record { kind = d.kind; output = d.state.output })

module _ {W : Type 0} where
  -- the loop of `generateModuleSpec`, over the calls of `GetResource` that it makes
  unfoldable pub resolve_dependencies :
      (String → Go W Resource)
      → Resource
      → Dict String
      → Dict ResolvedDependency
      → Go W (Dict ResolvedDependency)
  unfolding check_dependency
  resolve_dependencies get res [] acc = pure acc
  resolve_dependencies get res ((key, urn) ∷ deps) acc = do
    found ← attempt (get urn)
    dep ← lift (check_dependency res urn found)
    resolve_dependencies get res deps (insert key dep acc)

  unfoldable pub generate_module_spec : (String → Go W Resource) → Resource → Go W ExpandedResource
  generate_module_spec get res = do
    deps ← resolve_dependencies get res res.spec.dependencies []
    pure (record { resource = res; dependencies = deps })

abbrev pub not_found_for : String → Result Resource → Result Resource
not_found_for urn (ok r) = ok r
not_found_for urn (err e) =
    if is e (own err_not_found)
    then err (own (with_msgf err_not_found ("resource with urn '" <> urn <> "' not found")))
    else err (own (with_causef err_internal (go_text e)))

-- `return nil, errors.ErrInternal.WithCausef("%s", err.Error())`
abbrev pub internal : {A : Type 0} → Result A → Result A
internal (ok a) = ok a
internal (err e) = err (own (with_causef err_internal (go_text e)))

-- the error handling of `GetLog`
abbrev pub supported : Resource → Result (List LogChunk) → Result (List LogChunk)
supported res (ok chunks) = ok chunks
supported res (err e) =
    if is e (own err_unsupported)
    then err (
        own
          (with_msgf err_unsupported ("log streaming not supported for kind '" <> res.kind <> "'")))
    else err e

abbrev pub set_output : RawMessage → Resource → Resource
set_output output r = record r { state = record r.state { output = output } }

module _ {W : Type 0} (svc : Service W) where
  -- the end of `GetResource`: an output that changed is written back
  unfoldable pub refresh_output : Resource → RawMessage → Go W Resource
  refresh_output res output =
      if bytes_equal res.state.output output
      then pure res
      else do call (svc.store.update (set_output output res) false ""); pure (set_output output res)

  -- The fuel bounds the depth of the dependencies below the resource.
  unfoldable pub get_resource : ℕ → String → Go W Resource
  get_resource zero urn w = none
  get_resource (suc fuel) urn w =
      (do
        found ← attempt (call (svc.store.get_by_urn urn))
        res ← lift (not_found_for urn found)
        spec ← generate_module_spec (get_resource fuel) res
        output ← call (svc.module_svc.get_output spec)
        refresh_output res output)
        w

  -- The count of `PagedResource` is an `int32`: it is exact below 2 ^ 31 resources.
  unfoldable pub list_resources : Filter → Bool → Go W (ℕ × List Resource)
  list_resources filter with_spec_configs = do
    found ← attempt (call (svc.store.list filter with_spec_configs))
    resources ← lift (internal found)
    let matching = apply filter resources
    pure (length matching, matching)

  unfoldable pub get_log : ℕ → String → GoMap String → Go W (List LogChunk)
  get_log fuel urn filter = do
    res ← get_resource fuel urn
    spec ← generate_module_spec (get_resource fuel) res
    stream ← attempt (call (svc.module_svc.stream_logs spec filter))
    lift (supported res stream)

  unfoldable pub get_revisions : String → Go W (List Revision)
  get_revisions urn = do found ← attempt (call (svc.store.revisions urn)); lift (internal found)
