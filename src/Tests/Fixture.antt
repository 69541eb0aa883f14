-- ===== src/Tests/Fixture.antt =====
-- A service over a store in memory, and a few resources.
use mathlib.Core.Path.{subst, fun_ext}
use entropy.Base.{
  List, Bool-cases, ap, ◌∙◌, ℕ, suc, ◌<◌, String, Bool, true, false, Option, none, some, [], ◌∷◌,
  ◌==◌, ◌≡◌, refl, arith, eq_iff, if◌then◌else◌, inl, inr, All,
}
use entropy.Base.Dict.{Dict, lookup, insert, is_some, lookup-insert}
use entropy.Errors.{own, err_not_found, err_conflict}
use entropy.Io.{Result, ok, err, Call}
use entropy.Resource.{RawMessage, Resource, State, status_completed, status_pending, generate_urn}
use entropy.Module.{ActionRequest, ExpandedResource}
use entropy.Core.{Service}
use entropy.Core.Termination.{KeepsDependencies, IsRanked}

pub record World : Type 0 where
  pub resources : Dict Resource
  pub time : ℕ

-- a resource is stored under its URN
abbrev pub stored_at : String → Option Resource → Result Resource
stored_at urn none = err (own err_not_found)
stored_at urn (some r) = ok (record r { urn = urn })

abbrev pub get_by_urn : String → Call World Resource
get_by_urn urn w = (stored_at urn (lookup urn w.resources), w)

abbrev pub put : Resource → World → World
put r w = record w { resources = insert r.urn r w.resources }

abbrev pub create : Resource → Call World (Unit {0})
create r w =
    if is_some (lookup r.urn w.resources) then (err (own err_conflict), w) else (ok tt, put r w)

abbrev pub updated : Bool → Resource → World → Result (Unit {0}) × World
updated true r w = (ok tt, put r w)
updated false r w = (err (own err_not_found), w)

abbrev pub update : Resource → Bool → String → Call World (Unit {0})
update r rev reason w = updated (is_some (lookup r.urn w.resources)) r w

abbrev pub state_of : String → RawMessage → State
state_of status output = record {
  status = status;
  output = output;
  module_data = none;
  next_sync_at = none;
  sync_result = record { retries = 0; last_error = "" };
}

abbrev values : Dict Resource → List Resource
values [] = []
values ((urn, r) ∷ rest) = r ∷ values rest

-- The driver plans the parameters as the new configuration, and every sync completes.
abbrev pub plan_action : ExpandedResource → ActionRequest → Call World Resource
plan_action spec act w = (
  ok (record spec.resource {
    spec = record spec.resource.spec { configs = act.params };
    state = state_of status_pending spec.resource.state.output;
  }),
  w,
)

abbrev pub memory : Service World
memory = record {
  store = record {
    get_by_urn = get_by_urn;
    list = λ f with_configs w. (ok (values w.resources), w);
    create = create;
    update = update;
    revisions = λ urn w. (ok [], w);
  };
  module_svc = record {
    plan_action = plan_action;
    sync_state = λ spec w. (ok (state_of status_completed spec.resource.state.output), w);
    stream_logs = λ spec filter w. (ok [], w);
    get_output = λ spec w. (ok spec.resource.state.output, w);
  };
  clock = λ w. (w.time, record w { time = suc w.time });
  sync_backoff = 60;
  max_sync_retries = 3;
  setup_counter = λ c w. (ok tt, w);
  add_counter = λ c urn w. w;
}

abbrev pub resource_of : String → String → Dict String → Resource
resource_of kind name deps = record {
  urn = generate_urn kind "shop" name;
  kind = kind;
  name = name;
  project = "shop";
  labels = some (("team", "data") ∷ []);
  created_at = 1;
  updated_at = 1;
  updated_by = "ann";
  created_by = "ann";
  spec = record { configs = some "{}"; dependencies = deps };
  state = state_of status_completed (some "{\"host\":\"k1\"}");
}

abbrev pub cluster : Resource
cluster = resource_of "kubernetes" "k1" []

abbrev pub firehose : Resource
firehose = resource_of "firehose" "orders" (("kube_cluster", "orn:entropy:kubernetes:shop:k1") ∷ [])

abbrev pub cluster_urn : String
cluster_urn = "orn:entropy:kubernetes:shop:k1"

abbrev pub firehose_urn : String
firehose_urn = "orn:entropy:firehose:shop:orders"

abbrev pub world : World
world = record { resources = (cluster_urn, cluster) ∷ (firehose_urn, firehose) ∷ []; time = 10 }

-- a resource that nobody has created yet
abbrev pub request : Resource
request = record (resource_of "kubernetes" "k2" []) { urn = "" }

abbrev pub scale_up : ActionRequest
scale_up = record {
  name = "scale";
  params = some "{\"replicas\":2}";
  labels = none;
  user_id = "bob";
}

abbrev pub dependencies_of : Option Resource → Dict String
dependencies_of none = []
dependencies_of (some r) = r.spec.dependencies

abbrev pub deps_of : World → String → Dict String
deps_of w urn = dependencies_of (lookup urn w.resources)

-- the cluster is below the firehose
abbrev pub rank : String → ℕ
rank urn = if urn == firehose_urn then 1 else 0

ranked_at :
    (urn : String) (a b : Bool)
    → (cluster_urn == urn) ≡ a
    → (firehose_urn == urn) ≡ b
    → All
        (λ dep. rank dep.1 < rank urn)
        (dependencies_of (if a then some cluster else if b then some firehose else none))
ranked_at urn true b e f = tt
ranked_at urn false true e f =
    let same : firehose_urn ≡ urn = (eq_iff firehose_urn urn).0 f in
    subst (λ u. All (λ dep. rank dep.1 < rank u) firehose.spec.dependencies) same (omega arith, tt)
ranked_at urn false false e f = tt

pub world-IsRanked : IsRanked rank (deps_of world)
unfolding lookup
world-IsRanked urn = ranked_at urn (cluster_urn == urn) (firehose_urn == urn) refl refl

read-IsStored :
    (urn : String) (o : Option Resource) (r : Resource)
    → stored_at urn o ≡ ok r
    → (r.urn ≡ urn) × (r.spec.dependencies ≡ dependencies_of o)
read-IsStored urn none r e = ground arith
read-IsStored urn (some s) r e = (ground arith, ground arith)

put-deps :
    (r : Resource) (w : World)
    → r.spec.dependencies ≡ deps_of w r.urn
    → (urn : String) → deps_of (put r w) urn ≡ deps_of w urn
put-deps r w h urn =
    ap dependencies_of (lookup-insert r.urn urn r w.resources) ∙ (elim (Bool-cases (r.urn == urn)) [
      | inl same ↦ rw same (h ∙ ap (deps_of w) ((eq_iff r.urn urn).0 same))
      | inr other ↦ rw other refl
    ])

update-deps :
    (r : Resource) (w : World) (b : Bool)
    → r.spec.dependencies ≡ deps_of w r.urn
    → deps_of (updated b r w).1 ≡ deps_of w
update-deps r w true h = fun_ext (put-deps r w h)
update-deps r w false h = refl

pub memory-KeepsDependencies : KeepsDependencies memory deps_of
memory-KeepsDependencies = record {
  read_keeps = λ urn w. refl;
  read_urn = λ urn w r e. read-IsStored urn (lookup urn w.resources) r e;
  update_keeps = λ r rev reason w h. update-deps r w (is_some (lookup r.urn w.resources)) h;
  output_keeps = λ spec w. refl;
}
