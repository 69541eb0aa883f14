-- ===== src/Core/Write/Created.antt =====
-- `CreateResource` of core/write.go.
use entropy.Base.{ℕ, true, false, some, List, ◌≡◌, refl, ◌∙◌, ap, arith, eq_iff}
use entropy.Io.{ok}
use entropy.Io.Invert.{bind-eq-ok, lift-eq-ok}
use entropy.Resource.{Resource, generate_urn}
use entropy.Resource.Naming.{matches_naming, matches_naming_digits}
use entropy.Resource.Urn.{IsValid, validate-IsValid}
use entropy.Module.{ActionRequest, create_action}
use entropy.Core.{Service}
use entropy.Core.Write.{Options, dry_run_of, is_create, merge_labels, stamp, create_resource}
use entropy.Core.Write.Executed.{exec_action-Executed}

-- the fields that creation stamps
stamp_create :
    (res : Resource) (act : ActionRequest) (v : Resource) (t : ℕ) (r : Resource)
    → act.name ≡ create_action
    → r ≡ stamp res act v t
    → (r.kind ≡ v.kind)
      × (r.name ≡ v.name)
      × (r.project ≡ v.project)
      × (r.urn ≡ v.urn)
      × (r.created_by ≡ act.user_id)
      × (r.updated_by ≡ act.user_id)
      × (r.created_at ≡ r.updated_at)
      × (r.labels ≡ v.labels)
unfolding stamp is_create
stamp_create res act v t r named e = ground (arith, eq_iff act.name create_action)

is_create-create : is_create create_action ≡ true
unfolding is_create
is_create-create = refl

created_from :
    {S : Type 0} (req v plan valid r : Resource)
    → IsValid true req v
    → IsValid true plan valid
    → plan.labels ≡ merge_labels v.labels v.labels
    → (r.kind ≡ valid.kind)
      × (r.name ≡ valid.name)
      × (r.project ≡ valid.project)
      × (r.urn ≡ valid.urn)
      × (r.created_by ≡ v.created_by)
      × (r.updated_by ≡ v.created_by)
      × (r.created_at ≡ r.updated_at)
      × (r.labels ≡ valid.labels)
    → S
    → (matches_naming r.kind ≡ true)
      × (matches_naming_digits r.name ≡ true)
      × (matches_naming r.project ≡ true)
      × (r.urn ≡ generate_urn r.kind r.project r.name)
      × (r.created_by ≡ req.created_by)
      × (r.updated_by ≡ req.created_by)
      × (r.created_at ≡ r.updated_at)
      × (r.labels ≡ merge_labels req.labels req.labels)
      × S
created_from req v plan valid r first second merged stamped stored =
    let (kind, name, project, urn, by, last, times, labels) = stamped in
    (
      ap matches_naming kind ∙ second.kind,
      ap matches_naming_digits name ∙ second.name,
      ap matches_naming project ∙ second.project,
      cc (urn, second.urn, kind, project, name),
      by ∙ first.created_by,
      last ∙ first.created_by,
      times,
      labels ∙ second.labels ∙ merged ∙ ap (λ l. merge_labels l l) first.labels,
      stored,
    )

-- If `CreateResource` returns a resource, then it has names that match the patterns and the URN that
-- they generate, its creator and last updater are the creator of the request, its times of creation
-- and of update are the same, its labels are those of the request without the empty ones, and,
-- unless it is a dry run, the store has accepted exactly this resource as a new one.
pub create_resource-eq-ok :
    {W : Type 0} (svc : Service W) (fuel : ℕ) (req : Resource) (opts : List Options) (w w' : W)
    (r : Resource)
    → create_resource svc fuel req opts w ≡ some (ok r, w')
    → (matches_naming r.kind ≡ true)
      × (matches_naming_digits r.name ≡ true)
      × (matches_naming r.project ≡ true)
      × (r.urn ≡ generate_urn r.kind r.project r.name)
      × (r.created_by ≡ req.created_by)
      × (r.updated_by ≡ req.created_by)
      × (r.created_at ≡ r.updated_at)
      × (r.labels ≡ merge_labels req.labels req.labels)
      × (dry_run_of false opts ≡ false → (u : W) × ((svc.store.create r u).0 ≡ ok tt))
unfolding create_resource
create_resource-eq-ok svc fuel req opts w w' r h =
    let (v, w1, lifted, h1) = bind-eq-ok _ _ w h in
    let (checked, _) = lift-eq-ok _ w lifted in
    let done = exec_action-Executed svc fuel _ _ _ w1 w' r h1 in
    created_from req v _ done.valid r (validate-IsValid true req v checked)
      (validate-IsValid true _ done.valid (rw is_create-create at done.checked)) refl
      (stamp_create _ _ done.valid _ r refl done.stamped)
      (λ no_dry. (_, rw is_create-create at (done.stored no_dry)))
