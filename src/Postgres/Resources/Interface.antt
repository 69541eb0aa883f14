-- ===== src/Postgres/Resources/Interface.antt =====
-- internal/store/postgres/ as the store of the resource service (core/): with it, the dependencies
-- that are stored are kept, so that `GetResource` returns.
use mathlib.Core.Path.{subst}
use entropy.Base.{ℕ, ◌<◌, String, Bool, some, [], ◌≡◌, refl, sym, ◌∙◌, ap, arith}
use entropy.Base.Dict.{Dict}
use entropy.Io.{Result, ok, err, Call}
use entropy.Io.Invert.{ok-inj}
use entropy.Resource.{Resource}
use entropy.Module.{ExpandedResource}
use entropy.Core
use entropy.Core.{Service, ModuleService, get_resource}
use entropy.Core.Termination.{KeepsDependencies, IsRanked, get_resource_total}
use entropy.Postgres.{Tables}
use entropy.Postgres.Gives.{Content, content, Ends, Gives}
use entropy.Postgres.Reading.{Reads}
use entropy.Postgres.Resources.{Store, resource_of, get_by_urn}
use entropy.Postgres.Resources.Writes.{create, update}
use entropy.Postgres.Resources.Listing.{list}
use entropy.Postgres.Revisions.{revisions}
use entropy.Postgres.Resources.Linked.{find_resource-urn}
use entropy.Postgres.Resources.Created.{IsOrdered, create-Gives}
use entropy.Postgres.Resources.Updated.{update-Gives}
use entropy.Postgres.Resources.Reads.{get_by_urn-Gives}
use entropy.Postgres.Resources.Kept.{
  stored_deps, deps_of_row, updated_deps, Unchanged-IsOrdered, Creates-IsOrdered, Updates-IsOrdered,
}
use entropy.Postgres.Resources.Readers.{list-Reads, revisions-Reads}

-- a call leaves the ids in order
abbrev pub KeepsOrder : {A : Type 0} → Call Tables A → Type 0
KeepsOrder m = (t : Tables) → IsOrdered (content t) → IsOrdered (content (m t).1)

module _ {A : Type 0} (E : Content → Type 0) (Q : A → Content → Type 0) where
  Ends-all :
      (R : Content → Type 0)
      → ((c : Content) → E c → R c)
      → ((a : A) (c : Content) → Q a c → R c)
      → (out : Result A × Tables) → Ends E Q out
      → R (content out.1)
  Ends-all R f g (ok a, t) h = g a (content t) h
  Ends-all R f g (err e, t) h = f (content t) h

  Ends-ok : (out : Result A × Tables) → Ends E Q out → (a : A) → out.0 ≡ ok a → Q a (content out.1)
  Ends-ok (ok b, t) h a e = subst (λ x. Q x (content t)) (ok-inj e) h
  Ends-ok (err x, t) h a e = ground arith

module _ {A : Type 0} {P E : Content → Type 0} {Q : A → Content → Type 0} {m : Call Tables A} where
  Gives-all :
      (R : Content → Type 0)
      → Gives P E m Q
      → ((c : Content) → E c → R c)
      → ((a : A) (c : Content) → Q a c → R c)
      → (t : Tables) → P (content t)
      → R (content (m t).1)
  Gives-all R gm f g t p = Ends-all E Q R f g (m t) (gm.at t p)

  Gives-ok :
      Gives P E m Q
      → (t : Tables) → P (content t)
      → (a : A) → (m t).0 ≡ ok a
      → Q a (content (m t).1)
  Gives-ok gm t p = Ends-ok E Q (m t) (gm.at t p)

pub Reads-KeepsOrder : {A : Type 0} {m : Call Tables A} → Reads m → KeepsOrder m
Reads-KeepsOrder g t o = subst IsOrdered (sym (g.at t)) o

module _ (st : Store) where
  pub get_by_urn_same : (urn : String) (t : Tables) → content (get_by_urn st urn t).1 ≡ content t
  get_by_urn_same urn t =
      Gives-all (λ c. c ≡ content t) (get_by_urn-Gives (content t) urn st) (λ c e. e) (λ r c h. h.0)
        t refl

  pub create-KeepsOrder : (r : Resource) → KeepsOrder (create st r [])
  create-KeepsOrder r t o =
      Gives-all IsOrdered (create-Gives st.json r (content t) o st refl)
        (λ c. Unchanged-IsOrdered (content t) c o)
        (λ a c. Creates-IsOrdered st.json r (content t) c o) t refl

  pub update-KeepsOrder :
      (r : Resource) (save : Bool) (reason : String) → KeepsOrder (update st r save reason [])
  update-KeepsOrder r save reason t o =
      Gives-all IsOrdered (update-Gives st.json r reason (content t) o st save refl)
        (λ c. Unchanged-IsOrdered (content t) c o)
        (λ a c (id, (u, saved)). Updates-IsOrdered st.json r id (content t) c o u) t refl

-- the tables, whose ids are in order, beside what the drivers act on
abbrev pub World : Type 0 → Type 0
World V = V × (t : Tables) × IsOrdered (content t)

module _ {V : Type 0} where
  -- a call of the store in the world
  abbrev pub over : {A : Type 0} → (m : Call Tables A) → KeepsOrder m → Call (World V) A
  over m keeps (v, t, o) = ((m t).0, (v, (m t).1, keeps t o))

  abbrev pub world_deps : World V → String → Dict String
  world_deps (v, t, o) = stored_deps t.rows

  module _ (st : Store) where
    -- `Store` as the store of the resource service
    abbrev pub resource_store : Core.Store (World V)
    resource_store = record {
      get_by_urn = λ urn.
          over (get_by_urn st urn) (λ t o. subst IsOrdered (sym (get_by_urn_same st urn t)) o);
      list = λ f b. over (list st f b) (Reads-KeepsOrder (list-Reads st f b));
      create = λ r. over (create st r []) (create-KeepsOrder st r);
      update =
          λ r save reason. over (update st r save reason []) (update-KeepsOrder st r save reason);
      revisions = λ urn. over (revisions urn) (Reads-KeepsOrder (revisions-Reads urn));
    }

    module _ (svc : Service (World V))
        (leaves : (spec : ExpandedResource) (w : World V)
          → world_deps (svc.module_svc.get_output spec w).1 ≡ world_deps w) where
      -- the service over the store
      abbrev pub over_store : Service (World V)
      over_store = record svc { store = resource_store }

      read_is_stored :
          (urn : String) (w : World V) (r : Resource)
          → (resource_store.get_by_urn urn w).0 ≡ ok r
          → (r.urn ≡ urn) × (r.spec.dependencies ≡ world_deps w urn)
      unfolding resource_of stored_deps
      read_is_stored urn (v, t, o) r e =
          let (same, s) = Gives-ok (get_by_urn-Gives (content t) urn st) t refl r e in
          (
            ap (λ x. x.urn) s.is_resource ∙ find_resource-urn urn t.rows.resources s.row s.is_found,
            ap (λ x. x.spec.dependencies) s.is_resource
                ∙ sym (ap (λ row. deps_of_row row t.rows) s.is_found),
          )

      update_keeps_deps :
          (r : Resource) (save : Bool) (reason : String) (w : World V)
          → r.spec.dependencies ≡ world_deps w r.urn
          → world_deps (resource_store.update r save reason w).1 ≡ world_deps w
      update_keeps_deps r save reason (v, t, o) kept =
          Gives-all (λ c. stored_deps c.rows ≡ stored_deps t.rows)
            (update-Gives st.json r reason (content t) o st save refl) (λ c h. ap stored_deps h.0)
            (λ a c (id, (u, saved)). updated_deps st.json r id (content t) c o.0 u kept) t refl

      over_store-KeepsDependencies : KeepsDependencies over_store world_deps
      over_store-KeepsDependencies = record {
        read_keeps = λ urn (v, t, o). ap (λ c. stored_deps c.rows) (get_by_urn_same st urn t);
        read_urn = read_is_stored;
        update_keeps = update_keeps_deps;
        output_keeps = leaves;
      }

      -- Over the tables of PostgreSQL, whatever faults come: if the dependencies that they hold have no
      -- cycle and the drivers leave them, then `GetResource` returns, with a resource or an error, as
      -- soon as the fuel exceeds the rank of the resource, and the tables hold the same dependencies.
      pub get_resource-over_store :
          (rank : String → ℕ) (w : World V)
          → IsRanked rank (world_deps w)
          → (fuel : ℕ) (urn : String) → rank urn < fuel
          → (r : Result Resource) × (w' : World V) × (get_resource over_store fuel urn w
              ≡ some (r, w'))
            × (world_deps w' ≡ world_deps w)
      get_resource-over_store rank w ranked fuel urn more =
          get_resource_total over_store world_deps over_store-KeepsDependencies rank w ranked fuel
            urn more
