-- ===== src/Postgres/Resources/Rewritten.antt =====
-- `Update` and then `GetByURN` of resource_store.go: what was written is read.
use mathlib.Core.Path.{subst}
use entropy.Base.{ℕ, String, Bool, some, [], ◌≡◌, refl, ◌∙◌, ap}
use entropy.Base.Dict.{entries, HasUniqueKeys, copy_into}
use entropy.Base.Dict.Keys.{copy_into_nil}
use entropy.Io.{ok}
use entropy.Resource.{Resource}
use entropy.Postgres.{ResourceRow, Tables}
use entropy.Postgres.Gives.{content, Ends}
use entropy.Postgres.Tags.{tags_of, tags_to_label_map}
use entropy.Postgres.Tags.Laws.{HasPlainKeys, tags_to_label_map-tags}
use entropy.Postgres.Resources.{Store, find_resource, deps_in, resource_of, get_by_urn}
use entropy.Postgres.Resources.Writes.{set_columns, update}
use entropy.Postgres.Resources.Linked.{if_same_id, changed, find_resource-urn}
use entropy.Postgres.Resources.Created.{IsOrdered, Unchanged}
use entropy.Postgres.Resources.Updated.{Updates, Saves, update-Gives}
use entropy.Postgres.Resources.Reads.{get_by_urn_calm}
use entropy.Postgres.Resources.Kept.{found_after}
use entropy.Postgres.Resources.Found.{IsEncoded, decode-encode, non_nils}

-- the resource that is read after an update: the kind, the name, the project and the creation are those
-- of the row that was there
abbrev pub rewritten : ResourceRow → ℕ → Resource → Resource
rewritten old time r = record (non_nils r) {
  kind = old.kind;
  name = old.name;
  project = old.project;
  created_at = old.created_at;
  updated_at = time;
  created_by = old.created_by;
}

module _ (st : Store) (r : Resource) (save_revision : Bool) (reason : String) (t t' : Tables)
    (ordered : IsOrdered (content t)) where
  updated_data :
      update st r save_revision reason [] t ≡ (ok tt, t')
      → (id : ℕ) × (Updates st.json r id (content t) (content t')
          × Saves save_revision r reason id (content t) (content t'))
  updated_data e =
      subst
        (Ends (Unchanged (content t)) (λ _ c.
          (id : ℕ) × (Updates st.json r id (content t) c
            × Saves save_revision r reason id (content t) c)))
        e ((update-Gives st.json r reason (content t) ordered st save_revision refl).at t refl)

  module _ (id : ℕ) (u : Updates st.json r id (content t) (content t')) (old : ResourceRow)
      (was : find_resource r.urn t.rows.resources ≡ some old) (same : old.id ≡ id)
      (plain : HasPlainKeys (entries r.labels)) (unique : HasUniqueKeys (entries r.labels))
      (deps_unique : HasUniqueKeys r.spec.dependencies) where
    row_after : find_resource r.urn t'.rows.resources ≡ some (set_columns st.json t.time r old)
    row_after =
        found_after st.json r id (content t) (content t') ordered.0 u r.urn
        ∙ ap (changed id (set_columns st.json t.time r)) was
        ∙ ap some (rw same (if_same_id id _ _))

    labels_after :
        tags_to_label_map (tags_of old.id t'.rows.resource_tags) ≡ some (entries r.labels)
    labels_after =
        ap tags_to_label_map (u.tags old.id ∙ rw same (if_same_id id _ _))
        ∙ tags_to_label_map-tags (entries r.labels) plain unique

    deps_after : deps_in old.id t'.rows ≡ r.spec.dependencies
    deps_after =
        ap (copy_into []) (u.deps old.id ∙ rw same (if_same_id id _ _))
        ∙ copy_into_nil r.spec.dependencies deps_unique

    read_after :
        IsEncoded st.json r.state.sync_result
        → t'.faults ≡ []
        → get_by_urn st r.urn t' ≡ (ok (rewritten old t.time r), t')
    unfolding set_columns resource_of
    read_after encoded calm =
        get_by_urn_calm st r.urn t' (set_columns st.json t.time r old) (entries r.labels)
          r.state.sync_result calm row_after labels_after
          (decode-encode st.json r.state.sync_result encoded)
        ∙ rw (deps_after, find_resource-urn r.urn t.rows.resources old was) refl

  -- If `Update`, without hooks, has succeeded in tables whose ids are in order, no key of the labels has
  -- a `=`, and JSON gives the last sync back, then there was a row of that URN, and as long as the
  -- database answers, `GetByURN` returns what was written, except that the kind, the name, the project
  -- and the creation are those of that row, the time of the update is the database's, and labels, a
  -- configuration, an output and module data that are nil are empty.
  pub get_by_urn-update :
      update st r save_revision reason [] t ≡ (ok tt, t')
      → HasPlainKeys (entries r.labels)
      → HasUniqueKeys (entries r.labels)
      → HasUniqueKeys r.spec.dependencies
      → IsEncoded st.json r.state.sync_result
      → t'.faults ≡ []
      → (old : ResourceRow) × (find_resource r.urn t.rows.resources ≡ some old)
        × (get_by_urn st r.urn t' ≡ (ok (rewritten old t.time r), t'))
  get_by_urn-update e plain unique deps_unique encoded calm =
      let (id, (u, saved)) = updated_data e in
      let (old, was, same) = u.is_found in
      (old, was, read_after id u old was same plain unique deps_unique encoded calm)
