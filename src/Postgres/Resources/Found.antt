-- ===== src/Postgres/Resources/Found.antt =====
-- `Create` and then `GetByURN` of resource_store.go: a resource comes back as it was stored.
use mathlib.Core.Path.{subst}
use entropy.Base.{
  false, some, [], ◌==◌, ◌≡◌, refl, ◌∙◌, ap, arith, eq_iff, eq_refl, Bool-cases, inl, inr,
}
use entropy.Base.Dict.{entries, HasUniqueKeys, copy_into}
use entropy.Base.Dict.Keys.{copy_into_nil}
use entropy.Io.{ok}
use entropy.Resource.{Resource, non_nil, SyncResult}
use entropy.Postgres.{Tables}
use entropy.Postgres.Gives.{content, Ends}
use entropy.Postgres.Tags.{tags_of, tags_to_label_map}
use entropy.Postgres.Tags.Laws.{HasPlainKeys, tags_to_label_map-tags}
use entropy.Postgres.Resources.{
  SyncJson, Store, find_resource, deps_in, decode_sync_result, resource_of, get_by_urn,
}
use entropy.Postgres.Resources.Writes.{is_no_sync_result, sync_result_as_json, row_of, create}
use entropy.Postgres.Resources.Linked.{if_same_id}
use entropy.Postgres.Resources.Created.{IsOrdered, Unchanged, Creates, create-Gives}
use entropy.Postgres.Resources.Reads.{get_by_urn_calm}

-- what a JSON library promises of a value, and a text that is never empty
abbrev pub IsEncoded : SyncJson → SyncResult → Type 0
IsEncoded json r = (json.unmarshal (json.marshal r) ≡ ok r) × ((json.marshal r == "") ≡ false)

pub decode-encode :
    (json : SyncJson) (r : SyncResult)
    → IsEncoded json r
    → decode_sync_result json (non_nil (sync_result_as_json json r)) ≡ ok r
unfolding decode_sync_result sync_result_as_json
decode-encode json r (back, filled) = elim (Bool-cases (is_no_sync_result r)) [
  | inl zero ↦ rw zero (ground (arith, eq_iff r.last_error ""))
  | inr other ↦ rw (other, filled, back) refl
]

-- a resource as it is read: its labels are no nil map, and its texts no nil slices
abbrev pub non_nils : Resource → Resource
non_nils r = record r {
  labels = some (entries r.labels);
  spec = record r.spec { configs = non_nil r.spec.configs };
  state = record r.state {
    output = non_nil r.state.output;
    module_data = non_nil r.state.module_data;
  };
}

module _ (st : Store) (r : Resource) (t t' : Tables) where
  pub created_data :
      IsOrdered (content t)
      → create st r [] t ≡ (ok tt, t')
      → Creates st.json r (content t) (content t')
  created_data ordered e =
      subst (Ends (Unchanged (content t)) (λ _ c. Creates st.json r (content t) c)) e
        ((create-Gives st.json r (content t) ordered st refl).at t refl)

  found_row :
      Creates st.json r (content t) (content t')
      → find_resource r.urn t'.rows.resources ≡ some (row_of st.json t.next_resource_id r)
  unfolding find_resource row_of
  found_row c = rw (c.resources, eq_refl r.urn) refl

  read_tags :
      Creates st.json r (content t) (content t')
      → HasPlainKeys (entries r.labels)
      → HasUniqueKeys (entries r.labels)
      → tags_to_label_map (tags_of t.next_resource_id t'.rows.resource_tags)
        ≡ some (entries r.labels)
  read_tags c plain unique =
      ap tags_to_label_map (c.tags t.next_resource_id ∙ if_same_id t.next_resource_id _ _)
      ∙ tags_to_label_map-tags (entries r.labels) plain unique

  read_deps :
      Creates st.json r (content t) (content t')
      → HasUniqueKeys r.spec.dependencies
      → deps_in t.next_resource_id t'.rows ≡ r.spec.dependencies
  read_deps c unique =
      ap (copy_into []) (c.deps t.next_resource_id ∙ if_same_id t.next_resource_id _ _)
      ∙ copy_into_nil r.spec.dependencies unique

  -- If `Create`, without hooks, has stored a resource in tables whose ids are in order, no key of its
  -- labels has a `=`, and JSON gives its last sync back, then as long as the database answers,
  -- `GetByURN` returns this resource, except that its labels, its configuration,
  -- its output and its module data are empty where they were nil.
  pub get_by_urn-create :
      IsOrdered (content t)
      → create st r [] t ≡ (ok tt, t')
      → HasPlainKeys (entries r.labels)
      → HasUniqueKeys (entries r.labels)
      → HasUniqueKeys r.spec.dependencies
      → IsEncoded st.json r.state.sync_result
      → t'.faults ≡ []
      → get_by_urn st r.urn t' ≡ (ok (non_nils r), t')
  unfolding row_of resource_of
  get_by_urn-create ordered e plain unique deps_unique encoded calm =
      let c = created_data ordered e in
      get_by_urn_calm st r.urn t' (row_of st.json t.next_resource_id r) (entries r.labels)
        r.state.sync_result calm (found_row c) (read_tags c plain unique)
        (decode-encode st.json r.state.sync_result encoded)
      ∙ rw (read_deps c deps_unique) refl
