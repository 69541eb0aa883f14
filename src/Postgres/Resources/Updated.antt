-- ===== src/Postgres/Resources/Updated.antt =====
-- `Update` of resource_store.go: the tables after it, in full.
use entropy.Base.{
  ℕ, ◌≤◌, String, Bool, true, false, List, [], ◌∷◌, eqb, if◌then◌else◌, ◌≡◌, refl, ap, arith,
}
use entropy.Io.Calls.{◌>>=◌, ◌>>◌}
use entropy.Resource.{Resource}
use entropy.Postgres.{ResourceRow, DependencyRow, TagRow, Tables, run_all_hooks}
use entropy.Postgres.Gives.{
  Content, content, Ends, Gives, Gives-statement, Gives-answer, Gives-bind, Gives-within_tx,
}
use entropy.Postgres.Tags.{of_resources, set_tags}
use entropy.Postgres.Resources.{SyncJson, Store, joined_deps}
use entropy.Postgres.Resources.Writes.{
  set_columns, change_row, resource_updated, update_resource_record, save_revision_if, revision_of,
  set_dependencies, update_resource, update,
}
use entropy.Postgres.Resources.Linked.{IsKeyed, IsKeyed-change_row}
use entropy.Postgres.Resources.Steps.{
  Same, IsFound, Gives-exists, Gives-known, IsLoose, with_tags, with_deps, AreTags, AreDeps,
  translate_urn_to_id-Gives, set_tags-Gives, set_dependencies-Gives,
}
use entropy.Postgres.Resources.Inserts.{Gives-translating, revision_row, insert_revision-Gives}
use entropy.Postgres.Resources.Created.{IsOrdered, Unchanged}

-- the tables where the row of a resource has its new columns
abbrev pub with_columns : SyncJson → ℕ → Resource → Content → Content
with_columns json id r c = record c {
  rows = record c.rows { resources = change_row id (set_columns json c.time r) c.rows.resources };
}

-- what an update does to the row with an id, to its tags and to its dependencies
pub record Updates (json : SyncJson) (r : Resource) (id : ℕ) (before c : Content) : Type 0 where
  pub is_found : IsFound before.rows.resources r.urn id
  pub resources :
      c.rows.resources ≡ change_row id (set_columns json before.time r) before.rows.resources
  pub next_id : c.next_resource_id ≡ before.next_resource_id
  pub tags : AreTags id r.labels before.rows.resource_tags c.rows.resource_tags
  pub deps :
      (i : ℕ)
      → joined_deps i c.rows.dependencies c.rows.resources ≡ (
          if eqb i id
          then r.spec.dependencies
          else joined_deps i before.rows.dependencies c.rows.resources)

-- the revisions after an update that saves one, or not
abbrev pub Saves : Bool → Resource → String → ℕ → Content → Content → Type 0
Saves true r reason id before c =
    (c.rows.revisions ≡ revision_row id (revision_of r reason) before ∷ before.rows.revisions)
    × AreTags before.next_revision_id r.labels before.rows.revision_tags c.rows.revision_tags
Saves false r reason id before c =
    (c.rows.revisions ≡ before.rows.revisions) × (c.rows.revision_tags ≡ before.rows.revision_tags)

pub set_columns-IsKeyed :
    (json : SyncJson) (time id : ℕ) (r : Resource) (rows : List ResourceRow)
    → IsKeyed rows
    → IsKeyed (change_row id (set_columns json time r) rows)
unfolding set_columns
set_columns-IsKeyed json time id r rows keyed =
    IsKeyed-change_row id (set_columns json time r) (λ row. refl) (λ row. refl) rows keyed

module _ (json : SyncJson) (r : Resource) (reason : String) (before : Content)
    (ordered : IsOrdered before) where
  abbrev Grown : Content → Type 0
  Grown c = before.next_resource_id ≤ c.next_resource_id

  Grown-IsLoose : IsLoose Grown
  Grown-IsLoose c c' more h = omega arith

  abbrev Updated : Bool → Content → Type 0
  Updated save c = (id : ℕ) × (Updates json r id before c × Saves save r reason id before c)

  module _ (id : ℕ) (found : IsFound before.rows.resources r.urn id) where
    abbrev filed : Content
    filed = with_columns json id r before

    abbrev labelled : List TagRow → Content
    labelled tags = with_tags of_resources tags filed

    module _ (tags : List TagRow) (deps : List DependencyRow)
        (tagged : AreTags id r.labels before.rows.resource_tags tags)
        (linked : AreDeps id r.spec.dependencies filed.rows.resources before.rows.dependencies
          deps) where
      done : Updates json r id before (with_deps deps (labelled tags))
      done = record {
        is_found = found;
        resources = refl;
        next_id = refl;
        tags = tagged;
        deps = linked;
      }

      save-Gives :
          (save : Bool)
          → Gives
              (Same (with_deps deps (labelled tags)))
              Grown
              (save_revision_if save id (revision_of r reason) >>= λ _. run_all_hooks [])
              (λ _ c. Updated save c)
      unfolding save_revision_if run_all_hooks revision_of
      save-Gives true =
          Gives-bind
            (Gives-translating (
              insert_revision-Gives Grown Grown-IsLoose (with_deps deps (labelled tags))
                (omega arith) id (revision_of r reason)))
            (λ _. Gives-exists (λ rev_tags. Gives-known (λ rev_tagged.
              Gives-answer _
                (λ a c e s. rw s (
                  id,
                  (
                    record {
                      is_found = found;
                      resources = refl;
                      next_id = refl;
                      tags = tagged;
                      deps = linked;
                    },
                    (refl, rev_tagged),
                  ),
                ))
                (λ c s. rw s (omega arith)))))
      save-Gives false =
          Gives-bind (Gives-answer _ (λ a c e s. s) (λ c s. rw s (omega arith))) (λ _.
            Gives-answer _ (λ a c e s. rw s (id, (done, (refl, refl)))) (λ c s. rw s (omega arith)))

    update_resource_record-Ends :
        (t : Tables)
        → content t ≡ before
        → Ends Grown (λ _ c. c ≡ filed) (resource_updated json id r t)
    update_resource_record-Ends t e = ap (with_columns json id r) e

    update_resource_record-Gives :
        Gives (Same before) Grown (update_resource_record json id r) (λ _ c. c ≡ filed)
    unfolding update_resource_record
    update_resource_record-Gives =
        Gives-statement _ (λ t e. update_resource_record-Ends t e) (λ c e. rw e (omega arith))

    parts-Gives :
        (save : Bool)
        → Gives
            (Same before)
            Grown
            (do
              update_resource_record json id r
              set_tags of_resources id r.labels
              set_dependencies id r.spec.dependencies
              save_revision_if save id (revision_of r reason)
              run_all_hooks [])
            (λ _ c. Updated save c)
    parts-Gives save = Gives-bind update_resource_record-Gives (λ _.
        Gives-bind (set_tags-Gives Grown Grown-IsLoose filed (omega arith) of_resources id r.labels)
          (λ _. Gives-exists (λ tags. Gives-known (λ tagged.
            Gives-bind
              (set_dependencies-Gives Grown Grown-IsLoose (labelled tags) (omega arith)
                (set_columns-IsKeyed json before.time id r before.rows.resources ordered.0) id
                r.spec.dependencies)
              (λ _.
                Gives-exists
                  (λ deps. Gives-known (λ linked. save-Gives tags deps tagged linked save)))))))

  -- `Update` without hooks: where it succeeds, the tables are as `Updates` and `Saves` say
  pub update-Gives :
      (st : Store) (save : Bool)
      → st.json ≡ json
      → Gives (Same before) (Unchanged before) (update st r save reason []) (λ _ c. Updated save c)
  unfolding update update_resource
  update-Gives st save same = rw same (
      Gives-within_tx (λ c s. rw s (refl, omega arith)) (λ b c s h. (ap (λ x. x.rows) s, h))
        (λ a b c s (id, (done, saved)). (ap (λ x. x.rows) s, rw done.next_id (omega arith)))
        (Gives-bind (translate_urn_to_id-Gives Grown before (omega arith) r.urn)
          (λ id. Gives-known (λ found. parts-Gives id found save))))
