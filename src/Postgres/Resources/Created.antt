-- ===== src/Postgres/Resources/Created.antt =====
-- `Create` of resource_store.go: the tables after it, in full.
use entropy.Base.{ℕ, ◌+◌, ◌≤◌, none, List, [], ◌∷◌, eqb, if◌then◌else◌, ◌≡◌, refl, ap, arith}
use entropy.Io.Calls.{◌>>=◌}
use entropy.Resource.{Resource}
use entropy.Postgres.{DependencyRow, TagRow, run_all_hooks}
use entropy.Postgres.Gives.{Content, Gives, Gives-answer, Gives-bind, Gives-within_tx}
use entropy.Postgres.Tags.{of_resources, of_revisions}
use entropy.Postgres.Resources.{SyncJson, Store, find_resource, joined_deps}
use entropy.Postgres.Resources.Writes.{
  row_of, revision_of, insert_resource, insert_revision, translating, create,
}
use entropy.Postgres.Resources.Linked.{IsKeyed, IsFree}
use entropy.Postgres.Resources.Steps.{
  Same, Gives-exists, Gives-known, IsLoose, with_tags, with_deps, AreTags, AreDeps, set_tags-Gives,
  set_dependencies-Gives,
}
use entropy.Postgres.Resources.Inserts.{
  Gives-translating, IsKeyed-insert, with_resource, insert_resource_record-Gives, revision_row,
  with_revision, insert_revision-Gives,
}

-- the primary key and the sequence behind it are in order
abbrev pub IsOrdered : Content → Type 0
IsOrdered c = IsKeyed c.rows.resources × IsFree c.next_resource_id c.rows.resources

-- the tables as they were, but for ids that have been used up
abbrev pub Unchanged : Content → Content → Type 0
Unchanged before c = (c.rows ≡ before.rows) × (before.next_resource_id ≤ c.next_resource_id)

-- what a creation does: a row, its tags, its dependencies and its first revision
pub record Creates (json : SyncJson) (r : Resource) (before c : Content) : Type 0 where
  pub is_new : find_resource r.urn before.rows.resources ≡ none
  pub resources : c.rows.resources ≡ row_of json before.next_resource_id r ∷ before.rows.resources
  pub next_id : c.next_resource_id ≡ before.next_resource_id + 1
  pub tags : AreTags before.next_resource_id r.labels before.rows.resource_tags c.rows.resource_tags
  pub deps :
      (i : ℕ)
      → joined_deps i c.rows.dependencies c.rows.resources ≡ (
          if eqb i before.next_resource_id
          then r.spec.dependencies
          else joined_deps i before.rows.dependencies c.rows.resources)
  pub revisions :
      c.rows.revisions
      ≡ revision_row before.next_resource_id (revision_of r "action:create") before
        ∷ before.rows.revisions
  pub revision_tags :
      AreTags before.next_revision_id r.labels before.rows.revision_tags c.rows.revision_tags

module _ (json : SyncJson) (r : Resource) (before : Content) (ordered : IsOrdered before) where
  abbrev Grown : Content → Type 0
  Grown c = before.next_resource_id ≤ c.next_resource_id

  Grown-IsLoose : IsLoose Grown
  Grown-IsLoose c c' more h = omega arith

  abbrev new_id : ℕ
  new_id = before.next_resource_id

  -- the tables with the row, and then with its tags
  abbrev filed : Content
  filed = with_resource json r before

  abbrev labelled : List TagRow → Content
  labelled tags = with_tags of_resources tags filed

  created :
      (tags : List TagRow) (deps : List DependencyRow) (rev_tags : List TagRow) (c : Content)
      → find_resource r.urn before.rows.resources ≡ none
      → AreTags new_id r.labels before.rows.resource_tags tags
      → AreDeps new_id r.spec.dependencies filed.rows.resources before.rows.dependencies deps
      → AreTags before.next_revision_id r.labels before.rows.revision_tags rev_tags
      → c
        ≡ with_tags of_revisions rev_tags
            (with_revision new_id (revision_of r "action:create") (with_deps deps (labelled tags)))
      → Creates json r before c
  unfolding revision_of
  created tags deps rev_tags c is_new tagged linked rev_tagged e = rw e (record {
    is_new = is_new;
    resources = refl;
    next_id = refl;
    tags = tagged;
    deps = linked;
    revisions = refl;
    revision_tags = rev_tagged;
  })

  revise-Gives :
      (tags : List TagRow) (deps : List DependencyRow)
      → find_resource r.urn before.rows.resources ≡ none
      → AreTags new_id r.labels before.rows.resource_tags tags
      → AreDeps new_id r.spec.dependencies filed.rows.resources before.rows.dependencies deps
      → Gives
          (Same (with_deps deps (labelled tags)))
          Grown
          (translating (insert_revision new_id (revision_of r "action:create")) >>= λ _.
            run_all_hooks [])
          (λ _ c. Creates json r before c)
  unfolding run_all_hooks revision_of
  revise-Gives tags deps is_new tagged linked =
      Gives-bind
        (Gives-translating (
          insert_revision-Gives Grown Grown-IsLoose (with_deps deps (labelled tags)) (omega arith)
            new_id (revision_of r "action:create")))
        (λ _. Gives-exists (λ rev_tags. Gives-known (λ rev_tagged.
          Gives-answer _ (λ a c e s. created tags deps rev_tags c is_new tagged linked rev_tagged s)
            (λ c s. rw s (omega arith)))))

  insert_resource-Gives :
      Gives (Same before) Grown (insert_resource json r []) (λ _ c. Creates json r before c)
  unfolding insert_resource row_of
  insert_resource-Gives =
      Gives-bind
        (Gives-translating
          (insert_resource_record-Gives Grown Grown-IsLoose before (omega arith) json r))
        (λ id. Gives-known (λ (same, is_new). rw same (
          Gives-bind
            (Gives-translating
              (set_tags-Gives Grown Grown-IsLoose filed (omega arith) of_resources new_id r.labels))
            (λ _. Gives-exists (λ tags. Gives-known (λ tagged.
              Gives-bind
                (Gives-translating (
                  set_dependencies-Gives Grown Grown-IsLoose (labelled tags) (omega arith)
                    (IsKeyed-insert (row_of json new_id r) before.rows.resources ordered.1
                      ordered.0)
                    new_id r.spec.dependencies))
                (λ _. Gives-exists (λ deps.
                  Gives-known (λ linked. revise-Gives tags deps is_new tagged linked)))))))))

  -- `Create` without hooks: where it succeeds, the tables are as `Creates` says
  pub create-Gives :
      (st : Store)
      → st.json ≡ json
      → Gives (Same before) (Unchanged before) (create st r []) (λ _ c. Creates json r before c)
  unfolding create
  create-Gives st same = rw same (
      Gives-within_tx (λ c s. rw s (refl, omega arith)) (λ b c s h. (ap (λ x. x.rows) s, h))
        (λ a b c s h. (ap (λ x. x.rows) s, rw h.next_id (omega arith))) insert_resource-Gives)
