-- ===== src/Postgres/Resources/Inserts.antt =====
-- The INSERTs of resource_store.go and revision_store.go: what each makes of the tables that it finds.
use mathlib.Core.Path.{subst}
use entropy.Base.{ℕ, ◌+◌, ◌≤◌, Option, none, some, List, ◌∷◌, ◌≡◌, refl, sym, ◌∙◌, ap, arith}
use entropy.Base.Dict.{is_some}
use entropy.Io.{Result, ok, err, Call}
use entropy.Io.Calls.{answer, and_error, next, ◌>>=◌}
use entropy.Resource.{non_nil, Resource, Revision}
use entropy.Postgres.{ResourceRow, RevisionRow, TagRow, Tables, translate_err}
use entropy.Postgres.Gives.{Content, content, Ends, Gives, Gives-statement, Gives-bind}
use entropy.Postgres.Tags.{of_revisions, set_tags}
use entropy.Postgres.Resources.{SyncJson, find_resource, urn_of}
use entropy.Postgres.Resources.Writes.{
  row_of, resource_inserted, insert_resource_record, revision_inserted, insert_revision,
  translating,
}
use entropy.Postgres.Resources.Linked.{IsKeyed, IsFree, find_resource-urn}
use entropy.Postgres.Resources.Steps.{
  Same, Gives-known, IsLoose, with_tags, AreTags, set_tags-Gives,
}

module _ {A : Type 0} (E : Content → Type 0) (Q : A → Content → Type 0) where
  translated-Ends :
      (out : Result A × Tables)
      → Ends E Q out
      → Ends E Q (next (and_error out) (λ r. answer (translate_err r)))
  unfolding answer
  translated-Ends (ok a, t) h = h
  translated-Ends (err e, t) h = h

pub Gives-translating :
    {A : Type 0} {P E : Content → Type 0} {Q : A → Content → Type 0} {m : Call Tables A}
    → Gives P E m Q
    → Gives P E (translating m) Q
unfolding translating ◌>>=◌
Gives-translating {A} {P} {E} {Q} {m} g = record {
  at = λ t p. translated-Ends E Q (m t) (g.at t p);
}

-- a new row with an id that is free leaves the ids as they should be
pub IsKeyed-insert :
    (row : ResourceRow) (rows : List ResourceRow)
    → IsFree row.id rows
    → IsKeyed rows
    → IsKeyed (row ∷ rows)
unfolding find_resource urn_of
IsKeyed-insert row rows free keyed urn found e =
    ground (arith, keyed urn found, find_resource-urn urn (row ∷ rows) found e, free found.id)

pub IsFree-insert :
    (row : ResourceRow) (rows : List ResourceRow)
    → IsFree row.id rows
    → IsFree (row.id + 1) (row ∷ rows)
unfolding urn_of
IsFree-insert row rows free id above = ground (arith, free id)

-- the tables with the row of a resource
abbrev pub with_resource : SyncJson → Resource → Content → Content
with_resource json r c = record c {
  rows = record c.rows { resources = row_of json c.next_resource_id r ∷ c.rows.resources };
  next_resource_id = c.next_resource_id + 1;
}

abbrev pub Inserted : Content → SyncJson → Resource → ℕ → Content → Type 0
Inserted before json r id c =
    (c ≡ with_resource json r before)
    × ((id ≡ before.next_resource_id) × (find_resource r.urn before.rows.resources ≡ none))

-- the row of a new revision of a resource
abbrev pub revision_row : ℕ → Revision → Content → RevisionRow
revision_row id rev c = record {
  id = c.next_revision_id;
  reason = rev.reason;
  created_at = c.time;
  created_by = rev.created_by;
  resource_id = id;
  spec_configs = non_nil rev.spec.configs;
}

-- the tables with the row of a revision
abbrev pub with_revision : ℕ → Revision → Content → Content
with_revision id rev c = record c {
  rows = record c.rows { revisions = revision_row id rev c ∷ c.rows.revisions };
  next_revision_id = c.next_revision_id + 1;
}

-- the tables with the row of a revision and its tags
abbrev pub Revised : Content → ℕ → Revision → Content → Type 0
Revised before id rev c =
    (tags : List TagRow) × ((c ≡ with_tags of_revisions tags (with_revision id rev before))
      × AreTags before.next_revision_id rev.labels before.rows.revision_tags tags)

module _ (E : Content → Type 0) (loose : IsLoose E) (before : Content) (fails : E before) where
  -- an error leaves no smaller id to be the next
  grown : (c c' : Content) → c ≡ before → c.next_resource_id ≤ c'.next_resource_id → E c'
  grown c c' e more =
      loose before c' (subst (λ b. b.next_resource_id ≤ c'.next_resource_id) e more) fails

  resource_inserted-Ends :
      (json : SyncJson) (r : Resource) (t : Tables)
      → content t ≡ before
      → (o : Option ResourceRow) → find_resource r.urn t.rows.resources ≡ o
      → Ends E (Inserted before json r) (resource_inserted json r (is_some o) t)
  resource_inserted-Ends json r t e (some row) found = grown (content t) _ e (omega arith)
  resource_inserted-Ends json r t e none found = (
    ap (with_resource json r) e,
    (
      ap (λ c. c.next_resource_id) e,
      ap (λ c. find_resource r.urn c.rows.resources) (sym e) ∙ found,
    ),
  )

  pub insert_resource_record-Gives :
      (json : SyncJson) (r : Resource)
      → Gives (Same before) E (insert_resource_record json r) (Inserted before json r)
  unfolding insert_resource_record
  insert_resource_record-Gives json r =
      Gives-statement _ (λ t e. resource_inserted-Ends json r t e _ refl)
        (λ c e. subst E (sym e) fails)

  revision_inserted-Ends :
      (id : ℕ) (rev : Revision) (t : Tables)
      → content t ≡ before
      → Ends E
          (λ rev_id c. (c ≡ with_revision id rev before) × (rev_id ≡ before.next_revision_id))
          (revision_inserted id rev t)
  revision_inserted-Ends id rev t e = (ap (with_revision id rev) e, ap (λ c. c.next_revision_id) e)

  pub insert_revision-Gives :
      (id : ℕ) (rev : Revision)
      → Gives (Same before) E (insert_revision id rev) (λ _ c. Revised before id rev c)
  unfolding insert_revision
  insert_revision-Gives id rev =
      Gives-bind
        (Gives-statement _ (λ t e. revision_inserted-Ends id rev t e)
          (λ c e. subst E (sym e) fails))
        (λ rev_id. Gives-known (λ same.
          subst
            (λ i.
              Gives (λ c. c ≡ with_revision id rev before) E (set_tags of_revisions i rev.labels)
                (λ _ c. Revised before id rev c))
            (sym same)
            (set_tags-Gives E loose (with_revision id rev before)
              (grown before _ refl (omega arith)) of_revisions before.next_revision_id rev.labels)))
