-- ===== src/Postgres/Resources/Reads.antt =====
-- `GetByURN` of resource_store.go: what it reads.
use entropy.Base.{
  String, Bool, true, false, Option, none, some, List, [], ◌∷◌, if◌then◌else◌, ◌≡◌, refl, sym, ◌∙◌,
  ap, arith,
}
use entropy.Base.Dict.{Dict}
use entropy.Errors.{GoError, own, no_rows, err_not_found, is}
use entropy.Io.{Result, ok, err}
use entropy.Io.Invert.{ok-inj}
use entropy.Io.Calls.{answer, try, and_error, next, ◌>>=◌}
use entropy.Resource.{Resource, SyncResult}
use entropy.Postgres.{
  Fault, refused, broken, ResourceRow, Rows, Tables, run_or_fail, statement, no_rows_as, within_tx,
}
use entropy.Postgres.Gives.{
  Content, content, Ends, undone, Gives, Gives-statement, Gives-answer, Gives-bind, Gives-try,
  Gives-within_tx, Either,
}
use entropy.Postgres.Tags.{tags_of, read_tags, tags_to_label_map}
use entropy.Postgres.Resources.{
  SyncJson, Store, find_resource, scanned_resource, found_or_not, read_resource_record, deps_in,
  read_resource_deps, ResourceParts, read_resource_parts, decode_sync_result, labelled, resource_of,
  assemble, get_by_urn,
}
use entropy.Postgres.Resources.Steps.{Same, Gives-known}

module _ {A : Type 0} (f : Rows → A) (empty : A) (before : Content) where
  query_run :
      (fs : List (Option Fault)) (t : Tables)
      → content t ≡ before
      → Ends
          (Same before)
          (λ a c. (c ≡ before) × (a ≡ f before.rows))
          (next
            (and_error (run_or_fail fs (λ t. (ok (f t.rows), t)) t))
            (λ r. answer (no_rows_as empty r)))
  unfolding answer
  query_run [] t e = (e, ap (λ c. f c.rows) e)
  query_run (none ∷ fs) t e = (e, ap (λ c. f c.rows) e)
  query_run (some (refused name text) ∷ fs) t e = e
  query_run (some (broken text) ∷ fs) t e = e

  -- a query of several rows: an error of the database is never one of finding none
  pub Gives-query :
      Gives
        (Same before)
        (Same before)
        (try (statement (λ t. (ok (f t.rows), t))) >>= λ r. answer (no_rows_as empty r))
        (λ a c. (c ≡ before) × (a ≡ f before.rows))
  unfolding statement ◌>>=◌
  Gives-query = record { at = λ t e. query_run t.faults t e }

module _ (before : Content) where
  scanned-Ends :
      (urn : String) (o : Option ResourceRow) (t : Tables)
      → content t ≡ before
      → find_resource urn t.rows.resources ≡ o
      → Ends
          (Same before)
          (λ row c. (c ≡ before) × (find_resource urn before.rows.resources ≡ some row))
          (scanned_resource o, t)
  scanned-Ends urn none t e found = e
  scanned-Ends urn (some row) t e found =
      (e, ap (λ c. find_resource urn c.rows.resources) (sym e) ∙ found)

  found_or_not-eq-ok :
      (b : Bool) (e : GoError) (row : ResourceRow)
      → (if b then err (own err_not_found) else err e) ≡ ok row
      → ok row ≡ err e
  found_or_not-eq-ok true e row h = ground arith
  found_or_not-eq-ok false e row h = ground arith

  read_resource_record-Gives :
      (urn : String)
      → Gives
          (Same before)
          (Same before)
          (read_resource_record urn)
          (λ row c. (c ≡ before) × (find_resource urn before.rows.resources ≡ some row))
  unfolding read_resource_record
  read_resource_record-Gives urn =
      Gives-bind (Gives-try (Gives-statement _ (λ t e. scanned-Ends urn _ t e refl) (λ c e. e)))
        found_part
    where
      found_part :
          (r : Result ResourceRow)
          → Gives
              (Either
                (Same before)
                (λ row c. (c ≡ before) × (find_resource urn before.rows.resources ≡ some row))
                r)
              (Same before)
              (answer (found_or_not r))
              (λ row c. (c ≡ before) × (find_resource urn before.rows.resources ≡ some row))
      found_part (ok row) = Gives-answer _ (λ a c e h. rw (← ok-inj e) h) (λ c h. h.0)
      found_part (err x) =
          Gives-answer _
            (λ a c e h. absurd (ground (arith, found_or_not-eq-ok (is x no_rows) x a e))) (λ c h. h)

-- what `GetByURN` makes of the tables: every part of the resource is that of the row with the URN
pub record IsStored (json : SyncJson) (before : Content) (urn : String) (r : Resource)
    : Type 0 where
  pub row : ResourceRow
  pub is_found : find_resource urn before.rows.resources ≡ some row
  pub labels : Dict String
  pub are_labels : tags_to_label_map (tags_of row.id before.rows.resource_tags) ≡ some labels
  pub sync_result : SyncResult
  pub is_decoded : decode_sync_result json row.state_sync_result ≡ ok sync_result
  pub is_resource : r ≡ resource_of row labels (deps_in row.id before.rows) sync_result

labelled-eq-ok :
    (o : Option (Dict String)) (labels : Dict String) → labelled o ≡ ok labels → o ≡ some labels
labelled-eq-ok none labels e = ground arith
labelled-eq-ok (some l) labels e = ap some (ok-inj e)

module _ (before : Content) (urn : String) where
  abbrev AreParts : ResourceParts → Type 0
  AreParts parts =
      (find_resource urn before.rows.resources ≡ some parts.rec)
      × (parts.tags ≡ tags_of parts.rec.id before.rows.resource_tags)
      × (parts.deps ≡ deps_in parts.rec.id before.rows)

  read_resource_parts-Gives :
      Gives
        (Same before)
        (Same before)
        (read_resource_parts urn)
        (λ parts c. (c ≡ before) × AreParts parts)
  unfolding read_resource_parts read_tags read_resource_deps
  read_resource_parts-Gives = Gives-bind (read_resource_record-Gives before urn) (λ rec.
      Gives-known (λ found.
        Gives-bind (Gives-query (λ rows. tags_of rec.id rows.resource_tags) [] before) (λ tags.
          Gives-known (λ are_tags.
            Gives-bind (Gives-query (λ rows. deps_in rec.id rows) [] before) (λ deps.
              Gives-known (λ are_deps.
                Gives-answer _ (λ a c e s. rw (← ok-inj e) (s, (found, are_tags, are_deps)))
                  (λ c s. s)))))))

  assemble-Gives :
      (st : Store) (parts : ResourceParts)
      → AreParts parts
      → Gives
          (Same before)
          (Same before)
          (assemble st.json parts)
          (λ r c. (c ≡ before) × IsStored st.json before urn r)
  unfolding assemble
  assemble-Gives st parts (found, are_tags, are_deps) =
      Gives-bind (Gives-answer _ (λ a c e s. (s, e)) (λ c s. s)) (λ sync_result.
        Gives-known (λ decoded.
          Gives-bind (Gives-answer _ (λ a c e s. (s, e)) (λ c s. s)) (λ labels.
            Gives-known (λ are_labels.
              Gives-answer _
                (λ a c e s. (
                  s,
                  record {
                    row = parts.rec;
                    is_found = found;
                    labels = labels;
                    are_labels = rw (← are_tags) (labelled-eq-ok _ labels are_labels);
                    sync_result = sync_result;
                    is_decoded = decoded;
                    is_resource =
                        sym (ok-inj e)
                        ∙ ap (λ deps. resource_of parts.rec labels deps sync_result) are_deps;
                  },
                ))
                (λ c s. s)))))

  -- `GetByURN` changes nothing, and a resource that it returns is the stored one
  pub get_by_urn-Gives :
      (st : Store)
      → Gives
          (Same before)
          (Same before)
          (get_by_urn st urn)
          (λ r c. (c ≡ before) × IsStored st.json before urn r)
  unfolding get_by_urn
  get_by_urn-Gives st =
      Gives-bind
        (Gives-within_tx (λ c s. s) (λ b c s h. ap (undone b) h ∙ ap (λ x. undone x before) s)
          (λ parts b c s h. ap (undone b) h.0 ∙ ap (λ x. undone x before) s)
          read_resource_parts-Gives)
        (λ parts. Gives-known (assemble-Gives st parts))

module _ (st : Store) (urn : String) (t : Tables) (row : ResourceRow) (labels : Dict String)
    (sync_result : SyncResult) where
  -- as long as the database answers, `GetByURN` returns the stored resource
  pub get_by_urn_calm :
      t.faults ≡ []
      → find_resource urn t.rows.resources ≡ some row
      → tags_to_label_map (tags_of row.id t.rows.resource_tags) ≡ some labels
      → decode_sync_result st.json row.state_sync_result ≡ ok sync_result
      → get_by_urn st urn t ≡ (ok (resource_of row labels (deps_in row.id t.rows) sync_result), t)
  unfolding get_by_urn within_tx statement read_resource_parts read_resource_record read_tags
      read_resource_deps assemble answer try ◌>>=◌
  get_by_urn_calm calm found tagged decoded = rw (calm, found, tagged, decoded) refl
