-- ===== src/Postgres/Revisions.antt =====
-- internal/store/postgres/revision_store.go: reading the revisions of a resource.
use entropy.Base.{ℕ, String, some, List, [], ◌∷◌, eqb, ltb, if◌then◌else◌}
use entropy.Base.Dict.{Dict}
use entropy.Errors.{no_rows, is}
use entropy.Io.{Result, ok, err, Call}
use entropy.Io.Calls.{answer, try, ◌>>=◌}
use entropy.Resource.{Revision}
use entropy.Postgres.{RevisionRow, Tables, statement, within_tx}
use entropy.Postgres.Tags.{of_revisions, read_tags, tags_to_label_map}
use entropy.Postgres.Resources.{labelled, read_resource_deps, translate_urn_to_id}

-- WHERE resource_id
unfoldable pub revisions_of : ℕ → List RevisionRow → List RevisionRow
revisions_of id [] = []
revisions_of id (row ∷ rows) =
    let rest = revisions_of id rows in if eqb row.resource_id id then row ∷ rest else rest

-- ORDER BY created_at DESC: the order of rows of one time stands for the choice of the database
unfoldable pub put_by_time : RevisionRow → List RevisionRow → List RevisionRow
put_by_time new [] = new ∷ []
put_by_time new (row ∷ rows) =
    let rest = put_by_time new rows in
    if ltb new.created_at row.created_at then row ∷ rest else new ∷ row ∷ rows

unfoldable pub by_time_desc : List RevisionRow → List RevisionRow
by_time_desc [] = []
by_time_desc (row ∷ rows) = put_by_time row (by_time_desc rows)

-- the literal in the loop of `Revisions`, with the labels of the next loop
unfoldable pub revision_from : String → Dict String → RevisionRow → Dict String → Revision
revision_from urn deps row labels = record {
  id = row.id;
  urn = urn;
  reason = row.reason;
  labels = some labels;
  created_at = row.created_at;
  created_by = row.created_by;
  spec = record { configs = row.spec_configs; dependencies = deps };
}

-- the loop over the tags of the revisions
unfoldable pub read_revisions :
    String → Dict String → List RevisionRow → Call Tables (List Revision)
read_revisions urn deps [] = answer (ok [])
read_revisions urn deps (row ∷ rows) = do
  tags ← read_tags of_revisions row.id
  labels ← answer (labelled (tags_to_label_map tags))
  rest ← read_revisions urn deps rows
  answer (ok (revision_from urn deps row labels ∷ rest))

-- `txFn`
unfoldable pub read_all_revisions : String → Call Tables (List Revision)
read_all_revisions urn = do
  resource_id ← translate_urn_to_id urn
  deps ← read_resource_deps resource_id
  rows ← statement (λ t. (ok (by_time_desc (revisions_of resource_id t.rows.revisions)), t))
  read_revisions urn deps rows

abbrev pub none_if_no_rows : Result (List Revision) → Result (List Revision)
none_if_no_rows (ok revs) = ok revs
none_if_no_rows (err e) = if is e no_rows then ok [] else err e

unfoldable pub revisions : String → Call Tables (List Revision)
revisions urn = do r ← try (within_tx (read_all_revisions urn)); answer (none_if_no_rows r)
