-- ===== src/Postgres/Resources/Readers.antt =====
-- `List` of resource_store.go and `Revisions` of revision_store.go only read.
use entropy.Base.{String, Bool, List, [], ◌∷◌}
use entropy.Base.Dict.{Dict}
use entropy.Io.{ok}
use entropy.Resource.Filter.{Filter}
use entropy.Postgres.{RevisionRow}
use entropy.Postgres.Reading.{
  Reads, Reads-query, Reads-answer, Reads-try, Reads-bind, Reads-within_tx,
}
use entropy.Postgres.Tags.{tags_of, read_tags}
use entropy.Postgres.Resources.{
  Store, find_resource, scanned_id, deps_in, read_resource_deps, translate_urn_to_id,
}
use entropy.Postgres.Resources.Listing.{ListRow, list, listed_resources}
use entropy.Postgres.Revisions.{
  revisions_of, by_time_desc, read_revisions, read_all_revisions, revisions,
}

listed_resources-Reads :
    (st : Store) (b : Bool) (items : List (ListRow × List String))
    → Reads (listed_resources st.json b items)
unfolding listed_resources
listed_resources-Reads st b [] = Reads-answer _
listed_resources-Reads st b (item ∷ items) = Reads-bind (Reads-answer _) (λ sync_result.
    Reads-bind (Reads-answer _)
      (λ labels. Reads-bind (listed_resources-Reads st b items) (λ rest. Reads-answer _)))

pub list-Reads : (st : Store) (f : Filter) (b : Bool) → Reads (list st f b)
unfolding list
list-Reads st f b =
    Reads-bind (Reads-query _) (λ rows. Reads-bind (Reads-answer _) (listed_resources-Reads st b))

read_revisions-Reads :
    (urn : String) (deps : Dict String) (rows : List RevisionRow)
    → Reads (read_revisions urn deps rows)
unfolding read_revisions read_tags
read_revisions-Reads urn deps [] = Reads-answer _
read_revisions-Reads urn deps (row ∷ rows) =
    Reads-bind
      (Reads-bind (Reads-try (Reads-query (λ rows. ok (tags_of row.id rows.revision_tags))))
        (λ queried. Reads-answer _))
      (λ tags.
        Reads-bind (Reads-answer _)
          (λ labels. Reads-bind (read_revisions-Reads urn deps rows) (λ rest. Reads-answer _)))

pub revisions-Reads : (urn : String) → Reads (revisions urn)
unfolding revisions read_all_revisions translate_urn_to_id read_resource_deps
revisions-Reads urn =
    Reads-bind
      (Reads-try (
        Reads-within_tx (
          Reads-bind (Reads-query (λ rows. scanned_id (find_resource urn rows.resources))) (λ id.
            Reads-bind
              (Reads-bind (Reads-try (Reads-query (λ rows. ok (deps_in id rows))))
                (λ queried. Reads-answer _))
              (λ deps.
                Reads-bind
                  (Reads-query (λ rows. ok (by_time_desc (revisions_of id rows.revisions))))
                  (read_revisions-Reads urn deps))))))
      (λ r. Reads-answer _)
