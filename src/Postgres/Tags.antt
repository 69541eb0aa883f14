-- ===== src/Postgres/Tags.antt =====
-- internal/store/postgres/tags_model.go: labels as tags `key=value`, in a table of their own.
pub mod Laws
use Prim.Native.Char.{Char, code}
use entropy.Base.{
  ℕ, String, Bool, false, ◌&&◌, ◌||◌, Option, none, some, List, [], ◌∷◌, ◌++◌, ◌==◌, eqb,
  if◌then◌else◌, is_empty,
}
use entropy.Base.Dict.{Dict, GoMap, entries, insert}
use entropy.Base.Text.{◌<>◌}
use entropy.Errors.{pq_error}
use entropy.Io.{Result, ok, err, Call}
use entropy.Io.Calls.{answer, try, ◌>>=◌, ◌>>◌}
use entropy.Postgres.{TagRow, Rows, Tables, statement, no_rows_as}

-- the argument `table`
pub data TagTable : Type 0 where
  of_resources of_revisions : TagTable

abbrev pub tags_in : TagTable → Rows → List TagRow
tags_in of_resources rows = rows.resource_tags
tags_in of_revisions rows = rows.revision_tags

abbrev pub put_tags : TagTable → List TagRow → Rows → Rows
put_tags of_resources tags rows = record rows { resource_tags = tags }
put_tags of_revisions tags rows = record rows { revision_tags = tags }

-- SELECT tag FROM table WHERE id
unfoldable pub tags_of : ℕ → List TagRow → List String
tags_of id [] = []
tags_of id (row ∷ rows) =
    let rest = tags_of id rows in if eqb row.owner_id id then row.tag ∷ rest else rest

unfoldable pub read_tags : TagTable → ℕ → Call Tables (List String)
read_tags table id = do
  queried ← try (statement (λ t. (ok (tags_of id (tags_in table t.rows)), t)))
  answer (no_rows_as [] queried)

-- DELETE FROM table WHERE id
unfoldable pub without_tags : ℕ → List TagRow → List TagRow
without_tags id [] = []
without_tags id (row ∷ rows) =
    let rest = without_tags id rows in if eqb row.owner_id id then rest else row ∷ rest

unfoldable pub has_tag : ℕ → String → List TagRow → Bool
has_tag id tag [] = false
has_tag id tag (row ∷ rows) = (eqb row.owner_id id && row.tag == tag) || has_tag id tag rows

-- the rows of one INSERT, behind the others; `none` where one breaks the UNIQUE constraint
unfoldable pub add_tags : ℕ → List String → List TagRow → Option (List TagRow)
add_tags id [] rows = some rows
add_tags id (tag ∷ tags) rows =
    let rest = add_tags id tags (rows ++ (record { owner_id = id; tag = tag } ∷ [])) in
    if has_tag id tag rows then none else rest

abbrev pub tags_added : TagTable → Option (List TagRow) → Tables → Result (Unit {0}) × Tables
tags_added table none t =
    (err (pq_error "unique_violation" "duplicate key value violates unique constraint"), t)
tags_added table (some tags) t = (ok tt, record t { rows = put_tags table tags t.rows })

-- `labelMapToTags`
unfoldable pub label_map_to_tags : Dict String → List String
label_map_to_tags [] = []
label_map_to_tags ((k, v) ∷ labels) = (k <> "=" <> v) ∷ label_map_to_tags labels

-- The tables hold the rows that a tag belongs to, as its id was read or made in the same transaction:
-- the reference of a tag is not checked again.
unfoldable pub set_tags : TagTable → ℕ → GoMap String → Call Tables (Unit {0})
set_tags table id labels = do
  statement (λ t.
      (ok tt, record t { rows = put_tags table (without_tags id (tags_in table t.rows)) t.rows }))
  if is_empty (entries labels)
      then answer (ok tt)
      else statement (λ t.
        tags_added table (add_tags id (label_map_to_tags (entries labels)) (tags_in table t.rows))
          t)

abbrev pub in_front : Char → Option (String × String) → Option (String × String)
in_front c none = none
in_front c (some (key, val)) = some (String.◌∷◌ c key, val)

-- `strings.SplitN(tag, "=", 2)`, where it has two parts
unfoldable pub split_tag : String → Option (String × String)
split_tag String.[] = none
split_tag (String.◌∷◌ c s) =
    let rest = split_tag s in if eqb (code c) 61 then some ("", s) else in_front c rest

abbrev pub label_set :
    Option (String × String)
    → (Dict String → Option (Dict String))
    → Dict String
    → Option (Dict String)
label_set none next labels = none
label_set (some (key, val)) next labels = next (insert key val labels)

-- the loop of `tagsToLabelMap`
unfoldable pub add_labels : List String → Dict String → Option (Dict String)
add_labels [] labels = some labels
add_labels (tag ∷ tags) labels = label_set (split_tag tag) (add_labels tags) labels

-- `tagsToLabelMap`; it panics at a tag without `=`, which is `none`
unfoldable pub tags_to_label_map : List String → Option (Dict String)
tags_to_label_map tags = add_labels tags []
