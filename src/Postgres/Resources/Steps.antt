-- ===== src/Postgres/Resources/Steps.antt =====
-- The parts of the transactions of resource_store.go: what each makes of the tables that it finds.
use mathlib.Core.Path.{subst}
use entropy.Base.{
  ℕ, ◌≤◌, String, true, Option, none, some, List, [], ◌∷◌, eqb, if◌then◌else◌, is_empty, ◌≡◌, refl,
  sym, ◌∙◌, ap, arith,
}
use entropy.Base.Dict.{Dict, GoMap, entries}
use entropy.Io.{Call}
use entropy.Io.Invert.{ok-inj}
use entropy.Postgres.{ResourceRow, DependencyRow, TagRow, Rows, Tables}
use entropy.Postgres.Gives.{
  Content, content, Ends, Gives, Gives-statement, Gives-answer, Gives-bind, Gives-if,
}
use entropy.Postgres.Tags.{
  TagTable, of_resources, of_revisions, tags_in, put_tags, tags_of, without_tags, add_tags,
  tags_added, label_map_to_tags, set_tags,
}
use entropy.Postgres.Tags.Laws.{tags_of-without_tags, tags_of-add_tags}
use entropy.Postgres.Resources.{find_resource, scanned_id, translate_urn_to_id, joined_deps}
use entropy.Postgres.Resources.Writes.{
  without_deps, add_deps, deps_added, translate_deps, delete_deps, insert_deps, set_dependencies,
}
use entropy.Postgres.Resources.Linked.{
  IsKeyed, joined_deps-without_deps, named, joined_deps-add_deps,
}

-- an assertion about what there is, for each thing that may be there
pub Gives-exists :
    {A X : Type 0} {P : X → Content → Type 0} {E : Content → Type 0} {Q : A → Content → Type 0}
    {m : Call Tables A}
    → ((x : X) → Gives (P x) E m Q)
    → Gives (λ c. (x : X) × P x c) E m Q
Gives-exists g = record { at = λ t (x, p). (g x).at t p }

-- what is known beside the tables stays known
pub Gives-known :
    {A : Type 0} {K : Type 0} {P E : Content → Type 0} {Q : A → Content → Type 0}
    {m : Call Tables A}
    → (K → Gives P E m Q)
    → Gives (λ c. P c × K) E m Q
Gives-known g = record { at = λ t (p, k). (g k).at t p }

-- the row that a URN is found to have
abbrev pub IsFound : List ResourceRow → String → ℕ → Type 0
IsFound resources urn id =
    (row : ResourceRow) × (find_resource urn resources ≡ some row) × (row.id ≡ id)

abbrev pub Same : Content → Content → Type 0
Same before c = c ≡ before

module _ (E : Content → Type 0) (before : Content) (fails : E before) where
  fails_there : (c : Content) → Same before c → E c
  fails_there c e = subst E (sym e) fails

  scanned_id-Ends :
      (urn : String) (o : Option ResourceRow) (t : Tables)
      → Same before (content t)
      → find_resource urn t.rows.resources ≡ o
      → Ends E (λ id c. Same before c × IsFound before.rows.resources urn id) (scanned_id o, t)
  scanned_id-Ends urn none t e found = fails_there (content t) e
  scanned_id-Ends urn (some row) t e found =
      (e, (row, ap (λ c. find_resource urn c.rows.resources) (sym e) ∙ found, refl))

  pub translate_urn_to_id-Gives :
      (urn : String)
      → Gives
          (Same before)
          E
          (translate_urn_to_id urn)
          (λ id c. Same before c × IsFound before.rows.resources urn id)
  unfolding translate_urn_to_id
  translate_urn_to_id-Gives urn =
      Gives-statement _ (λ t e. scanned_id-Ends urn _ t e refl) fails_there

  pub translate_deps-Gives :
      IsKeyed before.rows.resources
      → (deps : Dict String)
      → Gives
          (Same before)
          E
          (translate_deps deps)
          (λ ids c. Same before c × (named ids before.rows.resources ≡ deps))
  unfolding translate_deps named
  translate_deps-Gives keyed [] = Gives-answer _ (λ a c e s. (s, rw (← ok-inj e) refl)) fails_there
  translate_deps-Gives keyed ((key, urn) ∷ deps) = Gives-bind (translate_urn_to_id-Gives urn) (λ id.
      Gives-known (λ (row, found, same). Gives-bind (translate_deps-Gives keyed deps) (λ rest.
        Gives-known (λ known.
          Gives-answer _
            (λ a c e s. (s, rw (← ok-inj e) (rw (← same) (rw (keyed urn row found, known) refl))))
            fails_there))))

tags_in-put_tags :
    (table : TagTable) (tags : List TagRow) (rows : Rows)
    → tags_in table (put_tags table tags rows) ≡ tags
tags_in-put_tags of_resources tags rows = refl
tags_in-put_tags of_revisions tags rows = refl

put_tags-put_tags :
    (table : TagTable) (new old : List TagRow) (rows : Rows)
    → put_tags table new (put_tags table old rows) ≡ put_tags table new rows
put_tags-put_tags of_resources new old rows = refl
put_tags-put_tags of_revisions new old rows = refl

-- the tables with other tags
abbrev pub with_tags : TagTable → List TagRow → Content → Content
with_tags table tags c = record c { rows = put_tags table tags c.rows }

-- the tags of one id are those of the labels, and those of the others are as they were
abbrev pub AreTags : ℕ → GoMap String → List TagRow → List TagRow → Type 0
AreTags id labels old new =
    (i : ℕ)
    → tags_of i new ≡ (if eqb i id then label_map_to_tags (entries labels) else tags_of i old)

is_empty-nil : {A : Type 0} (xs : List A) → is_empty xs ≡ true → xs ≡ []
is_empty-nil [] e = refl
is_empty-nil (x ∷ xs) e = ground arith

AreTags-none :
    (id : ℕ) (labels : GoMap String) (old : List TagRow)
    → is_empty (entries labels) ≡ true
    → AreTags id labels old (without_tags id old)
unfolding label_map_to_tags
AreTags-none id labels old e =
    λ i. tags_of-without_tags i id old ∙ rw (is_empty-nil (entries labels) e) refl

AreTags-some :
    (id : ℕ) (labels : GoMap String) (old new : List TagRow)
    → add_tags id (label_map_to_tags (entries labels)) (without_tags id old) ≡ some new
    → AreTags id labels old new
AreTags-some id labels old new e = λ i. ground (
  arith,
  tags_of-add_tags i id (label_map_to_tags (entries labels)) (without_tags id old) new e,
  tags_of-without_tags i id old,
)

-- an assertion about an error that speaks of no more than a lower bound of the next id
abbrev pub IsLoose : (Content → Type 0) → Type 0
IsLoose E = (c c' : Content) → c.next_resource_id ≤ c'.next_resource_id → E c → E c'

-- the tables where an id has the tags of the labels
abbrev pub Tagged : Content → TagTable → ℕ → GoMap String → Content → Type 0
Tagged before table id labels c =
    (tags : List TagRow) × ((c ≡ with_tags table tags before)
      × AreTags id labels (tags_in table before.rows) tags)

module _ (E : Content → Type 0) (loose : IsLoose E) (before : Content) (fails : E before)
    (table : TagTable) (id : ℕ) (labels : GoMap String) where
  abbrev old_tags : List TagRow
  old_tags = tags_in table before.rows

  -- the tables without the tags of the id
  abbrev untagged : Content
  untagged = with_tags table (without_tags id old_tags) before

  tags_added-Ends :
      (t : Tables)
      → content t ≡ untagged
      → (o : Option (List TagRow))
      → add_tags id (label_map_to_tags (entries labels)) (without_tags id old_tags) ≡ o
      → Ends E (λ _ c. Tagged before table id labels c) (tags_added table o t)
  tags_added-Ends t e none found = subst E (sym e) (loose before _ (omega arith) fails)
  tags_added-Ends t e (some new) found = (
    new,
    (
      ap (with_tags table new) e
          ∙ ap (λ rows. record before { rows = rows })
              (put_tags-put_tags table new (without_tags id old_tags) before.rows),
      AreTags-some id labels old_tags new found,
    ),
  )

  insert_tags-Ends :
      (t : Tables)
      → content t ≡ untagged
      → Ends E
          (λ _ c. Tagged before table id labels c)
          (tags_added table
            (add_tags id (label_map_to_tags (entries labels)) (tags_in table t.rows))
            t)
  insert_tags-Ends t e = tags_added-Ends t e _ (
      ap (add_tags id (label_map_to_tags (entries labels)))
        (sym (ap (λ c. tags_in table c.rows) e ∙ tags_in-put_tags table _ before.rows)))

  pub set_tags-Gives :
      Gives (Same before) E (set_tags table id labels) (λ _ c. Tagged before table id labels c)
  unfolding set_tags
  set_tags-Gives =
      Gives-bind {Q = λ _ c. c ≡ untagged}
        (Gives-statement _
          (λ t e. ap (λ c. with_tags table (without_tags id (tags_in table c.rows)) c) e)
          (fails_there E before fails))
        (λ _.
          Gives-if (is_empty (entries labels))
            (λ none_left.
              Gives-answer _
                (λ a c e s.
                  (without_tags id old_tags, (s, AreTags-none id labels old_tags none_left)))
                (λ c e. subst E (sym e) (loose before _ (omega arith) fails)))
            (λ some_left.
              Gives-statement _ insert_tags-Ends
                (λ c e. subst E (sym e) (loose before _ (omega arith) fails))))

-- the tables with other dependencies
abbrev pub with_deps : List DependencyRow → Content → Content
with_deps deps c = record c { rows = record c.rows { dependencies = deps } }

-- the dependencies of one id are the given ones, and those of the others are as they were
abbrev pub AreDeps :
    ℕ → Dict String → List ResourceRow → List DependencyRow → List DependencyRow → Type 0
AreDeps id deps resources old new =
    (i : ℕ) → joined_deps i new resources ≡ (if eqb i id then deps else joined_deps i old resources)

-- the tables where an id has these dependencies
abbrev pub Depends : Content → ℕ → Dict String → Content → Type 0
Depends before id deps c =
    (new : List DependencyRow) × ((c ≡ with_deps new before)
      × AreDeps id deps before.rows.resources before.rows.dependencies new)

AreDeps-some :
    (id : ℕ) (ids : Dict ℕ) (resources : List ResourceRow) (old new : List DependencyRow)
    → add_deps id ids (without_deps id old) ≡ some new
    → AreDeps id (named ids resources) resources old new
AreDeps-some id ids resources old new e = λ i. ground (
  arith,
  joined_deps-add_deps i id ids (without_deps id old) new resources e,
  joined_deps-without_deps i id old resources,
)

module _ (E : Content → Type 0) (loose : IsLoose E) (before : Content) (fails : E before)
    (keyed : IsKeyed before.rows.resources) (id : ℕ) (deps : Dict String) where
  abbrev undepended : Content
  undepended = with_deps (without_deps id before.rows.dependencies) before

  deps_added-Ends :
      (t : Tables) (ids : Dict ℕ)
      → content t ≡ undepended
      → named ids before.rows.resources ≡ deps
      → (o : Option (List DependencyRow)) → add_deps id ids t.rows.dependencies ≡ o
      → Ends E (λ _ c. Depends before id deps c) (deps_added o t)
  deps_added-Ends t ids e known none found = subst E (sym e) (loose before _ (omega arith) fails)
  deps_added-Ends t ids e known (some new) found = (
    new,
    (
      ap (with_deps new) e,
      subst (λ d. AreDeps id d before.rows.resources before.rows.dependencies new) known
          (AreDeps-some id ids before.rows.resources before.rows.dependencies new
            (ap (λ c. add_deps id ids c.rows.dependencies) (sym e) ∙ found)),
    ),
  )

  pub set_dependencies-Gives :
      Gives (Same before) E (set_dependencies id deps) (λ _ c. Depends before id deps c)
  unfolding set_dependencies delete_deps insert_deps
  set_dependencies-Gives =
      Gives-bind {Q = λ _ c. c ≡ undepended}
        (Gives-statement _ (λ t e. ap (λ c. with_deps (without_deps id c.rows.dependencies) c) e)
          (fails_there E before fails))
        (λ _.
          Gives-if (is_empty deps)
            (λ none_left.
              Gives-answer _
                (λ a c e s. (
                  without_deps id before.rows.dependencies,
                  (
                    s,
                    λ i.
                        joined_deps-without_deps i id before.rows.dependencies before.rows.resources
                        ∙ rw (is_empty-nil deps none_left) refl,
                  ),
                ))
                (λ c e. subst E (sym e) (loose before _ (omega arith) fails)))
            (λ some_left.
              Gives-bind
                (translate_deps-Gives E undepended (loose before _ (omega arith) fails) keyed deps)
                (λ ids. Gives-known (λ known.
                  Gives-statement _ (λ t e. deps_added-Ends t ids e known _ refl)
                    (λ c e. subst E (sym e) (loose before _ (omega arith) fails))))))
