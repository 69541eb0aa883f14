-- ===== src/Postgres/Resources/Linked.antt =====
-- The rows of resources and of their dependencies (resource_store.go, resource_model.go): what the
-- changes to the tables make of the dependencies that are read for each resource.
use entropy.Base.{
  ℕ, ◌≤◌, String, Bool, true, false, Option, none, some, List, [], ◌∷◌, ◌++◌, eqb, if◌then◌else◌,
  ◌≡◌, refl, sym, ◌∙◌, ap, arith, eq_iff,
}
use entropy.Base.Dict.{Dict}
use entropy.Postgres.{ResourceRow, DependencyRow}
use entropy.Postgres.Resources.{find_resource, urn_of, with_urn, joined_deps}
use entropy.Postgres.Resources.Writes.{without_deps, add_deps, change_row}

-- The primary key tells the rows apart: the id that a URN has leads back to it.
abbrev pub IsKeyed : List ResourceRow → Type 0
IsKeyed rows =
    (urn : String) (row : ResourceRow)
    → find_resource urn rows ≡ some row
    → urn_of row.id rows ≡ some urn

-- the ids from a number on are free
abbrev pub IsFree : ℕ → List ResourceRow → Type 0
IsFree next rows = (id : ℕ) → next ≤ id → urn_of id rows ≡ none

pub some-inj {ℓ} : {A : Type ℓ} {a b : A} → some a ≡ some b → a ≡ b
some-inj e = ground arith

pub if_same_id {ℓ} : {A : Type ℓ} (id : ℕ) (x y : A) → (if eqb id id then x else y) ≡ x
if_same_id id x y = ground arith

pub find_resource-urn :
    (urn : String) (rows : List ResourceRow) (row : ResourceRow)
    → find_resource urn rows ≡ some row
    → row.urn ≡ urn
unfolding find_resource
find_resource-urn urn [] row e = ground arith
find_resource-urn urn (first ∷ rows) row e =
    ground (arith, find_resource-urn urn rows row, eq_iff first.urn urn)

-- a row that is changed, where it is the row with the id
abbrev pub changed : ℕ → (ResourceRow → ResourceRow) → Option ResourceRow → Option ResourceRow
changed id f none = none
changed id f (some row) = some (if eqb row.id id then f row else row)

module _ (id : ℕ) (f : ResourceRow → ResourceRow)
    (same_id : (row : ResourceRow) → (f row).id ≡ row.id)
    (same_urn : (row : ResourceRow) → (f row).urn ≡ row.urn) where
  pub find_resource-change_row :
      (urn : String) (rows : List ResourceRow)
      → find_resource urn (change_row id f rows) ≡ changed id f (find_resource urn rows)
  unfolding find_resource change_row
  find_resource-change_row urn [] = refl
  find_resource-change_row urn (row ∷ rows) =
      ground (arith, find_resource-change_row urn rows, same_urn row, eq_iff row.urn urn)

  pub urn_of-change_row :
      (i : ℕ) (rows : List ResourceRow) → urn_of i (change_row id f rows) ≡ urn_of i rows
  unfolding urn_of change_row
  urn_of-change_row i [] = refl
  urn_of-change_row i (row ∷ rows) =
      ground (arith, urn_of-change_row i rows, same_urn row, same_id row)

  kept_id : (b : Bool) (row : ResourceRow) → (if b then f row else row).id ≡ row.id
  kept_id true row = same_id row
  kept_id false row = refl

  changed_id :
      (o : Option ResourceRow) (row : ResourceRow)
      → changed id f o ≡ some row
      → (old : ResourceRow) × (o ≡ some old) × (old.id ≡ row.id)
  changed_id none row e = ground arith
  changed_id (some old) row e =
      (old, refl, sym (kept_id (eqb old.id id) old) ∙ ap (λ r. r.id) (some-inj e))

  pub IsKeyed-change_row : (rows : List ResourceRow) → IsKeyed rows → IsKeyed (change_row id f rows)
  IsKeyed-change_row rows keyed urn row found =
      let (old, was, same) =
        changed_id (find_resource urn rows) row (sym (find_resource-change_row urn rows) ∙ found) in
      urn_of-change_row row.id rows ∙ ap (λ i. urn_of i rows) (sym same) ∙ keyed urn old was

pub joined_deps-without_deps :
    (i id : ℕ) (rows : List DependencyRow) (resources : List ResourceRow)
    → joined_deps i (without_deps id rows) resources
      ≡ (if eqb i id then [] else joined_deps i rows resources)
unfolding joined_deps without_deps
joined_deps-without_deps i id [] resources = ground arith
joined_deps-without_deps i id (row ∷ rows) resources =
    ground (arith, joined_deps-without_deps i id rows resources)

-- the dependencies that rows with these ids lead to
unfoldable pub named : Dict ℕ → List ResourceRow → Dict String
named [] resources = []
named ((key, on) ∷ ids) resources = with_urn key (urn_of on resources) (named ids resources)

abbrev extended : ℕ → ℕ → Dict String → Dict String → Dict String
extended i id new old = if eqb i id then old ++ new else old

with_urn-append :
    (key : String) (o : Option String) (xs ys : Dict String)
    → with_urn key o (xs ++ ys) ≡ with_urn key o xs ++ ys
with_urn-append key none xs ys = refl
with_urn-append key (some urn) xs ys = refl

joined_deps-append_one :
    (i id : ℕ) (key : String) (on : ℕ) (rows : List DependencyRow) (resources : List ResourceRow)
    → joined_deps i
        (rows ++ (record { resource_id = id; dependency_key = key; depends_on = on } ∷ []))
        resources
      ≡ extended i id (with_urn key (urn_of on resources) []) (joined_deps i rows resources)
unfolding joined_deps
joined_deps-append_one i id key on [] resources = ground arith
joined_deps-append_one i id key on (row ∷ rows) resources = ground (
  arith,
  joined_deps-append_one i id key on rows resources,
  with_urn-append row.dependency_key (urn_of row.depends_on resources)
      (joined_deps i rows resources) (with_urn key (urn_of on resources) []),
)

append_assoc : {A : Type 0} (xs ys zs : List A) → (xs ++ ys) ++ zs ≡ xs ++ (ys ++ zs)
append_assoc [] ys zs = refl
append_assoc (x ∷ xs) ys zs = ap (λ l. x ∷ l) (append_assoc xs ys zs)

append_nil : {A : Type 0} (xs : List A) → xs ++ [] ≡ xs
append_nil [] = refl
append_nil (x ∷ xs) = ap (λ l. x ∷ l) (append_nil xs)

with_urn-nil-append :
    (key : String) (o : Option String) (ys : Dict String)
    → with_urn key o [] ++ ys ≡ with_urn key o ys
with_urn-nil-append key none ys = refl
with_urn-nil-append key (some urn) ys = refl

pub joined_deps-add_deps :
    (i id : ℕ) (ids : Dict ℕ) (rows rows' : List DependencyRow) (resources : List ResourceRow)
    → add_deps id ids rows ≡ some rows'
    → joined_deps i rows' resources ≡ (
        if eqb i id
        then joined_deps i rows resources ++ named ids resources
        else joined_deps i rows resources)
unfolding add_deps named
joined_deps-add_deps i id [] rows rows' resources e =
    rw (← some-inj e) (ground (arith, append_nil (joined_deps i rows resources)))
joined_deps-add_deps i id ((key, on) ∷ ids) rows rows' resources e = ground (
  arith,
  joined_deps-add_deps i id ids
      (rows ++ (record { resource_id = id; dependency_key = key; depends_on = on } ∷ [])) rows'
      resources,
  joined_deps-append_one i id key on rows resources,
  append_assoc (joined_deps i rows resources) (with_urn key (urn_of on resources) [])
      (named ids resources),
  with_urn-nil-append key (urn_of on resources) (named ids resources),
)
