-- ===== src/Resource/Urn.antt =====
-- `GenerateURN` and `Validate` of core/resource/resource.go: a URN names one resource.
use Prim.Native.Char.{code}
use Prim.Native.String.{String, [], ◌∷◌}
use text.Mathlib.TextLemmas.{nil-append, cons-append, append_cancel_left}
use entropy.Base.{
  ℕ, Bool, true, false, ◌&&◌, ◌≡◌, refl, ◌∙◌, sym, ap, arith, eqb, if◌then◌else◌, ◌==◌,
}
use entropy.Base.Text.{◌<>◌, trim_space}
use entropy.Io.{ok}
use entropy.Resource.{Resource, generate_urn, validate, status_unspecified}
use entropy.Resource.Naming.{
  is_letter, is_name_char, all_name_chars, some_name_chars, matches_naming, matches_naming_digits,
}

-- what stands before the first colon, and what stands behind it
before_colon : String → String
before_colon [] = []
before_colon (c ∷ s) = let rest = before_colon s in if eqb (code c) b':' then [] else c ∷ rest

after_colon : String → String
after_colon [] = []
after_colon (c ∷ s) = let rest = after_colon s in if eqb (code c) b':' then s else rest

name_char_no_colon : (n : ℕ) → is_name_char n ≡ true → eqb n b':' ≡ false
unfolding is_name_char is_letter
name_char_no_colon n h = ground arith

and_true : (a b : Bool) → (a && b) ≡ true → (a ≡ true) × (b ≡ true)
and_true a b h = ground arith

before_colon-join : (s t : String) → all_name_chars s ≡ true → before_colon (s <> ":" <> t) ≡ s
unfolding before_colon all_name_chars
before_colon-join [] t h = rw (nil-append, cons-append) refl
before_colon-join (c ∷ s) t h =
    let (first, rest) = and_true _ _ h in
    rw (cons-append, name_char_no_colon (code c) first)
      (ap (λ x. c ∷ x) (before_colon-join s t rest))

after_colon-join : (s t : String) → all_name_chars s ≡ true → after_colon (s <> ":" <> t) ≡ t
unfolding after_colon all_name_chars
after_colon-join [] t h = rw (nil-append, cons-append) (nil-append t)
after_colon-join (c ∷ s) t h =
    let (first, rest) = and_true _ _ h in
    rw (cons-append, name_char_no_colon (code c) first) (after_colon-join s t rest)

some→all_name_chars : (s : String) → some_name_chars s ≡ true → all_name_chars s ≡ true
unfolding some_name_chars all_name_chars
some→all_name_chars [] h = refl
some→all_name_chars (c ∷ s) h = h

letter_name_char : (n : ℕ) → is_letter n ≡ true → is_name_char n ≡ true
unfolding is_name_char
letter_name_char n h = ground arith

matches→all_name_chars : (s : String) → matches_naming s ≡ true → all_name_chars s ≡ true
unfolding matches_naming all_name_chars
matches→all_name_chars [] h = refl
matches→all_name_chars (c ∷ s) h =
    let (first, rest) = and_true _ _ h in
    rw (letter_name_char (code c) first) (some→all_name_chars s rest)

-- the kind, the project and the name are read back from a URN
generate_urn-parts :
    (kind project name : String)
    → all_name_chars kind ≡ true
    → all_name_chars project ≡ true
    → (t : String) × (generate_urn kind project name ≡ "orn:entropy:" <> t)
      × (before_colon t ≡ kind)
      × (before_colon (after_colon t) ≡ project)
      × (after_colon (after_colon t) ≡ name)
unfolding generate_urn
generate_urn-parts kind project name k p =
    let t = kind <> ":" <> project <> ":" <> name in
    let rest = after_colon-join kind (project <> ":" <> name) k in
    (
      t,
      refl,
      before_colon-join kind _ k,
      rw rest (before_colon-join project name p),
      rw rest (after_colon-join project name p),
    )

-- Different kinds, projects or names give different URNs, if the kinds and the projects match the
-- naming pattern.
pub generate_urn-injective :
    (kind project name kind' project' name' : String)
    → matches_naming kind ≡ true
    → matches_naming project ≡ true
    → matches_naming kind' ≡ true
    → matches_naming project' ≡ true
    → generate_urn kind project name ≡ generate_urn kind' project' name'
    → (kind ≡ kind') × (project ≡ project') × (name ≡ name')
generate_urn-injective kind project name kind' project' name' k p k' p' e =
    let (t, u, a, b, c) =
      generate_urn-parts kind project name (matches→all_name_chars kind k)
        (matches→all_name_chars project p) in
    let (t', u', a', b', c') =
      generate_urn-parts kind' project' name' (matches→all_name_chars kind' k')
        (matches→all_name_chars project' p') in
    let same : t ≡ t' = append_cancel_left "orn:entropy:" t t' (sym u ∙ e ∙ u') in
    (
      sym a ∙ ap before_colon same ∙ a',
      sym b ∙ ap (λ x. before_colon (after_colon x)) same ∙ b',
      sym c ∙ ap (λ x. after_colon (after_colon x)) same ∙ c',
    )

-- What a resource that was let through satisfies.
pub record IsValid (is_create : Bool) (r v : Resource) : Type 0 where
  pub kind : matches_naming v.kind ≡ true
  pub name : matches_naming_digits v.name ≡ true
  pub project : matches_naming v.project ≡ true
  pub trimmed_kind : v.kind ≡ trim_space r.kind
  pub trimmed_name : v.name ≡ trim_space r.name
  pub trimmed_project : v.project ≡ trim_space r.project
  pub urn : v.urn ≡ (if is_create then generate_urn v.kind v.project v.name else r.urn)
  pub status :
      v.state.status ≡ (if r.state.status == "" then status_unspecified else r.state.status)
  pub spec : v.spec ≡ r.spec
  pub labels : v.labels ≡ r.labels
  pub created_by : v.created_by ≡ r.created_by

-- A resource that `Validate` lets through has trimmed names that match the patterns, the unspecified
-- status where it had none, the URN that they generate where it is created and its own where not, and its
-- status where it had one, its spec, its labels and its creator unchanged.
pub validate-IsValid :
    (is_create : Bool) (r v : Resource) → validate is_create r ≡ ok v → IsValid is_create r v
unfolding validate
validate-IsValid is_create r v e = ground arith

-- Two resources that are let through for creation with the same URN agree in kind, project and name.
pub validate-urn_unique :
    (r s v u : Resource)
    → validate true r ≡ ok v
    → validate true s ≡ ok u
    → v.urn ≡ u.urn
    → (v.kind ≡ u.kind) × (v.project ≡ u.project) × (v.name ≡ u.name)
validate-urn_unique r s v u e f same =
    let a = validate-IsValid true r v e in
    let b = validate-IsValid true s u f in
    generate_urn-injective v.kind v.project v.name u.kind u.project u.name a.kind a.project b.kind
      b.project (sym a.urn ∙ same ∙ b.urn)
