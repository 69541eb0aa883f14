-- ===== src/Helpers/Fits.antt =====
-- `SafeName` of modules/utils.go: the name that it makes fits the limit.
use Prim.Native.Char.{Char, code}
use mathlib.Core.Path.{subst}
use Prim.Native.String.{[], ◌∷◌}
use text.Mathlib.TextLemmas.{nil-append, cons-append, append_assoc}
use entropy.Base.{
  ℕ, zero, suc, ◌+◌, ◌-◌, ◌≤◌, String, Bool, true, false, Option, none, some, ◌≡◌, refl, sym, arith,
  ltb, leb, eqb, if◌then◌else◌, Bool-cases, inl, inr,
}
use entropy.Base.Text.{◌<>◌}
use entropy.Helpers.{
  text_length, cons_to, slice_to, trim_suffix, trim_left_hyphens, before_hyphens,
  trim_right_hyphens, trim_hyphens, joined, truncated_name, hashed_name, safe_name,
}

pub text_length-append : (s t : String) → text_length (s <> t) ≡ text_length s + text_length t
unfolding text_length
text_length-append [] t = rw (nil-append t) (omega arith)
text_length-append (c ∷ s) t = rw cons-append (omega (arith, text_length-append s t))

cons_to-length :
    (c : Char) (o : Option String) (n : ℕ)
    → ((s : String) × (o ≡ some s) × (text_length s ≡ n))
    → (s : String) × (cons_to c o ≡ some s) × (text_length s ≡ suc n)
unfolding text_length
cons_to-length c none n (s, e, l) = cc
cons_to-length c (some t) n (s, e, l) = (c ∷ t, refl, ground arith)

-- a slice within the text has the length asked for
slice_to-length :
    (n : ℕ) (s : String)
    → n ≤ text_length s
    → (t : String) × (slice_to n s ≡ some t) × (text_length t ≡ n)
unfolding slice_to text_length
slice_to-length zero s h = ("", refl, refl)
slice_to-length (suc n) [] h = absurd (omega arith)
slice_to-length (suc n) (c ∷ s) h =
    cons_to-length c (slice_to n s) n (slice_to-length n s (omega arith))

trim_left_hyphens-length : (s : String) → text_length (trim_left_hyphens s) ≤ text_length s
unfolding trim_left_hyphens text_length
trim_left_hyphens-length [] = omega arith
trim_left_hyphens-length (c ∷ s) = ground (arith, trim_left_hyphens-length s)

at_most_one : (c : Char) (b : Bool) → text_length (if b then [] else c ∷ []) ≤ 1
unfolding text_length
at_most_one c true = omega arith
at_most_one c false = omega arith

before_hyphens-length :
    (c : Char) (s : String) → text_length (before_hyphens c s) ≤ suc (text_length s)
unfolding text_length
before_hyphens-length c [] = at_most_one c (eqb (code c) b'-')
before_hyphens-length c (d ∷ s) = omega arith

trim_right_hyphens-length : (s : String) → text_length (trim_right_hyphens s) ≤ text_length s
unfolding trim_right_hyphens text_length
trim_right_hyphens-length [] = omega arith
trim_right_hyphens-length (c ∷ s) =
    omega (arith, before_hyphens-length c (trim_right_hyphens s), trim_right_hyphens-length s)

-- the result exists, fits, and ends with the suffix
abbrev pub Fits : String → ℕ → Option String → Type 0
Fits suffix max_len o =
    (r : String) × (o ≡ some r)
    × (text_length r ≤ max_len)
    × ((start : String) × (r ≡ start <> suffix))

joined-Fits :
    (start suffix t : String) (max_len : ℕ)
    → text_length t + text_length (start <> suffix) ≤ max_len
    → Fits suffix max_len (joined (start <> suffix) (some t))
joined-Fits start suffix t max_len h = (
  trim_hyphens t <> start <> suffix,
  refl,
  omega (
    arith,
    text_length-append (trim_hyphens t) (start <> suffix),
    trim_right_hyphens-length (trim_left_hyphens t),
    trim_left_hyphens-length t,
  ),
  (trim_hyphens t <> start, sym (append_assoc (trim_hyphens t) start suffix)),
)

truncated_name-Fits :
    (name start suffix : String) (max_len : ℕ)
    → text_length (start <> suffix) ≤ max_len
    → max_len ≤ text_length name + text_length suffix
    → Fits suffix max_len (truncated_name name (start <> suffix) max_len)
unfolding truncated_name
truncated_name-Fits name start suffix max_len room long =
    let fits : ltb max_len (text_length (start <> suffix)) ≡ false = ground arith in
    let (t, cut, length) =
      slice_to-length (max_len - text_length (start <> suffix)) name
        (omega (arith, text_length-append start suffix)) in
    rw (fits, cut) (joined-Fits start suffix t max_len (omega arith))

hyphen : text_length "-" ≡ 1
unfolding text_length
hyphen = refl

within : {a b : ℕ} → leb a b ≡ true → a ≤ b
within h = ground arith

beyond : {a b : ℕ} → leb a b ≡ false → b ≤ a
beyond h = ground arith

hashed_name-Fits :
    (name suffix digest : String) (max_len : ℕ)
    → 6 ≤ text_length digest
    → 7 + text_length suffix ≤ max_len
    → max_len ≤ text_length name + text_length suffix
    → Fits suffix max_len (hashed_name name suffix max_len (slice_to 6 digest))
hashed_name-Fits name suffix digest max_len digits room long =
    let (hash, cut, length) = slice_to-length 6 digest digits in
    rw cut (
      subst (λ s. Fits suffix max_len (truncated_name name s max_len))
        (append_assoc "-" hash suffix)
        (truncated_name-Fits name ("-" <> hash) suffix max_len
          (omega (
            arith,
            text_length-append ("-" <> hash) suffix,
            text_length-append "-" hash,
            hyphen,
            length,
          ))
          long))

-- If the limit leaves room for the suffix, a hyphen and six digits of the digest, then `SafeName`
-- returns, without a panic, a name that ends with the suffix and is no longer than the limit.
pub safe_name-Fits :
    (hex : String → String) (name suffix : String) (max_len : ℕ)
    → 6 ≤ text_length (hex (trim_suffix suffix name))
    → 7 + text_length suffix ≤ max_len
    → Fits suffix max_len (safe_name hex name suffix max_len)
unfolding safe_name
safe_name-Fits hex name suffix max_len digits room =
    let short = trim_suffix suffix name in
    elim (Bool-cases (leb (text_length short + text_length suffix) max_len)) [
      | inl enough ↦ rw enough (
        short <> suffix,
        refl,
        omega (arith, text_length-append short suffix, within enough),
        (short, refl),
      )
      | inr long ↦
          rw long (hashed_name-Fits short suffix (hex short) max_len digits room (beyond long))
    ]
