-- ===== src/Kafka/Resets.antt =====
-- The command of a reset against the parameters that it was parsed from.
use entropy.Base.{Bool-cases, String, [], ◌∷◌, ◌==◌, ◌≡◌, ◌⊎◌, inl, inr, refl, arith, eq_iff}
use entropy.Io.{Result, ok, err}
use entropy.Resource.{RawMessage}
use entropy.Kafka.{
  ResetV2Params, ResetParams, reset_latest, reset_earliest, reset_datetime, decoded, reset_v2_value,
  reset_value_of, parse_reset_v2_params, parse_reset_params, reset_flags,
}

decoded-eq-ok :
    {A B : Type 0} (r : Result A) (f : A → Result B) {b : B}
    → decoded r f ≡ ok b
    → (a : A) × (r ≡ ok a) × (f a ≡ ok b)
decoded-eq-ok (ok a) f e = (a, refl, e)
decoded-eq-ok (err x) f e = ground arith

-- what the command does for the parameters of the first version
abbrev pub Keyword : String → String → Type 0
Keyword to value =
    ((to ≡ reset_latest) × (reset_flags value ≡ "--to-latest" ∷ []))
    ⊎ ((to ≡ reset_earliest) × (reset_flags value ≡ "--to-earliest" ∷ []))

keyword :
    (to value : String)
    → (to ≡ reset_latest) ⊎ (to ≡ reset_earliest)
    → value ≡ to
    → Keyword to value
unfolding reset_flags
keyword to value (inl h) e = inl (h, rw (e, h) refl)
keyword to value (inr h) e = inr (h, rw (e, h) refl)

reset_value_of-eq-ok :
    (to_lower : String → String) (params : ResetParams) (value : String)
    → reset_value_of to_lower params ≡ ok value
    → ((to_lower params.to ≡ reset_latest) ⊎ (to_lower params.to ≡ reset_earliest))
      × (value ≡ to_lower params.to)
unfolding reset_value_of
reset_value_of-eq-ok to_lower params value e =
    ground
      (arith, eq_iff (to_lower params.to) reset_latest, eq_iff (to_lower params.to) reset_earliest)

-- A reset whose parameters were parsed asks, in lower case, for the latest or for the earliest
-- offsets, and the command has the flag for these.
pub parse_reset_params-Keyword :
    (to_lower : String → String) (decode : RawMessage → Result ResetParams) (bytes : RawMessage)
    (value : String)
    → parse_reset_params to_lower decode bytes ≡ ok value
    → (params : ResetParams) × (decode bytes ≡ ok params) × Keyword (to_lower params.to) value
unfolding parse_reset_params
parse_reset_params-Keyword to_lower decode bytes value e =
    let (params, parsed, valid) = decoded-eq-ok _ _ e in
    let (known, same) = reset_value_of-eq-ok to_lower params value valid in
    (params, parsed, keyword _ value known same)

reset_v2_value-eq-ok :
    (to_lower : String → String) (params : ResetV2Params) (value : String)
    → reset_v2_value to_lower params ≡ ok value
    → ((params.to ≡ reset_datetime) × (value ≡ params.datetime))
      ⊎ (((to_lower params.to ≡ reset_latest) ⊎ (to_lower params.to ≡ reset_earliest))
          × (value ≡ to_lower params.to))
unfolding reset_v2_value
reset_v2_value-eq-ok to_lower params value e = ground (
  arith,
  eq_iff params.to reset_datetime,
  eq_iff (to_lower params.to) reset_latest,
  eq_iff (to_lower params.to) reset_earliest,
)

-- the command for a time, which might be one of the two words
abbrev pub AtTime : String → String → Type 0
AtTime datetime value =
    (value ≡ datetime)
    × (Keyword datetime value ⊎ (reset_flags value ≡ "--to-datetime" ∷ datetime ∷ []))

at_time : (datetime value : String) → value ≡ datetime → AtTime datetime value
unfolding reset_flags
at_time datetime value e = elim (Bool-cases (datetime == reset_latest)) [
  | inl latest ↦ (e, inl (keyword datetime value (inl ((eq_iff datetime reset_latest).0 latest)) e))
  | inr later ↦ elim (Bool-cases (datetime == reset_earliest)) [
    | inl earliest ↦
        (e, inl (keyword datetime value (inr ((eq_iff datetime reset_earliest).0 earliest)) e))
    | inr other ↦ (e, inr (rw (e, later, other) refl))
  ]
]

v2_flags :
    (to lower datetime value : String)
    → ((to ≡ reset_datetime) × (value ≡ datetime))
      ⊎ (((lower ≡ reset_latest) ⊎ (lower ≡ reset_earliest)) × (value ≡ lower))
    → ((to ≡ reset_datetime) × AtTime datetime value) ⊎ Keyword lower value
v2_flags to lower datetime value (inl (h, e)) = inl (h, at_time datetime value e)
v2_flags to lower datetime value (inr (h, e)) = inr (keyword lower value h e)

-- A reset whose parameters of the second version were parsed either asks, in exactly this spelling,
-- for a datetime, which the command passes on, unless it is one of the two words, whose flag is taken
-- then; or it asks, in lower case, for the latest or the earliest offsets, and the command has the flag.
pub parse_reset_v2_params-AtTime :
    (to_lower : String → String) (decode : RawMessage → Result ResetV2Params) (bytes : RawMessage)
    (value : String)
    → parse_reset_v2_params to_lower decode bytes ≡ ok value
    → (params : ResetV2Params) × (decode bytes ≡ ok params)
      × (((params.to ≡ reset_datetime) × AtTime params.datetime value)
          ⊎ Keyword (to_lower params.to) value)
unfolding parse_reset_v2_params
parse_reset_v2_params-AtTime to_lower decode bytes value e =
    let (params, parsed, valid) = decoded-eq-ok _ _ e in
    (
      params,
      parsed,
      v2_flags params.to _ params.datetime value (reset_v2_value-eq-ok to_lower params value valid),
    )
