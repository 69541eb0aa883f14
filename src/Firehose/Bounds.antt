-- ===== src/Firehose/Bounds.antt =====
-- `readConfig` of modules/firehose/config.go: the bounds of a configuration that is read.
use mathlib.Core.Path.{subst}
use entropy.Base.{
  ap, ℕ, sym, ◌+◌, ◌≤◌, ◌&&◌, String, true, false, Option, none, some, [], ◌≡◌, ◌≢◌, refl, arith,
  ◌==◌, ltb, eqb, Bool-cases, eq_iff, is_empty, inl, inr,
}
use entropy.Base.Dict.{Dict, entries, lookup, or_zero, lookup-insert}
use entropy.Base.Text.{◌<>◌}
use entropy.Io.{Result, ok, err}
use entropy.Io.Invert.{ok-inj}
use entropy.Helpers.{clone_and_merge_maps, text_length, trim_suffix}
use entropy.Helpers.Fits.{text_length-append, safe_name-Fits}
use entropy.Resource.{RawMessage, Resource}
use entropy.Firehose.{
  ℤ, pos, negsuc, conf_key_consumer_id, Trigger, Keda, Autoscaler, Config, DriverConf, Libraries,
}
use entropy.Firehose.Configs.{
  at_least_one, then_result, or_bad_config, deployment_name, with_consumer_id, filled_config,
  read_autoscaler, with_autoscaler, validated, read_config,
}
use entropy.Firehose.Scaling.{ltz, is_zero, validate_keda, validate_autoscaler, read_keda_config}

pub then_result-eq-ok :
    {A B : Type 0} (r : Result A) (f : A → Result B) {b : B}
    → then_result r f ≡ ok b
    → (a : A) × (r ≡ ok a) × (f a ≡ ok b)
then_result-eq-ok (ok a) f e = (a, refl, e)
then_result-eq-ok (err x) f e = ground arith

-- The autoscaler may scale between two numbers of replicas, by a trigger.
abbrev pub IsScalable : Keda → Type 0
IsScalable keda =
    (low : ℕ) × (high : ℕ) × (keda.min_replicas ≡ pos low)
    × (keda.max_replicas ≡ pos high)
    × (low ≤ high)
    × (1 ≤ high)
    × (keda.triggers ≢ [])

-- At least one replica, a deployment whose name is not too long, and a consumer group with a name.
abbrev pub IsSized : Config → Type 0
IsSized cfg =
    (1 ≤ cfg.replicas)
    × (text_length cfg.deployment_id ≤ 53)
    × ((or_zero "" (lookup conf_key_consumer_id (entries cfg.env_variables)) == "") ≡ false)

-- An autoscaler that is enabled can scale.
abbrev pub IsScaled : Option Autoscaler → Type 0
IsScaled o = (a : Autoscaler) → o ≡ some a → a.enabled ≡ true → IsScalable a.spec

abbrev pub IsBounded : Config → Type 0
IsBounded cfg = IsSized cfg × IsScaled cfg.autoscaler

room : 7 + text_length "-firehose" ≤ 53
unfolding text_length
room = omega arith

deployment_name-fits :
    (hex : String → String) (r : Resource) (given : String) {name : String}
    → 6 ≤ text_length (hex (trim_suffix "-firehose" (r.project <> "-" <> r.name)))
    → deployment_name hex r given ≡ ok name
    → text_length name ≤ 53
unfolding deployment_name
deployment_name-fits hex r given digits e = elim (Bool-cases (eqb (text_length given) 0)) [
  | inl unnamed ↦
      let (made, is_made, fits, _) =
        safe_name-Fits hex (r.project <> "-" <> r.name) "-firehose" 53 digits room in
      ground (arith, is_made)
  | inr named ↦ elim (Bool-cases (ltb 53 (text_length given))) [
    | inl long ↦ ground arith
    | inr short ↦ ground arith
  ]
]

length_of_empty : (s : String) → s ≡ "" → text_length s ≡ 0
unfolding text_length
length_of_empty s e = ap text_length e

numbered : (id : String) → ((id <> "-1") == "") ≡ false
unfolding text_length
numbered id =
    ground (arith, eq_iff (id <> "-1") "", text_length-append id "-1", length_of_empty (id <> "-1"))

with_consumer_id-named :
    (id : String) (env : Dict String)
    → (or_zero "" (lookup conf_key_consumer_id (with_consumer_id id env)) == "") ≡ false
unfolding with_consumer_id
with_consumer_id-named id env =
    elim (Bool-cases (or_zero "" (lookup conf_key_consumer_id env) == "")) [
      | inl unnamed ↦
          rw (unnamed, lookup-insert conf_key_consumer_id conf_key_consumer_id (id <> "-1") env)
            (numbered id)
      | inr named ↦ rw named named
    ]

all_scalable :
    (low high : ℤ)
    → (is_zero low && is_zero high) ≡ false
    → ltz low (pos 0) ≡ false
    → ltz high (pos 1) ≡ false
    → ltz high low ≡ false
    → (l : ℕ) × (h : ℕ) × (low ≡ pos l) × (high ≡ pos h) × (l ≤ h) × (1 ≤ h)
all_scalable (pos l) (pos h) a b c d = (l, h, refl, refl, ground arith, ground arith)
all_scalable (pos l) (negsuc h) a b c d = ground arith
all_scalable (negsuc l) high a b c d = ground arith

has_some : (m : Dict Trigger) → is_empty m ≡ false → m ≢ []
has_some m h = λ none'. ground arith

validate_keda-IsScalable : (keda : Keda) → validate_keda keda ≡ ok tt → IsScalable keda
unfolding validate_keda
validate_keda-IsScalable keda e =
    let (low, high, is_low, is_high, ordered, some_high) =
      all_scalable keda.min_replicas keda.max_replicas (ground arith) (ground arith) (ground arith)
        (ground arith) in
    (low, high, is_low, is_high, ordered, some_high, has_some keda.triggers (ground arith))

validate_autoscaler-IsScalable :
    (a : Autoscaler) → validate_autoscaler a ≡ ok tt → a.enabled ≡ true → IsScalable a.spec
unfolding validate_autoscaler
validate_autoscaler-IsScalable a e on = validate_keda-IsScalable a.spec (ground arith)

validated-eq-ok :
    (cfg : Config) (a : Autoscaler) (o : Result (Unit {0})) {read : Config}
    → validated cfg a o ≡ ok read
    → (o ≡ ok tt) × (record cfg { autoscaler = some a } ≡ read)
validated-eq-ok cfg a (ok tt) e = (refl, ok-inj e)
validated-eq-ok cfg a (err x) e = ground arith

one_autoscaler : {a b : Autoscaler} → some a ≡ some b → a ≡ b
one_autoscaler e = cc

of_read-IsScaled : (a : Autoscaler) → (a.enabled ≡ true → IsScalable a.spec) → IsScaled (some a)
of_read-IsScaled a h b same =
    subst (λ x. x.enabled ≡ true → IsScalable x.spec) (one_autoscaler same) h

not_enabled : (a : Autoscaler) → a.enabled ≡ false → a.enabled ≡ true → IsScalable a.spec
not_enabled a off on = ground arith

read_autoscaler-IsBounded :
    (dc : DriverConf) (cfg : Config) (a : Autoscaler) {read : Config}
    → IsSized cfg
    → read_autoscaler dc cfg a ≡ ok read
    → IsBounded read
read_autoscaler-IsBounded dc cfg a sized e =
    let scaler = record a { spec = read_keda_config (entries cfg.env_variables) dc a.spec } in
    let (valid, same) = validated-eq-ok cfg scaler (validate_autoscaler scaler) e in
    subst IsBounded same
      (sized, of_read-IsScaled scaler (validate_autoscaler-IsScalable scaler valid))

with_autoscaler-IsBounded :
    (dc : DriverConf) (cfg : Config) (o : Option Autoscaler) {read : Config}
    → IsSized cfg
    → cfg.autoscaler ≡ o
    → with_autoscaler dc cfg o ≡ ok read
    → IsBounded read
unfolding with_autoscaler
with_autoscaler-IsBounded dc cfg none sized is_none e =
    subst IsBounded (ok-inj e) (sized, λ a same. absurd (ground arith))
with_autoscaler-IsBounded dc cfg (some a) {read} sized is_a e = elim (Bool-cases a.enabled) [
  | inl on ↦
      let is_read : read_autoscaler dc cfg a ≡ ok read = ground arith in
      read_autoscaler-IsBounded dc cfg a sized is_read
  | inr off ↦
      let same : cfg ≡ read = ground arith in
      subst IsBounded same
        (sized, subst IsScaled (sym is_a) (of_read-IsScaled a (not_enabled a off)))
]

at_least_one-positive : (n : ℕ) → 1 ≤ at_least_one n
at_least_one-positive n = ground arith

filled_config-IsSized :
    (dc : DriverConf) (id : String) (cfg : Config)
    → text_length id ≤ 53
    → IsSized (filled_config dc id cfg)
unfolding filled_config
filled_config-IsSized dc id cfg fits = (
  at_least_one-positive cfg.replicas,
  fits,
  with_consumer_id-named id (clone_and_merge_maps dc.env_variables cfg.env_variables),
)

-- If the digest of the names has at least six digits, then a configuration that is read has at least
-- one replica, a deployment whose name has at most 53 bytes, a consumer group with a name, and, where
-- an autoscaler is enabled, one with a trigger whose bounds are in order and not negative.
pub read_config-IsBounded :
    (lib : Libraries) (dc : DriverConf) (r : Resource) (conf_json : RawMessage) {cfg : Config}
    → 6 ≤ text_length (lib.sha256_hex (trim_suffix "-firehose" (r.project <> "-" <> r.name)))
    → read_config lib dc r conf_json ≡ ok cfg
    → IsBounded cfg
unfolding read_config
read_config-IsBounded lib dc r conf_json digits e =
    let (cfg, _, e1) = then_result-eq-ok (or_bad_config (lib.decode_config conf_json)) _ e in
    let (_, _, e2) = then_result-eq-ok (lib.validate_config conf_json) _ e1 in
    let (id, named, e3) =
      then_result-eq-ok (deployment_name lib.sha256_hex r cfg.deployment_id) _ e2 in
    with_autoscaler-IsBounded dc (filled_config dc id cfg) _
      (filled_config-IsSized dc id cfg (deployment_name-fits _ r cfg.deployment_id digits named))
      refl e3
