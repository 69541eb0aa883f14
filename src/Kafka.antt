-- ===== src/Kafka.antt =====
-- pkg/kafka/consumer_reset.go: the parameters of a reset of a consumer's offsets, and the command
-- that a Kubernetes job runs for it.
pub mod Resets
use entropy.Base.{ℕ, String, Bool, true, false, not, ◌&&◌, List, [], ◌∷◌, ◌++◌, ◌==◌, if◌then◌else◌}
use entropy.Base.Text.{◌<>◌}
use entropy.Errors.{own, err_invalid, with_msgf, with_causef, go_text}
use entropy.Io.{Result, ok, err, Call}
use entropy.Resource.{RawMessage}
use entropy.Helpers.{trim_suffix}

abbrev pub kafka_image : String
kafka_image = "bitnami/kafka:2.0.0"

abbrev pub retries : ℕ
retries = 6

abbrev pub reset_latest : String
reset_latest = "latest"

abbrev pub reset_earliest : String
reset_earliest = "earliest"

abbrev pub reset_datetime : String
reset_datetime = "datetime"

pub record ResetV2Params : Type 0 where
  pub to : String
  pub datetime : String

pub record ResetParams : Type 0 where
  pub to : String

-- the error of `json.Unmarshal`
abbrev pub decoded : {A B : Type 0} → Result A → (A → Result B) → Result B
decoded (ok a) f = f a
decoded (err e) f =
    err (own (with_causef (with_msgf err_invalid "invalid reset params") (go_text e)))

unfoldable pub reset_v2_value : (String → String) → ResetV2Params → Result String
reset_v2_value to_lower params =
    let reset_value = to_lower params.to in
    if params.to == reset_datetime
    then ok params.datetime
    else if not (reset_value == reset_latest) && not (reset_value == reset_earliest)
    then err (own (with_msgf err_invalid "reset_value must be one of [earliest latest datetime]"))
    else ok reset_value

-- `ParseResetV2Params`, over the JSON decoder and `strings.ToLower`
unfoldable pub parse_reset_v2_params :
    (String → String) → (RawMessage → Result ResetV2Params) → RawMessage → Result String
parse_reset_v2_params to_lower decode bytes = decoded (decode bytes) (reset_v2_value to_lower)

unfoldable pub reset_value_of : (String → String) → ResetParams → Result String
reset_value_of to_lower params =
    let reset_value = to_lower params.to in
    if not (reset_value == reset_latest) && not (reset_value == reset_earliest)
    then err (own (with_msgf err_invalid "reset_value must be one of [earliest latest]"))
    else ok reset_value

-- `ParseResetParams`
unfoldable pub parse_reset_params :
    (String → String) → (RawMessage → Result ResetParams) → RawMessage → Result String
parse_reset_params to_lower decode bytes = decoded (decode bytes) (reset_value_of to_lower)

-- the flags for a reset value
unfoldable pub reset_flags : String → List String
reset_flags value =
    if value == reset_latest
    then "--to-latest" ∷ []
    else if value == reset_earliest
    then "--to-earliest" ∷ []
    else "--to-datetime" ∷ value ∷ []

unfoldable pub prep_command : String → String → String → List String
prep_command brokers consumer_id value =
    ("kafka-consumer-groups.sh" ∷ "--bootstrap-server" ∷ brokers ∷ "--group" ∷ consumer_id
      ∷ "--reset-offsets" ∷ "--execute" ∷ "--all-topics" ∷ [])
    ++ reset_flags value

-- `DoReset`, over `RunJob` of the cluster's client: the namespace, the name, the image, the command
-- and the retries of the job, and that it is awaited.
unfoldable pub do_reset :
    {W : Type 0}
    → (String → String → String → List String → ℕ → Bool → Call W (Unit {0}))
    → String
    → String
    → String
    → String
    → String
    → Call W (Unit {0})
do_reset run_job kube_namespace brokers consumer_id value job_name =
    run_job kube_namespace (trim_suffix "-firehose" job_name <> "-reset") kafka_image
      (prep_command brokers consumer_id value) retries true
