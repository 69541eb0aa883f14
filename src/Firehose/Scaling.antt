-- ===== src/Firehose/Scaling.antt =====
-- modules/firehose/keda.go and modules/firehose/autoscaler.go: the specification of the autoscaler.
use entropy.Base.{
  String, Bool, true, false, not, ◌&&◌, Option, none, some, [], ◌∷◌, ◌==◌, ltb, eqb, if◌then◌else◌,
  is_empty,
}
use entropy.Base.Dict.{Dict, lookup, insert, copy_into, or_zero}
use entropy.Errors.{own, err_invalid, with_msgf}
use entropy.Io.{Result, ok, err}
use entropy.Firehose.{
  ℤ, pos, negsuc, conf_sink_type, conf_key_consumer_id, conf_key_kafka_brokers,
  conf_key_kafka_topic, default_key, Trigger, Fallback, Keda, Autoscaler, DriverConf,
}

abbrev pub kafka_scaler : String
kafka_scaler = "kafka"

abbrev pub bootstrap_servers_key : String
bootstrap_servers_key = "bootstrapServers"

abbrev pub topic_key : String
topic_key = "topic"

abbrev pub consumer_group_key : String
consumer_group_key = "consumerGroup"

-- `if _, ok := cfg[from]; ok { metadata[to] = cfg[from] }`
abbrev pub copied : Option String → String → Dict String → Dict String
copied none to metadata = metadata
copied (some value) to metadata = insert to value metadata

unfoldable pub update_trigger : Dict String → Trigger → Trigger
update_trigger cfg trigger =
    if trigger.scaler == kafka_scaler
    then record trigger {
      metadata = copied (lookup conf_key_kafka_brokers cfg) bootstrap_servers_key (
          copied (lookup conf_key_kafka_topic cfg) topic_key
            (copied (lookup conf_key_consumer_id cfg) consumer_group_key trigger.metadata));
    }
    else trigger

unfoldable pub update_triggers : Dict String → Dict Trigger → Dict Trigger
update_triggers cfg [] = []
update_triggers cfg ((key, trigger) ∷ triggers) =
    (key, update_trigger cfg trigger) ∷ update_triggers cfg triggers

-- `updateTriggersMetadata`
unfoldable pub update_triggers_metadata : Dict String → Keda → Keda
update_triggers_metadata cfg keda = record keda { triggers = update_triggers cfg keda.triggers }

-- a trigger of the resource over that of the driver
abbrev pub over_trigger : Option Trigger → Trigger → Trigger
over_trigger none trigger = trigger
over_trigger (some existing) trigger = record {
  scaler = if trigger.scaler == "" then existing.scaler else trigger.scaler;
  metadata = copy_into existing.metadata trigger.metadata;
  authentication_ref =
      if trigger.authentication_ref.name == ""
      then existing.authentication_ref
      else trigger.authentication_ref;
}

-- the loop over the triggers of the resource in `ReadConfig`
unfoldable pub merge_triggers : Dict Trigger → Dict Trigger → Dict Trigger
merge_triggers merged [] = merged
merge_triggers merged ((key, trigger) ∷ triggers) =
    merge_triggers (insert key (over_trigger (lookup key merged) trigger) merged) triggers

abbrev pub empty_keda : Keda
empty_keda = record {
  paused = false;
  paused_with_replica = false;
  paused_replica = pos 0;
  min_replicas = pos 0;
  max_replicas = pos 0;
  polling_interval = pos 0;
  cooldown_period = pos 0;
  triggers = [];
  restore_to_original_replica = false;
  fallback = none;
  hpa = none;
}

-- the configuration of the driver for the sink, or its default
abbrev pub keda_default : DriverConf → String → Keda
keda_default dc sink_type =
    or_zero (or_zero empty_keda (lookup default_key dc.keda)) (lookup sink_type dc.keda)

abbrev pub fallback_of : Option Fallback → Option Fallback → Option Fallback
fallback_of base none = base
fallback_of base (some f) = if f.behavior == "" then base else some f

abbrev pub or_base : {A : Type 0} → Option A → Option A → Option A
or_base base none = base
or_base base (some a) = some a

-- `Keda.ReadConfig`; a map that it copies is a value here
unfoldable pub read_keda_config : Dict String → DriverConf → Keda → Keda
read_keda_config env dc keda =
    let base = keda_default dc (or_zero "" (lookup conf_sink_type env)) in
    let merged = record base { triggers = merge_triggers base.triggers keda.triggers } in
    record (update_triggers_metadata env merged) {
      min_replicas = keda.min_replicas;
      max_replicas = keda.max_replicas;
      fallback = fallback_of base.fallback keda.fallback;
      hpa = or_base base.hpa keda.hpa;
      paused = keda.paused;
      paused_with_replica = keda.paused_with_replica;
      paused_replica = keda.paused_replica;
    }

-- `Pause(replica)`, which the driver calls with one number
unfoldable pub pause : ℤ → Keda → Keda
pause replica keda = record keda { paused_with_replica = true; paused_replica = replica }

unfoldable pub resume : Keda → Keda
resume keda = record keda { paused = false; paused_with_replica = false }

abbrev pub ltz : ℤ → ℤ → Bool
ltz (pos a) (pos b) = ltb a b
ltz (pos a) (negsuc b) = false
ltz (negsuc a) (pos b) = true
ltz (negsuc a) (negsuc b) = ltb b a

abbrev pub is_zero : ℤ → Bool
is_zero (pos a) = eqb a 0
is_zero (negsuc a) = false

-- `Keda.Validate`
unfoldable pub validate_keda : Keda → Result (Unit {0})
validate_keda keda =
    if is_zero keda.min_replicas && is_zero keda.max_replicas
    then err (
        own (
          with_msgf err_invalid
            "min_replicas and max_replicas must be set when autoscaler is enabled"))
    else if ltz keda.min_replicas (pos 0)
    then err (own (with_msgf err_invalid "min_replicas must be greater than or equal to 0"))
    else if ltz keda.max_replicas (pos 1)
    then err (own (with_msgf err_invalid "max_replicas must be greater than or equal to 1"))
    else if ltz keda.max_replicas keda.min_replicas
    then err (own (with_msgf err_invalid "min_replicas must be less than or equal to max_replicas"))
    else if is_empty keda.triggers
    then err (
        own
          (with_msgf err_invalid "at least one trigger must be defined when autoscaler is enabled"))
    else ok tt

-- `Autoscaler.Validate`
unfoldable pub validate_autoscaler : Autoscaler → Result (Unit {0})
validate_autoscaler a = if not a.enabled then ok tt else validate_keda a.spec

-- a call of a method of the specification of the autoscaler, where there is one
abbrev pub on_spec : (Keda → Keda) → Option Autoscaler → Option Autoscaler
on_spec f none = none
on_spec f (some a) = some (record a { spec = f a.spec })
