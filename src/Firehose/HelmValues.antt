-- ===== src/Firehose/HelmValues.antt =====
-- modules/firehose/keda.go and autoscaler.go: `GetHelmValues`, the values of the autoscaler for Helm.
use Prim.Native.Char.{Char, code}
use entropy.Base.{
  String, Bool, true, false, ◌&&◌, Option, none, some, List, [], ◌∷◌, ◌++◌, ◌==◌, eqb,
  if◌then◌else◌,
}
use entropy.Base.Dict.{Dict, lookup, insert}
use entropy.Io.{Result, ok}
use entropy.Helpers.{clone_and_merge_maps}
use entropy.Firehose.{
  ℤ, Trigger, Fallback, HorizontalPodAutoscaler, Keda, Autoscaler, Config, Libraries,
}
use entropy.Firehose.Configs.{then_result}
use entropy.Firehose.Numbers.{print_nat, print_int}
use entropy.Firehose.Scaling.{kafka_scaler, topic_key}
use entropy.Firehose.Templates.{render_tpl}

-- the map of `Autoscaler.GetHelmValues`, with the entry that is named for its type as fields
pub record AutoscalerValues : Type 0 where
  pub enabled : Bool
  pub kind : String
  pub annotations : Dict String
  pub max_replica_count : ℤ
  pub min_replica_count : ℤ
  pub polling_interval : ℤ
  pub cooldown_period : ℤ
  pub restore_to_original_replica_count : Bool
  pub fallback : Option Fallback
  pub triggers : List Trigger
  pub hpa : Option HorizontalPodAutoscaler

abbrev pub in_first : Char → List String → List String
in_first c [] = (String.◌∷◌ c String.[]) ∷ []
in_first c (s ∷ rest) = String.◌∷◌ c s ∷ rest

-- strings.Split at a bar
unfoldable pub split_bars : String → List String
split_bars String.[] = "" ∷ []
split_bars (String.◌∷◌ c s) =
    let rest = split_bars s in if eqb (code c) 124 then "" ∷ rest else in_first c rest

unfoldable pub has_bar : String → Bool
has_bar String.[] = false
has_bar (String.◌∷◌ c s) = let rest = has_bar s in if eqb (code c) 124 then true else rest

-- one trigger for each topic
unfoldable pub topic_triggers : Trigger → List String → List Trigger
topic_triggers trigger [] = []
topic_triggers trigger (topic ∷ topics) =
    record trigger { metadata = insert topic_key topic trigger.metadata }
    ∷ topic_triggers trigger topics

abbrev pub split_topics : Trigger → Option String → List Trigger
split_topics trigger none = trigger ∷ []
split_topics trigger (some topic) =
    if trigger.scaler == kafka_scaler && has_bar topic
    then topic_triggers trigger (split_bars topic)
    else trigger ∷ []

-- a trigger, once its metadata is rendered
abbrev pub rendered_triggers : Trigger → Dict String → List Trigger
rendered_triggers trigger metadata =
    split_topics (record trigger { metadata = metadata }) (lookup topic_key metadata)

-- the loop over the triggers
unfoldable pub trigger_values : Libraries → Dict String → Dict Trigger → Result (List Trigger)
trigger_values lib values [] = ok []
trigger_values lib values ((key, trigger) ∷ triggers) =
    then_result (render_tpl lib trigger.metadata values []) (λ metadata.
      then_result (trigger_values lib values triggers)
        (λ rest. ok (rendered_triggers trigger metadata ++ rest)))

unfoldable pub annotations_of : Keda → Dict String
annotations_of keda =
    (if keda.paused then ("autoscaling.keda.sh/paused", "true") ∷ [] else [])
    ++ (if keda.paused_with_replica
        then ("autoscaling.keda.sh/paused-replicas", print_int keda.paused_replica) ∷ []
        else [])

-- `Autoscaler.GetHelmValues` with `Keda.GetHelmValues`
unfoldable pub autoscaler_values : Libraries → Config → Autoscaler → Result AutoscalerValues
autoscaler_values lib cfg a =
    then_result
      (trigger_values lib
        (clone_and_merge_maps
          (some (("namespace", cfg.namespace) ∷ ("replicas", print_nat cfg.replicas) ∷ []))
          cfg.env_variables)
        a.spec.triggers)
      (λ triggers. ok (record {
        enabled = a.enabled;
        kind = a.kind;
        annotations = annotations_of a.spec;
        max_replica_count = a.spec.max_replicas;
        min_replica_count = a.spec.min_replicas;
        polling_interval = a.spec.polling_interval;
        cooldown_period = a.spec.cooldown_period;
        restore_to_original_replica_count = a.spec.restore_to_original_replica;
        fallback = a.spec.fallback;
        triggers = triggers;
        hpa = a.spec.hpa;
      }))
