-- ===== src/Tests/Texts.antt =====
-- A long name, and the resets of a consumer.
use entropy.Base.{◌+◌, ◌≤◌, String, some, ◌≡◌, ◌⊎◌, refl, arith}
use entropy.Io.{ok}
use entropy.Helpers.{text_length, trim_suffix, safe_name}
use entropy.Helpers.Fits.{Fits, safe_name-Fits}
use entropy.Kafka.{
  ResetParams, ResetV2Params, reset_value_of, reset_v2_value, parse_reset_params,
  parse_reset_v2_params, reset_datetime,
}
use entropy.Kafka.Resets.{Keyword, AtTime, parse_reset_v2_params-AtTime}

abbrev digest : String → String
digest s = "0a1b2c3d"

digest_is_long : 6 ≤ text_length (digest (trim_suffix "-firehose" "orders-of-the-whole-shop"))
unfolding text_length
digest_is_long = omega arith

room : 7 + text_length "-firehose" ≤ 20
unfolding text_length
room = omega arith

safe_name-Fits_example :
    Fits "-firehose" 20 (safe_name digest "orders-of-the-whole-shop" "-firehose" 20)
safe_name-Fits_example =
    safe_name-Fits digest "orders-of-the-whole-shop" "-firehose" 20 digest_is_long room

abbrev latest : ResetParams
latest = record { to = "latest" }

parse_latest :
    parse_reset_params (λ s. s) (λ bytes. ok latest) (some "{\"to\":\"latest\"}") ≡ ok "latest"
unfolding parse_reset_params reset_value_of
parse_latest = refl

abbrev at_noon : ResetV2Params
at_noon = record { to = "datetime"; datetime = "2023-10-10T12:00:00" }

parse_noon :
    parse_reset_v2_params (λ s. s) (λ bytes. ok at_noon) (some "{}") ≡ ok "2023-10-10T12:00:00"
unfolding parse_reset_v2_params reset_v2_value
parse_noon = refl

parse_reset_v2_params-AtTime_example :
    (params : ResetV2Params) × (ok at_noon ≡ ok params)
    × (((params.to ≡ reset_datetime) × AtTime params.datetime "2023-10-10T12:00:00")
        ⊎ Keyword params.to "2023-10-10T12:00:00")
parse_reset_v2_params-AtTime_example =
    parse_reset_v2_params-AtTime (λ s. s) (λ bytes. ok at_noon) (some "{}") "2023-10-10T12:00:00"
      parse_noon
