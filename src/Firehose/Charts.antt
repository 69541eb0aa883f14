-- ===== src/Firehose/Charts.antt =====
-- modules/firehose/driver.go: `mergeChartValues`.
use Prim.Native.Char.{code}
use Prim.Native.String.{[], ◌∷◌}
use entropy.Base.{
  String, Bool, true, false, not, ◌&&◌, Option, none, some, ◌==◌, eqb, if◌then◌else◌,
}
use entropy.Base.Text.{◌<>◌, trim_space}
use entropy.Errors.{own, foreign, err_invalid, with_msgf}
use entropy.Io.{Result, ok, err}
use entropy.Firehose.{ChartValues}

abbrev pub image_repo : String
image_repo = "gotocompany/firehose"

unfoldable pub has_colon : String → Bool
has_colon [] = false
has_colon (c ∷ s) = let rest = has_colon s in if eqb (code c) 58 then true else rest

abbrev pub is_some : Option String → Bool
is_some none = false
is_some (some s) = true

-- what follows a prefix
unfoldable pub behind_prefix : String → String → Option String
behind_prefix [] s = some s
behind_prefix (c ∷ prefix) [] = none
behind_prefix (c ∷ prefix) (d ∷ s) =
    let rest = behind_prefix prefix s in if eqb (code c) (code d) then rest else none

abbrev pub or_whole : String → Option String → String
or_whole s none = s
or_whole s (some rest) = rest

-- strings.TrimPrefix
abbrev pub trim_prefix : String → String → String
trim_prefix prefix s = or_whole s (behind_prefix prefix s)

-- the tag of the new values, over the current ones
unfoldable pub retagged : ChartValues → String → Result (Option ChartValues)
retagged cur new_tag =
    if new_tag == ""
    then ok (some cur)
    else if has_colon new_tag && not (is_some (behind_prefix image_repo new_tag))
    then err (
        own (
          with_msgf err_invalid
            ("unknown image repo: '" <> new_tag <> "', must start with '" <> image_repo <> "'")))
    else ok (some (record cur { image_tag = trim_prefix (image_repo <> ":") new_tag }))

-- `mergeChartValues`, which panics where only the current values are nil
unfoldable pub merge_chart_values :
    Option ChartValues → Option ChartValues → Result (Option ChartValues)
merge_chart_values cur none = ok cur
merge_chart_values none (some new_val) =
    err (foreign "panic: invalid memory address or nil pointer dereference")
merge_chart_values (some cur) (some new_val) = retagged cur (trim_space new_val.image_tag)
