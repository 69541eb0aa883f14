-- ===== src/Tests/Resources.antt =====
-- Names, URNs and filters.
use mathlib.Core.List.{Memᴰ}
use entropy.Base.{true, some, [], ◌∷◌, ◌≡◌, refl}
use entropy.Base.Text.{trim_space, trim_left, trim_right}
use entropy.Io.{ok}
use entropy.Resource.{Resource, generate_urn, validate}
use entropy.Resource.Naming.{
  matches_naming, matches_naming_digits, is_letter, is_name_char, all_name_chars, some_name_chars,
}
use entropy.Resource.Urn.{IsValid, generate_urn-injective, validate-IsValid, validate-urn_unique}
use entropy.Resource.Filter.{Filter, apply}
use entropy.Resource.Filter.Laws.{Matches, mem-apply}
use entropy.Tests.Fixture.{firehose, cluster, request}

abbrev padded : Resource
padded = record request { name = " k2 " }

abbrev validated : Resource
validated = record request { urn = "orn:entropy:kubernetes:shop:k2" }

validate-request : validate true request ≡ ok validated
unfolding validate generate_urn matches_naming matches_naming_digits is_letter is_name_char
    all_name_chars some_name_chars trim_space trim_left trim_right
validate-request = refl

validate-padded : validate true padded ≡ ok validated
unfolding validate generate_urn matches_naming matches_naming_digits is_letter is_name_char
    all_name_chars some_name_chars trim_space trim_left trim_right
validate-padded = refl

validate-IsValid_example : IsValid true padded validated
validate-IsValid_example = validate-IsValid true padded validated validate-padded

validate-urn_unique_example :
    (validated.kind ≡ validated.kind)
    × (validated.project ≡ validated.project)
    × (validated.name ≡ validated.name)
validate-urn_unique_example =
    validate-urn_unique request padded validated validated validate-request validate-padded refl

generate_urn-injective_example :
    (cluster.kind ≡ request.kind)
    × (cluster.project ≡ request.project)
    × (request.name ≡ request.name)
unfolding matches_naming is_letter is_name_char all_name_chars some_name_chars
generate_urn-injective_example =
    generate_urn-injective "kubernetes" "shop" "k2" "kubernetes" "shop" "k2" refl refl refl refl
      refl

abbrev data_firehoses : Filter
data_firehoses = record {
  kind = "firehose";
  project = "";
  labels = some (("team", "data") ∷ []);
  page_size = 0;
  page_num = 0;
}

mem-apply_example :
    (Memᴰ firehose (apply data_firehoses (cluster ∷ firehose ∷ []))
      → Memᴰ firehose (cluster ∷ firehose ∷ []) × Matches data_firehoses firehose)
    × (Memᴰ firehose (cluster ∷ firehose ∷ []) × Matches data_firehoses firehose
        → Memᴰ firehose (apply data_firehoses (cluster ∷ firehose ∷ [])))
mem-apply_example = mem-apply data_firehoses (cluster ∷ firehose ∷ []) firehose
