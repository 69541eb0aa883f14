-- ===== src/Firehose/Templates.antt =====
-- modules/firehose/driver.go: the rendering of templates.
use entropy.Base.{String, [], ◌∷◌}
use entropy.Base.Dict.{Dict, insert}
use entropy.Base.Text.{◌<>◌}
use entropy.Errors.{own, err_invalid, with_msgf, with_causef, go_text}
use entropy.Io.{Result, ok, err}
use entropy.Firehose.{Scalar, text_value, other_value, TelegrafOutput, map_value, no_map, Libraries}
use entropy.Firehose.Configs.{then_result}

abbrev pub bad_template : {A : Type 0} → String → Result A → Result A
bad_template key (ok t) = ok t
bad_template key (err e) = err (
    own (
      with_causef (with_msgf err_invalid ("label template for '" <> key <> "' is invalid"))
        (go_text e)))

abbrev pub bad_render : Result String → Result String
bad_render (ok text) = ok text
bad_render (err e) =
    err (own (with_causef (with_msgf err_invalid "failed to render label template") (go_text e)))

-- `renderTpl`
unfoldable pub render_tpl :
    Libraries → Dict String → Dict String → Dict String → Result (Dict String)
render_tpl lib [] values final = ok final
render_tpl lib ((k, v) ∷ templates) values final =
    then_result (bad_template k (lib.parse_template v)) (λ t.
      then_result (bad_render (t values))
        (λ text. render_tpl lib templates values (insert k text final)))

-- the texts of a map of any values
unfoldable pub texts_of : Dict Scalar → Dict String
texts_of [] = []
texts_of ((k, text_value v) ∷ rest) = (k, v) ∷ texts_of rest
texts_of ((k, other_value v) ∷ rest) = texts_of rest

unfoldable pub put_texts : Dict String → Dict Scalar → Dict Scalar
put_texts [] values = values
put_texts ((k, v) ∷ texts) values = put_texts texts (insert k (text_value v) values)

-- `renderTplOfMapStringAny`
unfoldable pub render_tpl_of_map : Libraries → Dict Scalar → Dict String → Result (Dict Scalar)
render_tpl_of_map lib templates values =
    then_result (render_tpl lib (texts_of templates) values [])
      (λ texts. ok (put_texts texts templates))

-- the loop over the output of Telegraf
unfoldable pub render_output :
    Libraries → Dict TelegrafOutput → Dict String → Result (Dict TelegrafOutput)
render_output lib [] values = ok []
render_output lib ((k, no_map v) ∷ rest) values =
    then_result (render_output lib rest values) (λ done. ok ((k, no_map v) ∷ done))
render_output lib ((k, map_value m) ∷ rest) values =
    then_result (render_tpl_of_map lib m values) (λ rendered.
      then_result (render_output lib rest values) (λ done. ok ((k, map_value rendered) ∷ done)))
