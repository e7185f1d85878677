-- ===== src/Gemini/Fold/Tests.antt =====
-- Runs of the fold of tool results of pkg/adapter/gemini.go at concrete inputs.
use aadapter.Base.{◌≡◌, ◌<◌, ◌⊎◌, refl, List, [], ◌∷◌, true, length, All}
use aadapter.Base.Maps.{get, put}
use aadapter.Base.Outcome.{ok, fail}
use aadapter.Json.{Object, object, str, string_or_empty}
use aadapter.Platform.Sample.{sample}
use aadapter.Gemini.Fold.{
  append_text, append_media, fold_response, supplement, fold_other, fold_part, fold_from,
  fold_supplements, too_late,
}
use aadapter.Gemini.Fold.Laws.{is_response, count_responses, fold_supplements-shape}

program : Unit {0}
unfolding get put string_or_empty append_text append_media fold_response supplement fold_other
    fold_part fold_from fold_supplements
program = tt

abbrev response : Object
response = ("name", str "read") ∷ ("response", object (("output", str "42") ∷ [])) ∷ []

abbrev parts : List Object
parts = (("functionResponse", object response) ∷ []) ∷ (("text", str "next?") ∷ []) ∷ []

abbrev folded : List Object
folded =
    ((
      "functionResponse",
      object
          (("name", str "read") ∷ ("response", object (("output", str "42\n\nnext?") ∷ [])) ∷ []),
    )
      ∷ [])
    ∷ []

-- A text after a tool result is appended to its output; one before it is an error.
folds : fold_supplements sample parts ≡ ok folded
unfolding program
folds = refl

text_first :
    fold_supplements sample
      ((("text", str "hi") ∷ []) ∷ (("functionResponse", object response) ∷ []) ∷ [])
    ≡ fail too_late
unfolding program
text_first = refl

fold_supplements-shape_example :
    ((folded ≡ parts) × (count_responses parts ≡ 0))
    ⊎ (All (λ part. is_response part ≡ true) folded
        × (length folded ≡ count_responses parts)
        × (0 < length folded))
fold_supplements-shape_example = fold_supplements-shape sample parts folded folds
