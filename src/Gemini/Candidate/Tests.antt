-- ===== src/Gemini/Candidate/Tests.antt =====
-- Runs of the check of candidates of pkg/adapter/gemini.go at concrete inputs.
use aadapter.Base.{◌≡◌, refl, List, [], ◌∷◌, All}
use aadapter.Base.Maps.{get}
use aadapter.Base.Outcome.{ok, fail}
use aadapter.Json.{Value, Object, object, array, str, string_or_empty}
use aadapter.Gemini.Candidate.{
  check_call, check_function_call, check_text, validate_parts, validate_content, validate_candidate,
}
use aadapter.Gemini.Candidate.Laws.{IsNamed, validate_candidate-IsNamed}

program : Unit {0}
unfolding get string_or_empty check_call check_function_call check_text validate_parts
    validate_content validate_candidate
program = tt

abbrev parts : List Value
parts =
    object (("text", str "Hm") ∷ [])
    ∷ object (("functionCall", object (("name", str "read") ∷ [])) ∷ [])
    ∷ []

abbrev content : Object
content = ("parts", array parts) ∷ []

abbrev candidate : Object
candidate = ("content", object content) ∷ []

valid : validate_candidate candidate ≡ ok tt
unfolding program
valid = refl

nameless :
    validate_parts (object (("functionCall", object []) ∷ []) ∷ [])
    ≡ fail "Gemini functionCall missing name"
unfolding program
nameless = refl

validate_candidate-IsNamed_example : All IsNamed parts
unfolding get
validate_candidate-IsNamed_example =
    validate_candidate-IsNamed candidate content parts valid refl refl
