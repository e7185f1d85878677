-- ===== src/Gemini/Candidate.antt =====
-- pkg/adapter/gemini.go: `firstCandidate` and `validateGeminiCandidate`.
pub mod Laws
mod Tests
use aadapter.Base.{String, Bool, Option, none, some, List, [], ◌∷◌, if◌then◌else◌, str_eq}
use aadapter.Base.Maps.{get}
use aadapter.Base.Outcome.{Outcome, ok, fail, ◌>>=◌, ◌>>◌}
use aadapter.Json.{Value, str, Object, as_object, as_array, or_none, is_nil, string_or_empty}

unfoldable pub first_candidate : Object → Object
first_candidate src = elim (or_none (as_array (get "candidates" src))) [
  | [] ↦ []
  | candidate ∷ _ ↦ or_none (as_object (some candidate))
]

unfoldable pub check_call : Object → Outcome (Unit {0})
check_call call =
    if str_eq (string_or_empty (get "name" call)) ""
    then fail "Gemini functionCall missing name"
    else if is_nil (get "args" call)
    then ok tt
    else elim (as_object (get "args" call)) [
      | some args ↦ ok tt
      | none ↦ fail "Gemini functionCall args must be an object"
    ]

unfoldable pub check_function_call : Option Value → Outcome (Unit {0})
check_function_call none = ok tt
check_function_call (some value) = elim (as_object (some value)) [
  | none ↦ fail "Gemini functionCall must be an object"
  | some call ↦ check_call call
]

unfoldable pub check_text : Option Value → Outcome (Unit {0})
check_text none = ok tt
check_text (some (str text)) = ok tt
check_text (some _) = fail "Gemini text part must contain a string"

unfoldable pub validate_parts : List Value → Outcome (Unit {0})
validate_parts [] = ok tt
validate_parts (raw ∷ rest) = elim (as_object (some raw)) [
  | none ↦ fail "Gemini candidate part must be an object"
  | some part ↦
      check_text (get "text" part)
      >> (check_function_call (get "functionCall" part) >> validate_parts rest)
]

unfoldable pub validate_content : Object → Outcome (Unit {0})
validate_content content = elim (get "parts" content) [
  | none ↦ ok tt
  | some raw ↦ elim (as_array (some raw)) [
    | none ↦ fail "Gemini candidate parts must be an array"
    | some parts ↦ validate_parts parts
  ]
]

unfoldable pub validate_candidate : Object → Outcome (Unit {0})
validate_candidate candidate = elim (get "content" candidate) [
  | none ↦ ok tt
  | some raw ↦ elim (as_object (some raw)) [
    | none ↦ fail "Gemini candidate content must be an object"
    | some content ↦ validate_content content
  ]
]
