-- ===== src/Gemini/Fold.antt =====
-- pkg/adapter/gemini.go: `foldGeminiFunctionResponseSupplements`, which moves what follows the tool
-- results of a user message into the last of them.
pub mod Laws
mod Tests
use aadapter.Base.{
  ℕ, String, ◌++ₛ◌, Bool, true, false, not, ◌&&◌, ◌||◌, Option, none, some, List, [], ◌∷◌, ◌++◌,
  ltb, length, if◌then◌else◌, str_eq,
}
use aadapter.Base.Maps.{Map, get, put}
use aadapter.Base.Outcome.{Outcome, ok, fail, ◌>>=◌, ◌>>◌}
use aadapter.Json.{
  Value, null, bool, num, str, arr, obj, Object, object, array, as_string, as_object, as_array,
  is_nil, or_none, string_or_empty,
}
use aadapter.Platform.{Platform}
use aadapter.Gemini.Media.{validate_response_media_part}

-- `lastResponse` is the map inside the last part of `folded`: that part and its map, which the loop
-- writes to, are kept apart from the parts before.
pub record Folding : Type 0 where
  pub folded : List Object
  pub last : Option (Object × Object)
  pub seen_supplement : Bool

abbrev pub no_parts : Folding
no_parts = record { folded = []; last = none; seen_supplement = false }

abbrev pub closed : Option (Object × Object) → List Object
closed none = []
closed (some (part, response)) = put "functionResponse" (object response) part ∷ []

abbrev pub result : Folding → List Object
result f = f.folded ++ closed f.last

unfoldable pub append_text : Object → String → Object
append_text function_response supplemental =
    let response = or_none (as_object (get "response" function_response)) in
    let key : String = elim (get "error" response) [ some _ ↦ "error" | none ↦ "output" ] in
    let existing = string_or_empty (get key response) in
    let joined =
      if str_eq existing "" then supplemental else existing ++ₛ ("\n\n" ++ₛ supplemental) in
    if str_eq supplemental ""
    then function_response
    else put "response" (object (put key (str joined) response)) function_response

unfoldable pub append_media : Object → Object → Object
append_media function_response part =
    put "parts" (array (or_none (as_array (get "parts" function_response)) ++ object part ∷ []))
      function_response

abbrev pub too_late : String
too_late = "tool_result blocks must precede supplemental content in a user message"

unfoldable pub fold_response : Object → Value → Folding → Outcome Folding
fold_response part raw f = if f.seen_supplement then fail too_late else elim f.last [
  | none ↦ if ltb 0 (length f.folded) then fail too_late else elim (as_object (some raw)) [
    | none ↦ fail "Gemini functionResponse must be an object"
    | some response ↦ ok (record f { last = some (part, response) })
  ]
  | some (part', response') ↦ elim (as_object (some raw)) [
    | none ↦ fail "Gemini functionResponse must be an object"
    | some response ↦ ok (record f { folded = result f; last = some (part, response) })
  ]
]

module _ (p : Platform) where
  unfoldable pub supplement : Object → Object → Outcome Object
  supplement part response =
      if not (is_nil (get "text" part))
      then (elim (as_string (get "text" part)) [
        | none ↦ fail "Gemini text part must contain a string"
        | some text ↦ ok (append_text response text)
      ])
      else if not (is_nil (get "inlineData" part)) || not (is_nil (get "fileData" part))
      then (do validate_response_media_part p part; ok (append_media response part))
      else fail "unsupported supplemental part after tool_result"

  unfoldable pub fold_other : Object → Folding → Outcome Folding
  fold_other part f = elim f.last [
    | none ↦ ok (record f { folded = f.folded ++ part ∷ [] })
    | some (last, response) ↦ do
      response' ← supplement part response
      ok (record f { last = some (last, response'); seen_supplement = true })
  ]

  unfoldable pub fold_part : Object → Folding → Outcome Folding
  fold_part part f = elim (get "functionResponse" part) [
    | some raw ↦ fold_response part raw f
    | none ↦ fold_other part f
  ]

  unfoldable pub fold_from : List Object → Folding → Outcome Folding
  fold_from [] f = ok f
  fold_from (part ∷ rest) f = do f' ← fold_part part f; fold_from rest f'

  unfoldable pub fold_supplements : List Object → Outcome (List Object)
  fold_supplements parts = do f ← fold_from parts no_parts; ok (result f)
