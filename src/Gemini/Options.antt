-- ===== src/Gemini/Options.antt =====
-- pkg/adapter/gemini.go: `buildGeminiGenerationConfigForModel`, `resolveGeminiThinkingLevel` and
-- `mapEffortToGeminiThinkingLevel`, and the check of the top-level fields.
pub mod Laws
mod Tests
use aadapter.Base.{
  String, ◌++ₛ◌, Bool, true, false, not, ◌&&◌, ◌||◌, Option, none, some, List, [], ◌∷◌, ◌==◌,
  length, if◌then◌else◌, str_eq,
}
use aadapter.Base.Maps.{Map, get, put}
use aadapter.Base.Outcome.{Outcome, ok, fail, ◌>>=◌, ◌>>◌}
use aadapter.Json.{
  Float, Value, null, bool, num, str, arr, obj, Object, object, as_string, as_object, or_empty,
  is_nil, string_or_empty, copy_field, is_positive, at_most,
}

-- Is the text one of the list?
unfoldable pub among : String → List String → Bool
among s [] = false
among s (t ∷ ts) = str_eq s t || among s ts

abbrev pub allowed_fields : List String
allowed_fields =
    "anthropic_version" ∷ "container" ∷ "context_management" ∷ "max_tokens" ∷ "messages"
    ∷ "metadata" ∷ "model" ∷ "output_config" ∷ "service_tier" ∷ "stop_sequences" ∷ "stream"
    ∷ "system" ∷ "temperature" ∷ "thinking" ∷ "tool_choice" ∷ "tools" ∷ "top_k" ∷ "top_p" ∷ []

-- The loop over the keys of a map: the first that is not in the list fails.
unfoldable pub only_fields : List String → String → Object → Outcome (Unit {0})
only_fields allowed message [] = ok tt
only_fields allowed message ((key, v) ∷ rest) =
    let later = only_fields allowed message rest in
    if among key allowed then later else fail (message ++ₛ key)

unfoldable pub validate_top_level_fields : Object → Outcome (Unit {0})
validate_top_level_fields src = do
  only_fields allowed_fields "unsupported Anthropic field for Gemini conversion: " src
  if is_nil (get "container" src)
      then ok tt
      else fail "Anthropic container execution is not supported by Gemini conversion"

unfoldable pub thinking_level_of_budget : Option Float → String
thinking_level_of_budget none = "HIGH"
thinking_level_of_budget (some budget) =
    if is_positive budget && at_most budget 4096
    then "LOW"
    else if is_positive budget && at_most budget 16000
    then "MEDIUM"
    else "HIGH"

-- `numberAsFloat`: a decoded number is a float64.
abbrev pub number_as_float : Option Value → Option Float
number_as_float (some (num f)) = some f
number_as_float _ = none

-- The fields copied for a model, by the tests for 3.6 and 3.5, before the thinking level.
unfoldable pub copied_for : Object → Bool → Bool → Object
copied_for src is_36 is_35 =
    let fixed = is_35 || is_36 in
    let c1 = copy_field src [] "max_tokens" "maxOutputTokens" in
    let c2 =
      if is_36
      then c1
      else copy_field src (copy_field src c1 "temperature" "temperature") "top_p" "topP" in
    let c3 = if fixed then c2 else copy_field src c2 "top_k" "topK" in
    if fixed then c3 else copy_field src c3 "stop_sequences" "stopSequences"

abbrev pub copied_fields : Object → String → Object
copied_fields src model =
    copied_for src (str_eq model "gemini-3.6-flash") (str_eq model "gemini-3.5-flash")

module _ (to_lower : String → String) where
  unfoldable pub map_effort_to_thinking_level : String → Option String
  map_effort_to_thinking_level effort =
      let e = to_lower effort in
      if str_eq e "minimal"
      then some "MINIMAL"
      else if str_eq e "low"
      then some "LOW"
      else if str_eq e "medium"
      then some "MEDIUM"
      else if among e ("high" ∷ "max" ∷ "xhigh" ∷ [])
      then some "HIGH"
      else none

  -- The part of `resolveGeminiThinkingLevel` on `output_config`: `none` goes on to `thinking`.
  unfoldable pub level_of_effort : Option Value → Outcome (Option String)
  level_of_effort none = ok none
  level_of_effort (some value) =
      let effort = or_empty (as_string (some value)) in
      if str_eq effort ""
      then fail "output_config.effort must be a non-empty string"
      else elim (map_effort_to_thinking_level effort) [
        | some level ↦ ok (some level)
        | none ↦ fail ("unsupported output_config.effort for Gemini conversion: " ++ₛ effort)
      ]

  unfoldable pub level_of_output_config : Option Value → Outcome (Option String)
  level_of_output_config none = ok none
  level_of_output_config (some raw) = elim (as_object (some raw)) [
    | none ↦ fail "output_config must be an object"
    | some output_config ↦ do
      only_fields ("effort" ∷ []) "unsupported output_config field for Gemini conversion: "
          output_config
      level_of_effort (get "effort" output_config)
  ]

  unfoldable pub level_of_thinking : Option Value → Outcome (Option String)
  level_of_thinking none = ok none
  level_of_thinking (some raw) = elim (as_object (some raw)) [
    | none ↦ fail "thinking must be an object"
    | some thinking ↦
        let thinking_type = string_or_empty (get "type" thinking) in
        if str_eq thinking_type "" || str_eq thinking_type "disabled"
        then ok none
        else if str_eq thinking_type "adaptive"
        then ok (some "HIGH")
        else if str_eq thinking_type "enabled"
        then ok (some (thinking_level_of_budget (number_as_float (get "budget_tokens" thinking))))
        else fail ("unsupported thinking.type for Gemini conversion: " ++ₛ thinking_type)
  ]

  unfoldable pub resolve_thinking_level : Object → Outcome (Option String)
  resolve_thinking_level src = do
    level ← level_of_output_config (get "output_config" src)
    elim level [ some l ↦ ok (some l) | none ↦ level_of_thinking (get "thinking" src) ]

  unfoldable pub build_generation_config : Object → String → Outcome (Option Object)
  build_generation_config src model = do
    level ← resolve_thinking_level src
    let cfg : Object = elim level [
      | some l ↦
          put "thinkingConfig" (object (("thinkingLevel", str l) ∷ [])) (copied_fields src model)
      | none ↦ copied_fields src model
    ]
    ok (if length cfg == 0 then none else some cfg)
