-- ===== src/Gemini/Options/Tests.antt =====
-- Runs of the options of pkg/adapter/gemini.go at concrete inputs.
use aadapter.Base.{ℕ, String, ◌≡◌, refl, some, [], ◌∷◌, false}
use aadapter.Base.Maps.{get, put}
use aadapter.Base.Outcome.{ok, fail}
use aadapter.Json.{
  Float, Object, object, num, str, copy_field, string_or_empty, is_positive, at_most,
}
use aadapter.Gemini.Options.{
  among, only_fields, map_effort_to_thinking_level, level_of_effort, level_of_output_config,
  level_of_thinking, thinking_level_of_budget, resolve_thinking_level, copied_for,
  build_generation_config, validate_top_level_fields,
}

program : Unit {0}
unfolding get put copy_field string_or_empty is_positive at_most among only_fields
    map_effort_to_thinking_level level_of_effort level_of_output_config level_of_thinking
    thinking_level_of_budget resolve_thinking_level copied_for build_generation_config
    validate_top_level_fields
program = tt

abbrev lower : String → String
lower s = s

abbrev number : ℕ → Float
number n = record { negative = false; mantissa = n; scale = 0; shrink = 0 }

abbrev request : Object
request =
    ("max_tokens", num (number 100))
    ∷ ("temperature", num (number 1))
    ∷ ("top_k", num (number 40))
    ∷ ("thinking", object (("type", str "enabled") ∷ ("budget_tokens", num (number 4096)) ∷ []))
    ∷ []

rejected :
    validate_top_level_fields (("seed", num (number 1)) ∷ [])
    ≡ fail "unsupported Anthropic field for Gemini conversion: seed"
unfolding program
rejected = refl

resolved : resolve_thinking_level lower request ≡ ok (some "LOW")
unfolding program
resolved = refl
