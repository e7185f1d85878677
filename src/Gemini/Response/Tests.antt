-- ===== src/Gemini/Response/Tests.antt =====
-- Runs of the conversion of responses of pkg/adapter/gemini.go at concrete inputs.
use aadapter.Base.{ℕ, ◌+◌, String, ◌≡◌, refl, some, [], ◌∷◌, false, arith}
use aadapter.Base.Maps.{get, put}
use aadapter.Base.Outcome.{ok, fail}
use aadapter.Json.{
  Float, Value, Object, object, array, num, str, string_or_empty, object_or_empty,
  thought_signature, is_positive, whole_part,
}
use aadapter.Platform.Sample.{sample}
use aadapter.Gemini.Options.{among}
use aadapter.Gemini.Carrier.{text_signature_key, signature_carrier_block}
use aadapter.Gemini.Candidate.{
  first_candidate, check_call, check_function_call, check_text, validate_parts, validate_content,
  validate_candidate,
}
use aadapter.Gemini.Response.{
  map_finish_reason, uint64_number, build_usage, synthesize_tool_id, sign_block, sign_last,
  add_text, add_call, convert_part, convert_parts, convert_candidate, object_to_anthropic,
}
use aadapter.Gemini.Response.Counts.{cached_of, build_usage-total}

program : Unit {0}
unfolding get put string_or_empty object_or_empty thought_signature is_positive whole_part among
    text_signature_key signature_carrier_block first_candidate map_finish_reason check_call
    check_function_call check_text validate_parts validate_content validate_candidate uint64_number
    build_usage synthesize_tool_id sign_block sign_last add_text add_call convert_part convert_parts
    convert_candidate object_to_anthropic
program = tt

abbrev decimal : ℕ → String
decimal n = "7"

abbrev clock : ℕ → ℕ
clock n = n

abbrev out_of_range : Float → ℕ
out_of_range f = 0

abbrev number : ℕ → Value
number n = num (record { negative = false; mantissa = n; scale = 0; shrink = 0 })

abbrev counts : Value
counts = object (
    ("promptTokenCount", number 10)
    ∷ ("cachedContentTokenCount", number 4)
    ∷ ("totalTokenCount", number 25)
    ∷ [])

abbrev parts : Value
parts = array (
    object (("text", str "Hm") ∷ [])
    ∷ object (("text", str "") ∷ ("thoughtSignature", str "s") ∷ [])
    ∷ object (("functionCall", object (("name", str "read") ∷ [])) ∷ [])
    ∷ [])

abbrev answer : Object
answer =
    (
      "candidates",
      array (
          object (("content", object (("parts", parts) ∷ [])) ∷ ("finishReason", str "STOP") ∷ [])
          ∷ []),
    )
    ∷ ("usageMetadata", counts)
    ∷ []

-- The signature behind a text goes to the text; a call without an id gets one.
converts : object_to_anthropic sample decimal clock out_of_range answer 0 ≡ (
  record {
    id = "";
    model = "";
    content =
        (("type", str "text") ∷ ("text", str "Hm") ∷ ("thought_signature", str "s") ∷ [])
        ∷ (("type", str "tool_use")
            ∷ ("id", str "gemini_synth_7_7")
            ∷ ("name", str "read")
            ∷ ("input", object [])
            ∷ [])
        ∷ [];
    stop_reason = "tool_use";
    usage = record { input_tokens = 6; output_tokens = 15; cache_read_input_tokens = some 4 };
  },
  (("text:Hm", "s") ∷ [], 1),
)
unfolding program
converts = refl

valid :
    (validate_candidate (first_candidate answer) ≡ ok tt)
    × (validate_candidate (("content", object (("parts", str "Hm") ∷ [])) ∷ [])
        ≡ fail "Gemini candidate parts must be an array")
unfolding program
valid = (refl, refl)

build_usage-total_example :
    (build_usage out_of_range (some counts)).input_tokens
      + cached_of (build_usage out_of_range (some counts))
      + (build_usage out_of_range (some counts)).output_tokens
    ≡ 25
unfolding get uint64_number is_positive whole_part
build_usage-total_example =
    build_usage-total out_of_range (some counts) 10 4 25 refl refl refl (omega arith) (omega arith)
      (omega arith)
