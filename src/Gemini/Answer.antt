-- ===== src/Gemini/Answer.antt =====
-- pkg/adapter/gemini.go: `geminiResponseToAnthropicWithDefaults`, which converts a whole answer of
-- Gemini, and `geminiCountTokensToAnthropic`.
use aadapter.Base.{ℕ, String, ◌&&◌, Option, List, [], ◌∷◌, length, ◌==◌, if◌then◌else◌, str_eq}
use aadapter.Base.Maps.{Map, get}
use aadapter.Base.Outcome.{Outcome, ok, fail, ◌>>=◌, ◌>>◌}
use aadapter.Json.{Float, str, Object, object, array, objects}
use aadapter.Platform.{Platform}
use aadapter.Gemini.Candidate.{first_candidate, validate_candidate}
use aadapter.Gemini.Response.{
  Response, number, string_or_null, usage_fields, uint64_number, block_reason, next_counter,
  synthesize_message_id, object_to_anthropic,
}
use aadapter.Gemini.Stops.{apply_stop_sequences}

-- The map of a message, as it is sent.
unfoldable pub response_object : Response → Option String → Object
response_object r stop =
    ("id", str r.id)
    ∷ ("type", str "message")
    ∷ ("role", str "assistant")
    ∷ ("model", str r.model)
    ∷ ("content", array (objects r.content))
    ∷ ("stop_reason", str r.stop_reason)
    ∷ ("stop_sequence", string_or_null stop)
    ∷ ("usage", object (usage_fields r.usage))
    ∷ []

unfoldable pub check_answer : Object → Outcome (Unit {0})
check_answer src =
    if length (first_candidate src) == 0 && str_eq (block_reason src) ""
    then fail "Gemini response contained no candidates"
    else ok tt

-- An answer that is converted: its bytes, the signatures that came with it, and the counter.
pub record Converted : Type 0 where
  pub body : String
  pub signatures : Map String
  pub counter : ℕ

module _ (p : Platform) (decimal : ℕ → String) (clock : ℕ → ℕ) (out_of_range : Float → ℕ) where
  -- The id and the model that are set where Gemini gives none, with the counter after it.
  unfoldable pub with_defaults : String → Response → ℕ → Response × ℕ
  with_defaults fallback r counter =
      let n = if str_eq r.id "" then next_counter counter else counter in
      (
        record r {
          id = if str_eq r.id "" then synthesize_message_id decimal clock n else r.id;
          model = if str_eq r.model "" then fallback else r.model;
        },
        n,
      )

  unfoldable pub convert_answer : List String → String → Object → ℕ → Converted
  convert_answer sequences fallback src counter =
      let (response, (signatures, made)) =
        object_to_anthropic p decimal clock out_of_range src counter in
      let (named, n) = with_defaults fallback response made in
      let (cut, stop) = apply_stop_sequences sequences named in
      record {
        body = p.marshal (object (response_object cut stop));
        signatures = signatures;
        counter = n;
      }

  unfoldable pub response_to_anthropic : String → List String → String → ℕ → Outcome Converted
  response_to_anthropic body sequences fallback counter = do
    src ← p.unmarshal_object body
    check_answer src
    validate_candidate (first_candidate src)
    ok (convert_answer sequences fallback src counter)

  unfoldable pub count_tokens_to_anthropic : String → Outcome String
  count_tokens_to_anthropic body = do
    src ← p.unmarshal_object body
    ok (
        p.marshal (
          object
            (("input_tokens", number (uint64_number out_of_range (get "totalTokens" src))) ∷ [])))
