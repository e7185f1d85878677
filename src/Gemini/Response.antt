-- ===== src/Gemini/Response.antt =====
-- pkg/adapter/gemini.go: `geminiObjectToAnthropicWithSignatures` and what it calls. The clock is
-- read when an id is made: `clock n` is the time of the n-th id, in nanoseconds.
pub mod Laws
pub mod Counts
mod Tests
use aadapter.Base.{
  ℕ, ◌+◌, ◌-◌, ◌%◌, ◌^◌, String, ◌++ₛ◌, Bool, true, false, not, ◌&&◌, ◌||◌, Option, none, some,
  List, [], ◌∷◌, ◌++◌, length, ◌==◌, ltb, leb, if◌then◌else◌, str_eq,
}
use aadapter.Base.Maps.{Map, get, put}
use aadapter.Base.Outcome.{Outcome, ok, fail, ◌>>=◌, ◌>>◌}
use aadapter.Json.{
  Float, Value, null, num, str, Object, object, as_string, as_object, as_array, as_bool, or_none,
  or_empty, is_nil, string_or_empty, object_or_empty, thought_signature, is_positive, whole_part,
}
use aadapter.Platform.{Platform}
use aadapter.Gemini.Options.{among}
use aadapter.Gemini.Candidate.{first_candidate}
use aadapter.Gemini.Carrier.{
  synthesized_tool_id_prefix, tool_signature_key, text_signature_key, signature_carrier_block,
}

-- The map of `buildAnthropicUsage`; `none` is a key that is not set.
pub record Usage : Type 0 where
  pub input_tokens : ℕ
  pub output_tokens : ℕ
  pub cache_read_input_tokens : Option ℕ

-- The map of a message, without what is the same in all: the `type`, the `role`, and the
-- `stop_sequence` that is nil.
pub record Response : Type 0 where
  pub id : String
  pub model : String
  pub content : List Object
  pub stop_reason : String
  pub usage : Usage

abbrev pub number : ℕ → Value
number n = num (record { negative = false; mantissa = n; scale = 0; shrink = 0 })

abbrev pub string_or_null : Option String → Value
string_or_null none = null
string_or_null (some s) = str s

abbrev pub usage_fields : Usage → Object
usage_fields u =
    ("input_tokens", number u.input_tokens)
    ∷ ("output_tokens", number u.output_tokens)
    ∷ (elim u.cache_read_input_tokens [
      | some n ↦ ("cache_read_input_tokens", number n) ∷ []
      | none ↦ []
    ])

-- The variables of the loop over the parts, with the counter of the ids.
pub record Converting : Type 0 where
  pub content : List Object
  pub signatures : Map String
  pub has_tool_use : Bool
  pub counter : ℕ

abbrev pub refusals : List String
refusals =
    "SAFETY" ∷ "RECITATION" ∷ "LANGUAGE" ∷ "OTHER" ∷ "SPII" ∷ "BLOCKLIST" ∷ "PROHIBITED_CONTENT"
    ∷ "IMAGE_SAFETY" ∷ "IMAGE_PROHIBITED_CONTENT" ∷ "MODEL_ARMOR" ∷ "JAILBREAK"
    ∷ "MALFORMED_FUNCTION_CALL" ∷ "UNEXPECTED_TOOL_CALL" ∷ "TOO_MANY_TOOL_CALLS" ∷ "NO_IMAGE"
    ∷ "IMAGE_RECITATION" ∷ "IMAGE_OTHER" ∷ []

unfoldable pub map_finish_reason : Option Value → Bool → String
map_finish_reason value has_tool_use =
    let reason = string_or_empty value in
    if str_eq reason "MAX_TOKENS"
    then "max_tokens"
    else if among reason refusals
    then "refusal"
    else if has_tool_use
    then "tool_use"
    else "end_turn"

-- `out_of_range` is what the conversion makes of a float64 of 2 ^ 64 and above, which Go leaves to
-- the implementation.
module _ (out_of_range : Float → ℕ) where
  unfoldable pub uint64_number : Option Value → ℕ
  uint64_number (some (num f)) =
      if not (is_positive f)
      then 0
      else if ltb (whole_part f) (2 ^ 64)
      then whole_part f
      else out_of_range f
  uint64_number _ = 0

  abbrev pub usage_of : ℕ → ℕ → ℕ → ℕ → ℕ → Usage
  usage_of prompt cached total candidates thoughts =
      let total' = if total == 0 then (prompt + candidates + thoughts) % 2 ^ 64 else total in
      record {
        input_tokens = if leb cached prompt then prompt - cached else prompt;
        output_tokens = if leb prompt total' then total' - prompt else 0;
        cache_read_input_tokens = if ltb 0 cached then some cached else none;
      }

  unfoldable pub build_usage : Option Value → Usage
  build_usage value =
      let usage = or_none (as_object value) in
      let number : String → ℕ = λ key. uint64_number (get key usage) in
      usage_of (number "promptTokenCount") (number "cachedContentTokenCount")
        (number "totalTokenCount") (number "candidatesTokenCount") (number "thoughtsTokenCount")

abbrev pub with_signature : String → Object → Object
with_signature signature block =
    if str_eq signature "" then block else put "thought_signature" (str signature) block

abbrev pub put_signature : String → String → Map String → Map String
put_signature key signature signatures =
    if str_eq signature "" then signatures else put key signature signatures

-- The last block with a signature, and its text, if it is a text block.
unfoldable pub sign_block : String → List Object → Option (List Object × String)
sign_block signature [] = none
sign_block signature (b ∷ []) =
    if str_eq (string_or_empty (get "type" b)) "text"
    then some (put "thought_signature" (str signature) b ∷ [], string_or_empty (get "text" b))
    else none
sign_block signature (b ∷ d ∷ bs) = elim (sign_block signature (d ∷ bs)) [
  | none ↦ none
  | some (content, text) ↦ some (b ∷ content, text)
]

abbrev pub block_reason : Object → String
block_reason src =
    string_or_empty (get "blockReason" (or_none (as_object (get "promptFeedback" src))))

abbrev pub blocked_text : String → Object
blocked_text reason =
    ("type", str "text")
    ∷ ("text", str ("Request blocked by Gemini safety filters: " ++ₛ reason))
    ∷ []

abbrev pub no_content : ℕ → Converting
no_content counter = record {
  content = [];
  signatures = [];
  has_tool_use = false;
  counter = counter;
}

module _ (decimal : ℕ → String) (clock : ℕ → ℕ) where
  unfoldable pub synthesize_message_id : ℕ → String
  synthesize_message_id n = "msg_gemini_" ++ₛ (decimal (clock n) ++ₛ ("_" ++ₛ decimal n))

abbrev pub next_counter : ℕ → ℕ
next_counter n = (n + 1) % 2 ^ 64

module _ (p : Platform) (decimal : ℕ → String) (clock : ℕ → ℕ) where
  unfoldable pub synthesize_tool_id : ℕ → String
  synthesize_tool_id n = synthesized_tool_id_prefix ++ₛ (decimal (clock n) ++ₛ ("_" ++ₛ decimal n))

  -- The last block, if it is a text, takes a signature that came with an empty text.
  unfoldable pub sign_last : String → Converting → Converting
  sign_last signature c = elim (sign_block signature c.content) [
    | none ↦ c
    | some (content, text) ↦ record c {
      content = content;
      signatures = put (text_signature_key p text) signature c.signatures;
    }
  ]

  unfoldable pub add_text : Object → Converting → Converting
  add_text part c =
      let signature = thought_signature part in
      elim (as_string (get "text" part)) [
        | none ↦ c
        | some text ↦
            if not (str_eq text "")
            then record c {
              content =
                  c.content
                  ++ with_signature signature (("type", str "text") ∷ ("text", str text) ∷ []) ∷ [];
              signatures = put_signature (text_signature_key p text) signature c.signatures;
            }
            else if str_eq signature ""
            then c
            else sign_last signature c
      ]

  unfoldable pub add_call : Object → Converting → Converting
  add_call part c =
      let signature = thought_signature part in
      elim (as_object (get "functionCall" part)) [
        | none ↦ c
        | some call ↦
            let given = string_or_empty (get "id" call) in
            let counter = if str_eq given "" then next_counter c.counter else c.counter in
            let id = if str_eq given "" then synthesize_tool_id counter else given in
            let block : Object =
              ("type", str "tool_use")
              ∷ ("id", str id)
              ∷ ("name", str (string_or_empty (get "name" call)))
              ∷ ("input", object_or_empty (get "args" call))
              ∷ [] in
            let carrier : List Object =
              if str_eq signature ""
              then []
              else signature_carrier_block p (tool_signature_key id) signature ∷ [] in
            record {
              content = c.content ++ (carrier ++ with_signature signature block ∷ []);
              signatures = put_signature (tool_signature_key id) signature c.signatures;
              has_tool_use = true;
              counter = counter;
            }
      ]

  unfoldable pub convert_part : Object → Converting → Converting
  convert_part part c = elim (as_bool (get "thought" part)) [
    | some true ↦ c
    | _ ↦ add_call part (add_text part c)
  ]

  unfoldable pub convert_parts : List Value → Converting → Converting
  convert_parts [] c = c
  convert_parts (raw ∷ rest) c =
      convert_parts rest (convert_part (or_none (as_object (some raw))) c)

  -- The loop over the parts of a candidate.
  unfoldable pub convert_candidate : Object → ℕ → Converting
  convert_candidate candidate counter =
      let content = or_none (as_object (get "content" candidate)) in
      convert_parts (or_none (as_array (get "parts" content))) (no_content counter)

  -- The response, the signatures that came with it, and the counter of the ids after it.
  unfoldable pub object_to_anthropic : (Float → ℕ) → Object → ℕ → Response × (Map String × ℕ)
  object_to_anthropic out_of_range src counter =
      let reason = block_reason src in
      let candidate = first_candidate src in
      let c = convert_candidate candidate counter in
      let id = string_or_empty (get "responseId" src) in
      let model = string_or_empty (get "modelVersion" src) in
      let usage = build_usage out_of_range (get "usageMetadata" src) in
      if not (str_eq reason "")
      then (
        record {
          id = id;
          model = model;
          content = blocked_text reason ∷ [];
          stop_reason = "refusal";
          usage = usage;
        },
        ([], counter),
      )
      else (
        record {
          id = id;
          model = model;
          content = c.content;
          stop_reason = map_finish_reason (get "finishReason" candidate) c.has_tool_use;
          usage = usage;
        },
        (c.signatures, c.counter),
      )
