-- ===== src/Gemini/Stream/Process.antt =====
-- pkg/adapter/gemini.go: `processData`, which handles one event of the Gemini stream.
use Prim.Native.Char.{Char}
use aadapter.Base.{
  ℕ, ◌+◌, String, ◌++ₛ◌, Bool, true, false, not, ◌&&◌, ◌||◌, Option, none, some, List, [], ◌∷◌,
  if◌then◌else◌, str_eq, leb, chars,
}
use aadapter.Base.Maps.{Map, get, put}
use aadapter.Base.Outcome.{Outcome, ok, fail}
use aadapter.Json.{
  Value, str, Object, as_object, as_array, as_bool, or_none, string_or_empty, object_or_empty,
  thought_signature,
}
use aadapter.Gemini.Candidate.{first_candidate, validate_candidate}
use aadapter.Gemini.Response.{block_reason}
use aadapter.Gemini.Stream.{Converter, Context, Action, ◌>>=◌, ◌>>◌, done, modify, check}
use aadapter.Gemini.Stream.Emit.{emit_text, emit_tool}

-- `m[key]` of a `map[string]int`
abbrev pub count_at : String → Map ℕ → ℕ
count_at key m = elim (get key m) [ some n ↦ n | none ↦ 0 ]

abbrev pub is_thought : Object → Bool
is_thought part = elim (as_bool (get "thought" part)) [ some b ↦ b | none ↦ false ]

abbrev pub is_present : Option Value → Bool
is_present (some v) = true
is_present none = false

abbrev pub or_keep : String → String → String
or_keep old new = if str_eq old "" then new else old

abbrev pub or_last : Option Value → Option Value → Option Value
or_last (some v) old = some v
or_last none old = old

abbrev pub note_chunk : Object → Converter → Converter
note_chunk chunk s = record s {
  message_id = or_keep s.message_id (string_or_empty (get "responseId" chunk));
  model = or_keep s.model (string_or_empty (get "modelVersion" chunk));
  latest_usage = or_last (get "usageMetadata" chunk) s.latest_usage;
}

abbrev pub parts_of : Object → List Value
parts_of candidate =
    or_none (as_array (get "parts" (or_none (as_object (get "content" candidate)))))

abbrev pub blocked_message : String → List Char
blocked_message reason = chars ("Request blocked by Gemini safety filters: " ++ₛ reason)

module _ (c : Context) where
  unfoldable pub stable_tool_call_key : Object → String
  stable_tool_call_key call =
      string_or_empty (get "name" call)
      ++ₛ (":" ++ₛ c.platform.marshal (object_or_empty (get "args" call)))

  abbrev pub fingerprint : Object → Object → String
  fingerprint call part = stable_tool_call_key call ++ₛ (":" ++ₛ thought_signature part)

  unfoldable pub process_text : Object → Action (Unit {0})
  process_text part s =
      let text = string_or_empty (get "text" part) in
      let signature = thought_signature part in
      if not (str_eq text "")
      then emit_text c (chars text) signature s
      else if is_present (get "text" part) && (not (str_eq signature "") && s.text_open)
      then (record s { current_signature = signature }, ok tt)
      else (s, ok tt)

  -- A call that stands in the chunk more often than it was emitted; the occurrences in the chunk
  -- so far go through.
  unfoldable pub process_new_call : String → ℕ → Object → Object → Action (Unit {0})
  process_new_call key occurrences call part s =
      if leb occurrences (count_at key s.emitted)
      then (s, ok tt)
      else (do
        emit_tool c call part
        modify (λ s'. record s' { emitted = put key occurrences s'.emitted }))
          s

  unfoldable pub process_call : Map ℕ → Object → Action (Map ℕ)
  process_call seen part = elim (as_object (get "functionCall" part)) [
    | none ↦ check (ok seen)
    | some call ↦
        let key = fingerprint call part in
        let occurrences = count_at key seen + 1 in
        do process_new_call key occurrences call part; check (ok (put key occurrences seen))
  ]

  unfoldable pub process_part : Map ℕ → Object → Action (Map ℕ)
  process_part seen part =
      if is_thought part then check (ok seen) else (do process_text part; process_call seen part)

  unfoldable pub process_parts : Map ℕ → List Value → Action (Unit {0})
  process_parts seen [] = done
  process_parts seen (raw ∷ rest) = elim (as_object (some raw)) [
    | none ↦ check (fail "Gemini SSE part must be an object")
    | some part ↦ do seen' ← process_part seen part; process_parts seen' rest
  ]

  unfoldable pub check_error : Object → Outcome (Unit {0})
  check_error chunk = elim (as_object (get "error" chunk)) [
    | none ↦ ok tt
    | some upstream_error ↦
        let message = string_or_empty (get "message" upstream_error) in
        fail (
          "Gemini stream error: "
          ++ₛ (if str_eq message "" then "Gemini stream returned an error" else message))
  ]

  unfoldable pub process_candidate : Object → Action (Unit {0})
  process_candidate candidate = do
    check (validate_candidate candidate)
    modify
        (λ s. record s { latest_finish = or_last (get "finishReason" candidate) s.latest_finish })
    process_parts [] (parts_of candidate)

  unfoldable pub process_body : Object → Action (Unit {0})
  process_body chunk =
      if str_eq (block_reason chunk) "" then process_candidate (first_candidate chunk) else (do
        modify (λ s. record s { latest_finish = some (str "SAFETY") })
        emit_text c (blocked_message (block_reason chunk)) "")

  unfoldable pub process_chunk : Object → Action (Unit {0})
  process_chunk chunk = do check (check_error chunk); modify (note_chunk chunk); process_body chunk

  -- `json.Unmarshal` of an event, with what its error says.
  unfoldable pub decode_event : String → Outcome Object
  decode_event payload = elim (c.platform.unmarshal_object payload) [
    | ok chunk ↦ ok chunk
    | fail message ↦ fail ("decode Gemini SSE event: " ++ₛ message)
  ]

  unfoldable pub process_data : String → Action (Unit {0})
  process_data payload =
      let trimmed = c.trim_space payload in
      if str_eq trimmed "" || str_eq trimmed "[DONE]"
      then done
      else (do chunk ← check (decode_event payload); process_chunk chunk)
