-- ===== src/Gemini/Stream/Runs.antt =====
-- What `processData` of `streamGeminiAsAnthropic` in pkg/adapter/gemini.go does with the parts of
-- an event: it keeps the order of the events written, and feeds the texts of the parts, one after
-- the other, to the stop filter.
use Prim.Native.Char.{Char}
use aadapter.Base.{
  ℕ, ◌+◌, String, ◌≡◌, refl, ap, ◌∙◌, inl, inr, true, false, not, ◌&&◌, ◌||◌, Bool-cases,
  Option-cases, none, some, List, [], ◌∷◌, ◌++◌, if◌then◌else◌, str_eq, leb, chars,
}
use aadapter.Base.Maps.{Map, get}
use aadapter.Base.Outcome.{Outcome-cases, ok, fail}
use aadapter.Json.{Value, str, Object, as_object, string_or_empty, thought_signature}
use aadapter.Gemini.Candidate.{first_candidate, validate_candidate}
use aadapter.Gemini.Response.{block_reason}
use aadapter.Gemini.Stream.{Converter, Context}
use aadapter.Gemini.Stream.Emit.{emit_tool}
use aadapter.Gemini.Stream.Process.{
  count_at, is_thought, is_present, or_last, fingerprint, process_text, process_new_call,
  process_call, process_part, process_parts, parts_of, process_candidate, blocked_message,
  process_body, note_chunk, check_error, process_chunk, decode_event, process_data,
}
use aadapter.Gemini.Stream.Protocol.{Texts, Live, Live-Stopped, Ends}
use aadapter.Gemini.Stream.Rules.{bind_rule, if_rule, check_rule}
use aadapter.Gemini.Stream.Order.{feed_text, emit_text-Live}
use aadapter.Gemini.Stream.Blocks.{emit_tool-Live}

abbrev pub feed_texts : List (List Char) → Texts → Texts
feed_texts [] t = t
feed_texts (text ∷ rest) t = feed_texts rest (feed_text text t)

pub feed_texts-append :
    (xs ys : List (List Char)) (t : Texts)
    → feed_texts (xs ++ ys) t ≡ feed_texts ys (feed_texts xs t)
feed_texts-append [] ys t = refl
feed_texts-append (x ∷ xs) ys t = feed_texts-append xs ys (feed_text x t)

-- The texts that a client is to see of a part, of parts, of an event's object.
unfoldable pub text_of_part : Object → List (List Char)
text_of_part part =
    if is_thought part
    then []
    else if not (str_eq (string_or_empty (get "text" part)) "")
    then chars (string_or_empty (get "text" part)) ∷ []
    else []

abbrev pub part_texts : Value → List (List Char)
part_texts raw = elim (as_object (some raw)) [ some part ↦ text_of_part part | none ↦ [] ]

abbrev pub texts_of_parts : List Value → List (List Char)
texts_of_parts [] = []
texts_of_parts (raw ∷ rest) = part_texts raw ++ texts_of_parts rest

unfoldable pub texts_of_chunk : Object → List (List Char)
texts_of_chunk chunk =
    if str_eq (block_reason chunk) ""
    then texts_of_parts (parts_of (first_candidate chunk))
    else blocked_message (block_reason chunk) ∷ []

text_of_part-thought : (part : Object) → is_thought part ≡ true → text_of_part part ≡ []
unfolding text_of_part
text_of_part-thought part hidden = rw (hidden, text_of_part) refl

part_texts-object :
    (part : Object) (raw : Value)
    → as_object (some raw) ≡ some part
    → part_texts raw ≡ text_of_part part
part_texts-object part raw is = rw (is, part_texts) refl

feed_texts-part :
    (t : Texts) (part : Object) (raw : Value) (rest : List Value)
    → as_object (some raw) ≡ some part
    → feed_texts (texts_of_parts (raw ∷ rest)) t
      ≡ feed_texts (texts_of_parts rest) (feed_texts (text_of_part part) t)
feed_texts-part t part raw rest is =
    ap (λ (x : List (List Char)). feed_texts (x ++ texts_of_parts rest) t)
      (part_texts-object part raw is)
    ∙ feed_texts-append (text_of_part part) (texts_of_parts rest) t

module _ (c : Context) where
  process_text-Live :
      (t : Texts) (part : Object) (s : Converter)
      → is_thought part ≡ false
      → Live t s
      → Ends (λ _. Live (feed_texts (text_of_part part) t)) (process_text c part s)
  unfolding process_text text_of_part
  process_text-Live t part s visible live =
      elim (Bool-cases (not (str_eq (string_or_empty (get "text" part)) ""))) [
        | inl given ↦
            rw (visible, given, process_text, text_of_part)
              (emit_text-Live c t _ (thought_signature part) s live)
        | inr nothing ↦
            rw (visible, nothing, process_text, text_of_part)
              (if_rule (λ (u : Unit {0}). Live t)
                (is_present (get "text" part)
                  && (not (str_eq (thought_signature part) "") && s.text_open))
                (record s { current_signature = thought_signature part }, ok tt) (s, ok tt) live
                live)
      ]

  process_new_call-Live :
      (t : Texts) (key : String) (occurrences : ℕ) (call part : Object) (s : Converter)
      → Live t s
      → Ends (λ _. Live t) (process_new_call c key occurrences call part s)
  unfolding process_new_call
  process_new_call-Live t key occurrences call part s live =
      let Good = (λ (u : Unit {0}). Live t) in
      if_rule Good (leb occurrences (count_at key s.emitted)) _ _ live (
        bind_rule Good Good (emit_tool c call part s) _ (emit_tool-Live c t call part s live)
          (λ u s' live'. live'))

  process_call-Live :
      (t : Texts) (seen : Map ℕ) (part : Object) (s : Converter)
      → Live t s
      → Ends (λ _. Live t) (process_call c seen part s)
  unfolding process_call
  process_call-Live t seen part s live = elim (Option-cases (as_object (get "functionCall" part))) [
    | inl nothing ↦ rw (nothing, process_call) live
    | inr (call, given) ↦
        rw (given, process_call)
          (bind_rule (λ _. Live t) (λ _. Live t)
            (process_new_call c (fingerprint c call part)
              (count_at (fingerprint c call part) seen + 1) call part s)
            _ (process_new_call-Live t (fingerprint c call part) _ call part s live)
            (λ u s' live'. live'))
  ]

  process_part-Live :
      (t : Texts) (seen : Map ℕ) (part : Object) (s : Converter)
      → Live t s
      → Ends (λ _. Live (feed_texts (text_of_part part) t)) (process_part c seen part s)
  unfolding process_part
  process_part-Live t seen part s live = elim (Bool-cases (is_thought part)) [
    | inl hidden ↦ rw (text_of_part-thought part hidden) (rw (hidden, process_part) live)
    | inr visible ↦
        let Good = (λ (m : Map ℕ). Live (feed_texts (text_of_part part) t)) in
        rw (visible, process_part)
          (bind_rule (λ _. Live (feed_texts (text_of_part part) t)) Good (process_text c part s) _
            (process_text-Live t part s visible live)
            (λ u s' live'. process_call-Live (feed_texts (text_of_part part) t) seen part s' live'))
  ]

  process_parts-Live :
      (t : Texts) (seen : Map ℕ) (parts : List Value) (s : Converter)
      → Live t s
      → Ends (λ _. Live (feed_texts (texts_of_parts parts) t)) (process_parts c seen parts s)
  unfolding process_parts
  process_parts-Live t seen [] s live = live
  process_parts-Live t seen (raw ∷ rest) s live = elim (Option-cases (as_object (some raw))) [
    | inl other ↦ rw (other, process_parts) (Live-Stopped t s live)
    | inr (part, is) ↦
        let t' = feed_texts (text_of_part part) t in
        rw (feed_texts-part t part raw rest is) (
          rw (is, process_parts)
            (bind_rule (λ _. Live t') (λ _. Live (feed_texts (texts_of_parts rest) t'))
              (process_part c seen part s) _ (process_part-Live t seen part s live)
              (λ seen' s' live'. process_parts-Live t' seen' rest s' live')))
  ]

  process_candidate-Live :
      (t : Texts) (candidate : Object) (s : Converter)
      → Live t s
      → Ends
          (λ _. Live (feed_texts (texts_of_parts (parts_of candidate)) t))
          (process_candidate c candidate s)
  unfolding process_candidate
  process_candidate-Live t candidate s live =
      let Good = (λ (u : Unit {0}). Live (feed_texts (texts_of_parts (parts_of candidate)) t)) in
      bind_rule (λ _. Live t) Good (s, validate_candidate candidate) _
        (check_rule (λ _. Live t) (validate_candidate candidate) s (Live-Stopped t s live)
          (λ _. live))
        (λ u s' live'.
          process_parts-Live t [] (parts_of candidate)
            (record s' { latest_finish = or_last (get "finishReason" candidate) s'.latest_finish })
            live')

  process_body-Live :
      (t : Texts) (chunk : Object) (s : Converter)
      → Live t s
      → Ends (λ _. Live (feed_texts (texts_of_chunk chunk) t)) (process_body c chunk s)
  unfolding process_body texts_of_chunk
  process_body-Live t chunk s live = elim (Bool-cases (str_eq (block_reason chunk) "")) [
    | inl answered ↦
        rw (answered, process_body, texts_of_chunk)
          (process_candidate-Live t (first_candidate chunk) s live)
    | inr blocked ↦
        rw (blocked, process_body, texts_of_chunk)
          (emit_text-Live c t (blocked_message (block_reason chunk)) ""
            (record s { latest_finish = some (str "SAFETY") }) live)
  ]

  process_chunk-Live :
      (t : Texts) (chunk : Object) (s : Converter)
      → Live t s
      → Ends (λ _. Live (feed_texts (texts_of_chunk chunk) t)) (process_chunk c chunk s)
  unfolding process_chunk
  process_chunk-Live t chunk s live =
      let Good = (λ (u : Unit {0}). Live (feed_texts (texts_of_chunk chunk) t)) in
      bind_rule (λ _. Live t) Good (s, check_error c chunk) _
        (check_rule (λ _. Live t) (check_error c chunk) s (Live-Stopped t s live) (λ _. live))
        (λ u s' live'. process_body-Live t chunk (note_chunk chunk s') live')

  -- The texts of an event, by what stands on its data lines.
  unfoldable pub texts_of_payload : String → List (List Char)
  texts_of_payload payload =
      if str_eq (c.trim_space payload) "" || str_eq (c.trim_space payload) "[DONE]"
      then []
      else (elim (c.platform.unmarshal_object payload) [
        | ok chunk ↦ texts_of_chunk chunk
        | fail message ↦ []
      ])

  pub process_data-Live :
      (t : Texts) (payload : String) (s : Converter)
      → Live t s
      → Ends (λ _. Live (feed_texts (texts_of_payload payload) t)) (process_data c payload s)
  unfolding process_data decode_event texts_of_payload
  process_data-Live t payload s live =
      elim (Bool-cases
        (str_eq (c.trim_space payload) "" || str_eq (c.trim_space payload) "[DONE]")) [
          | inl skipped ↦ rw (skipped, process_data, texts_of_payload) live
          | inr given ↦ elim (Outcome-cases (c.platform.unmarshal_object payload)) [
            | inr (chunk, is) ↦
                rw (given, is, process_data, texts_of_payload, decode_event)
                  (process_chunk-Live t chunk s live)
            | inl (message, fails) ↦
                rw (given, fails, process_data, texts_of_payload, decode_event)
                  (Live-Stopped t s live)
          ]
        ]
