-- ===== src/Gemini/Stream/Reasons.antt =====
-- The finish reason that `streamGeminiAsAnthropic` of pkg/adapter/gemini.go remembers is the last one
-- of the upstream's events, and the tool calls are those that it wrote.
use aadapter.Base.{
  ℕ, ◌+◌, String, ◌≡◌, refl, ap, ◌∙◌, inl, inr, not, ◌&&◌, ◌||◌, Bool-cases, Option-cases, Option,
  none, some, List, [], ◌∷◌, ◌++◌, if◌then◌else◌, str_eq, chars, leb,
}
use aadapter.Base.Maps.{Map, get}
use aadapter.Base.Outcome.{Outcome, Outcome-cases, ok, fail}
use aadapter.Json.{Value, str, Object, as_object, string_or_empty, thought_signature}
use aadapter.StopFilter.{is_empty}
use aadapter.Gemini.Candidate.{first_candidate, validate_candidate}
use aadapter.Gemini.Media.{join}
use aadapter.Gemini.Response.{block_reason, build_usage}
use aadapter.Gemini.Stream.{Converter, Context, message_delta, message_stop, write}
use aadapter.Gemini.Stream.Emit.{start_message, close_text, emit_text, emit_tool}
use aadapter.Gemini.Stream.Process.{
  count_at, is_thought, is_present, or_last, note_chunk, parts_of, blocked_message, fingerprint,
  process_text, process_new_call, process_call, process_part, process_parts, check_error,
  process_candidate, process_body, process_chunk, decode_event, process_data,
}
use aadapter.Gemini.Stream.Lines.{
  byte_length, no_lines, data_of, is_blank, end_event, check_size, scan_lines, check_scan,
  read_stream, held, flushed, with_sequences, emit_held, stop_reason, stop_sequence, write_end,
  finish_stream, end_stream, stream_gemini,
}
use aadapter.Gemini.Stream.Texts.{ended, payloads}
use aadapter.Gemini.Stream.Calls.{
  Leads, lead_rule, check_lead, if_lead, Noted, write-Noted, start_message-Noted, close_text-Noted,
  emit_text-Noted, emit_tool-Noted,
}

-- The finish reason after another event of the upstream: its own, if it gives one.
abbrev newer : Option Value → Option Value → Option Value
newer old none = old
newer old (some v) = some v

-- A blocked prompt counts as the reason SAFETY.
abbrev reason_of_chunk : Object → Option Value → Option Value
reason_of_chunk chunk old =
    if str_eq (block_reason chunk) ""
    then newer old (get "finishReason" (first_candidate chunk))
    else some (str "SAFETY")

or_last-newer : (new old : Option Value) → or_last new old ≡ newer old new
or_last-newer none old = refl
or_last-newer (some v) old = refl

module _ (c : Context) where
  abbrev reason_of_payload : String → Option Value → Option Value
  reason_of_payload payload old =
      if str_eq (c.trim_space payload) "" || str_eq (c.trim_space payload) "[DONE]"
      then old
      else (elim (c.platform.unmarshal_object payload) [
        | ok chunk ↦ reason_of_chunk chunk old
        | fail message ↦ old
      ])

  abbrev reason_of_payloads : List String → Option Value → Option Value
  reason_of_payloads [] old = old
  reason_of_payloads (p ∷ ps) old = reason_of_payloads ps (reason_of_payload p old)

  -- The last finish reason of the events that some lines make up.
  abbrev pub reason_of_lines : List String → Option Value
  reason_of_lines lines = reason_of_payloads (payloads c lines []) none

  reason_of_payloads-append :
      (ps qs : List String) (old : Option Value)
      → reason_of_payloads (ps ++ qs) old ≡ reason_of_payloads qs (reason_of_payloads ps old)
  reason_of_payloads-append [] qs old = refl
  reason_of_payloads-append (p ∷ ps) qs old =
      reason_of_payloads-append ps qs (reason_of_payload p old)

  module _ (v : Option Value) where
    process_text-Noted :
        (part : Object) (s : Converter) → Noted v s → Leads (λ _. Noted v) (process_text c part s)
    unfolding process_text
    process_text-Noted part s h =
        let text = string_or_empty (get "text" part) in
        let signature = thought_signature part in
        if_lead (λ _. Noted v) (not (str_eq text "")) _ _
          (emit_text-Noted c v (chars text) signature s h)
          (if_lead {A = Unit {0}} (λ _. Noted v)
            (is_present (get "text" part) && (not (str_eq signature "") && s.text_open))
            (record s { current_signature = signature }, ok tt) (s, ok tt) h h)

    process_new_call-Noted :
        (key : String) (occurrences : ℕ) (call part : Object) (s : Converter)
        → Noted v s
        → Leads (λ _. Noted v) (process_new_call c key occurrences call part s)
    unfolding process_new_call
    process_new_call-Noted key occurrences call part s h =
        if_lead (λ _. Noted v) (leb occurrences (count_at key s.emitted)) _ _ h
          (lead_rule (λ _. Noted v) (λ _. Noted v) (emit_tool c call part s) _
            (emit_tool-Noted c v call part s h) (λ u s1 h1. h1))

    process_call-Noted :
        (seen : Map ℕ) (part : Object) (s : Converter)
        → Noted v s
        → Leads (λ _. Noted v) (process_call c seen part s)
    unfolding process_call
    process_call-Noted seen part s h = elim (Option-cases (as_object (get "functionCall" part))) [
      | inl other ↦ rw (other, process_call) h
      | inr (call, is) ↦
          let key = fingerprint c call part in
          rw (is, process_call)
            (lead_rule (λ _. Noted v) (λ _. Noted v)
              (process_new_call c key (count_at key seen + 1) call part s) _
              (process_new_call-Noted key (count_at key seen + 1) call part s h) (λ u s1 h1. h1))
    ]

    process_part-Noted :
        (seen : Map ℕ) (part : Object) (s : Converter)
        → Noted v s
        → Leads (λ _. Noted v) (process_part c seen part s)
    unfolding process_part
    process_part-Noted seen part s h = elim (Bool-cases (is_thought part)) [
      | inl thought ↦ rw (thought, process_part) h
      | inr said ↦
          rw (said, process_part)
            (lead_rule (λ _. Noted v) (λ _. Noted v) (process_text c part s) _
              (process_text-Noted part s h) (λ u s1 h1. process_call-Noted seen part s1 h1))
    ]

    process_parts-Noted :
        (seen : Map ℕ) (parts : List Value) (s : Converter)
        → Noted v s
        → Leads (λ _. Noted v) (process_parts c seen parts s)
    unfolding process_parts
    process_parts-Noted seen [] s h = h
    process_parts-Noted seen (raw ∷ rest) s h = elim (Option-cases (as_object (some raw))) [
      | inl other ↦ rw (other, process_parts) tt
      | inr (part, is) ↦
          rw (is, process_parts)
            (lead_rule (λ _. Noted v) (λ _. Noted v) (process_part c seen part s) _
              (process_part-Noted seen part s h)
              (λ seen' s1 h1. process_parts-Noted seen' rest s1 h1))
    ]

  process_candidate-Noted :
      (v : Option Value) (candidate : Object) (s : Converter)
      → Noted v s
      → Leads
          (λ _. Noted (newer v (get "finishReason" candidate)))
          (process_candidate c candidate s)
  unfolding process_candidate
  process_candidate-Noted v candidate s h =
      let given = get "finishReason" candidate in
      lead_rule (λ _. Noted v) (λ _. Noted (newer v given)) (s, validate_candidate candidate) _
        (check_lead (λ _. Noted v) (validate_candidate candidate) s (λ u e. h))
        (λ u s1 (finish, calls).
          process_parts-Noted (newer v given) [] (parts_of candidate)
            (record s1 { latest_finish = or_last given s1.latest_finish })
            (ap (or_last given) finish ∙ or_last-newer given v, calls))

  process_chunk-Noted :
      (v : Option Value) (chunk : Object) (s : Converter)
      → Noted v s
      → Leads (λ _. Noted (reason_of_chunk chunk v)) (process_chunk c chunk s)
  unfolding process_chunk process_body
  process_chunk-Noted v chunk s h =
      let Good = (λ (u : Unit {0}). Noted (reason_of_chunk chunk v)) in
      lead_rule (λ _. Noted v) Good (s, check_error c chunk) _
        (check_lead (λ _. Noted v) (check_error c chunk) s (λ u e. h))
        (λ u s1 h1. elim (Bool-cases (str_eq (block_reason chunk) "")) [
          | inl answered ↦
              rw (answered, process_body)
                (process_candidate-Noted v (first_candidate chunk) (note_chunk chunk s1) h1)
          | inr blocked ↦
              rw (blocked, process_body)
                (emit_text-Noted c (some (str "SAFETY")) (blocked_message (block_reason chunk)) ""
                  (record (note_chunk chunk s1) { latest_finish = some (str "SAFETY") })
                  (refl, h1.1))
        ])

  process_data-Noted :
      (v : Option Value) (payload : String) (s : Converter)
      → Noted v s
      → Leads (λ _. Noted (reason_of_payload payload v)) (process_data c payload s)
  unfolding process_data decode_event
  process_data-Noted v payload s h =
      elim (Bool-cases
        (str_eq (c.trim_space payload) "" || str_eq (c.trim_space payload) "[DONE]")) [
          | inl skipped ↦ rw (skipped, process_data) h
          | inr given ↦ elim (Outcome-cases (c.platform.unmarshal_object payload)) [
            | inr (chunk, is) ↦
                rw (given, is, process_data, decode_event) (process_chunk-Noted v chunk s h)
            | inl (message, fails) ↦ rw (given, fails, process_data, decode_event) tt
          ]
        ]

  end_event-Noted :
      (v : Option Value) (lines : List String) (s : Converter)
      → Noted v s
      → Leads (λ _. Noted (reason_of_payloads (ended lines) v)) (end_event c lines s)
  unfolding end_event
  end_event-Noted v lines s h = elim (Bool-cases (no_lines lines)) [
    | inl nothing ↦ rw (nothing, end_event) h
    | inr given ↦ rw (given, end_event) (process_data-Noted v (join "\n" lines) s h)
  ]

  -- What the loop leaves: the event that the last data lines make up is still to be read.
  abbrev Unread : Option Value → List String → Converter → Type 0
  Unread goal left s = (v : Option Value) × Noted v s × (reason_of_payloads (ended left) v ≡ goal)

  scan_lines-Unread :
      (v : Option Value) (lines left : List String) (bytes : ℕ) (s : Converter)
      → Noted v s
      → Leads
          (Unread (reason_of_payloads (payloads c lines left) v))
          (scan_lines c lines left bytes s)
  unfolding scan_lines payloads
  scan_lines-Unread v [] left bytes s h = (v, h, refl)
  scan_lines-Unread v (line ∷ rest) left bytes s h = elim (Bool-cases (is_blank c line)) [
    | inl blank ↦
        let v' = reason_of_payloads (ended left) v in
        rw
          (
            blank,
            scan_lines,
            payloads,
            reason_of_payloads-append (ended left) (payloads c rest []) v,
          )
          (lead_rule (λ _. Noted v') (Unread (reason_of_payloads (payloads c rest []) v'))
            (end_event c left s) _ (end_event-Noted v left s h)
            (λ u s1 h1. scan_lines-Unread v' rest [] 0 s1 h1))
    | inr full ↦ elim (Option-cases (data_of c line)) [
      | inl other ↦ rw (full, other, scan_lines, payloads) (scan_lines-Unread v rest left bytes s h)
      | inr (d, is) ↦
          let size = bytes + byte_length (chars d) in
          rw (full, is, scan_lines, payloads)
            (lead_rule (λ _. Noted v)
              (Unread (reason_of_payloads (payloads c rest (left ++ d ∷ [])) v))
              (s, check_size c size) _ (check_lead (λ _. Noted v) (check_size c size) s (λ u e. h))
              (λ u s1 h1. scan_lines-Unread v rest (left ++ d ∷ []) size s1 h1))
    ]
  ]

  read_stream-Noted :
      (lines : List String) (scan_error : Option String) (s : Converter)
      → Noted none s
      → Leads (λ _. Noted (reason_of_lines lines)) (read_stream c lines scan_error s)
  unfolding read_stream
  read_stream-Noted lines scan_error s h =
      let goal = reason_of_lines lines in
      let Good = (λ (u : Unit {0}). Noted goal) in
      lead_rule (Unread goal) Good (scan_lines c lines [] 0 s) _
        (scan_lines-Unread none lines [] 0 s h)
        (λ left s1 (v, h1, e).
          lead_rule Good Good (end_event c left s1) _ (rw (← e) (end_event-Noted v left s1 h1))
            (λ u s2 h2. check_lead Good (check_scan c scan_error) s2 (λ u e. h2)))

  emit_held-Noted :
      (v : Option Value) (s : Converter) → Noted v s → Leads (λ _. Noted v) (emit_held c s)
  unfolding emit_held
  emit_held-Noted v s h =
      if_lead (λ _. Noted v) (not (is_empty s.matched_stop)) _ _ h
        (if_lead (λ _. Noted v) (is_empty (held c s)) _ _ h
          (lead_rule (λ _. Noted v) (λ _. Noted v)
            (emit_text c (held c s) "" (with_sequences c [] (flushed c s))) _
            (emit_text-Noted c v (held c s) "" (with_sequences c [] (flushed c s)) h)
            (λ u s1 h1. h1)))

  write_end-Noted :
      (v : Option Value) (s : Converter) → Noted v s → Leads (λ _. Noted v) (write_end c s)
  unfolding write_end
  write_end-Noted v s h =
      lead_rule (λ _. Noted v) (λ _. Noted v)
        (write c
          (message_delta (stop_reason c s) (stop_sequence c s)
            (build_usage c.out_of_range s.latest_usage).output_tokens)
          s)
        _ (write-Noted c v _ s refl h) (λ u s1 h1. write-Noted c v message_stop s1 refl h1)

  finish_stream-Noted :
      (v : Option Value) (s : Converter) → Noted v s → Leads (λ _. Noted v) (finish_stream c s)
  unfolding finish_stream
  finish_stream-Noted v s h =
      lead_rule (λ _. Noted v) (λ _. Noted v) (emit_held c s) _ (emit_held-Noted v s h)
        (λ u s1 h1.
          lead_rule (λ _. Noted v) (λ _. Noted v) (start_message c s1) _
            (start_message-Noted c v s1 h1)
            (λ u s2 h2.
              lead_rule (λ _. Noted v) (λ _. Noted v) (close_text c s2) _
                (close_text-Noted c v s2 h2) (λ u s3 h3. write_end-Noted v s3 h3)))

  end_stream-Noted :
      (v : Option Value) (r : Converter × Outcome (Unit {0}))
      → Leads (λ _. Noted v) r
      → Leads (λ _. Noted v) (end_stream c r)
  unfolding end_stream
  end_stream-Noted v (s, ok _) h = finish_stream-Noted v s h
  end_stream-Noted v (s, fail message) h = tt

  pub stream_gemini-Noted :
      (lines : List String) (scan_error : Option String) (s : Converter)
      → Noted none s
      → Leads (λ _. Noted (reason_of_lines lines)) (stream_gemini c lines scan_error s)
  unfolding stream_gemini
  stream_gemini-Noted lines scan_error s h =
      end_stream-Noted (reason_of_lines lines) (read_stream c lines scan_error s)
        (read_stream-Noted lines scan_error s h)
