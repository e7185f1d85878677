-- ===== src/Gemini/Stream/Blocks.antt =====
-- The closures of `streamGeminiAsAnthropic` of pkg/adapter/gemini.go that write tool calls and
-- signatures keep the order of the events, and show no text.
use aadapter.Base.{ℕ, ◌+◌, String, ◌≡◌, refl, inl, inr, true, false, not, some, arith, str_eq}
use aadapter.Base.Maps.{get}
use aadapter.Json.{Value, Object, string_or_empty, thought_signature}
use aadapter.StopFilter.{is_empty}
use aadapter.Gemini.Carrier.{tool_signature_key, signature_carrier_block}
use aadapter.Gemini.Stream.{
  block_start, json_delta, block_stop, Converter, Context, ◌>>◌, modify, wrote, write,
}
use aadapter.Gemini.Stream.Order.{start_message-Running, close_text-Idle, follow_stop, follow_start}
use aadapter.Gemini.Stream.Emit.{
  start_message, keep_signature, close_text, tool_id, check_name, take_index, write_carrier,
  write_tool, emit_tool, tool_block,
}
use aadapter.Gemini.Stream.Protocol.{
  idle, within, follow, Texts, texts_of, At, Idle, Running, Live, Stopped, Live-Stopped, Ends,
  At-wrote, texts_of-silent,
}
use aadapter.Gemini.Stream.Rules.{bind_rule, if_rule, check_rule, write_rule, write_then}

follow_json :
    (n : ℕ) (partial : String) → follow (within n) (json_delta n partial) ≡ some (within n)
follow_json n partial = ground arith

abbrev indexed : Converter → Converter
indexed s = record s { next_index = s.next_index + 1 }

-- Within a block that is no text, and is the last that was numbered.
abbrev Block : ℕ → Texts → Converter → Type 0
Block n t s =
    (s.started ≡ true)
    × (s.text_open ≡ false)
    × (s.next_index ≡ n + 1)
    × At (within n) s
    × (texts_of s ≡ t)

module _ (c : Context) where
  -- A block of a tool call or of a signature is started, goes on, and is stopped.
  start-Block :
      (t : Texts) (block : Object) (s : Converter)
      → Idle t s
      → Block s.next_index t (wrote (block_start s.next_index block) (indexed s))
  start-Block t block s (started, closed, at, texts) =
      let e = block_start s.next_index block in
      (
        started,
        closed,
        refl,
        At-wrote e (idle s.next_index) _ (indexed s) at (follow_start s.next_index block),
        texts_of-silent e t (indexed s) refl texts,
      )

  json-Block :
      (n : ℕ) (partial : String) (t : Texts) (s : Converter)
      → Block n t s
      → Block n t (wrote (json_delta n partial) s)
  json-Block n partial t s (started, closed, next, at, texts) =
      let e = json_delta n partial in
      (
        started,
        closed,
        next,
        At-wrote e (within n) _ s at (follow_json n partial),
        texts_of-silent e t s refl texts,
      )

  stop-Block : (n : ℕ) (t : Texts) (s : Converter) → Block n t s → Idle t (wrote (block_stop n) s)
  stop-Block n t s (started, closed, next, at, texts) =
      let e = block_stop n in
      (
        started,
        closed,
        rw next (At-wrote e (within n) _ s at (follow_stop n)),
        texts_of-silent e t s refl texts,
      )

  write_carrier-Idle :
      (t : Texts) (id signature : String) (s : Converter)
      → Idle t s
      → Ends (λ _. Idle t) (write_carrier c id signature s)
  unfolding write_carrier take_index
  write_carrier-Idle t id signature s idle_now =
      let n = s.next_index in
      let block = signature_carrier_block c.platform (tool_signature_key id) signature in
      let first = wrote (block_start n block) (indexed s) in
      let begun = start-Block t block s idle_now in
      if_rule (λ _. Idle t) (str_eq signature "") _ _ idle_now
        (write_then c (block_start n block) (write c (block_stop n)) (λ _. Idle t) (indexed s)
          (idle n, refl, idle_now.2)
          (write_rule c (block_stop n) (λ _. Idle t) first (within n, refl, begun.3)
            (stop-Block n t first begun)))

  write_tool-Live :
      (t : Texts) (id name signature : String) (input : Value) (s : Converter)
      → Idle t s
      → Ends (λ _. Live t) (write_tool c id name signature input s)
  unfolding write_tool take_index
  write_tool-Live t id name signature input s idle_now =
      let n = s.next_index in
      let block = tool_block c id name signature in
      let partial = c.platform.marshal input in
      let used = modify (λ s. record s { has_tool_use = true }) in
      let first = wrote (block_start n block) (indexed s) in
      let second = wrote (json_delta n partial) first in
      let begun = start-Block t block s idle_now in
      let filled = json-Block n partial t first begun in
      write_then c (block_start n block)
        (write c (json_delta n partial) >> (write c (block_stop n) >> used)) (λ _. Live t)
        (indexed s) (idle n, refl, idle_now.2)
        (write_then c (json_delta n partial) (write c (block_stop n) >> used) (λ _. Live t) first
          (within n, refl, begun.3)
          (write_then c (block_stop n) used (λ _. Live t) second (within n, refl, filled.3)
            (inr (inl (stop-Block n t second filled)))))

  tool_id-Idle :
      (t : Texts) (call : Object) (s : Converter) → Idle t s → Ends (λ _. Idle t) (tool_id c call s)
  unfolding tool_id
  tool_id-Idle t call s h =
      if_rule (λ _. Idle t) (str_eq (string_or_empty (get "id" call)) "") _ _ h h

  keep_signature-Idle :
      (t : Texts) (key signature : String) (s : Converter)
      → Idle t s
      → Ends (λ _. Idle t) (keep_signature c key signature s)
  unfolding keep_signature
  keep_signature-Idle t key signature s h = if_rule (λ _. Idle t) (str_eq signature "") _ _ h h

  Idle-Stopped : (t : Texts) (s : Converter) → Idle t s → Stopped s
  Idle-Stopped t s h = Live-Stopped t s (inr (inl h))

  pub emit_tool-Live :
      (t : Texts) (call part : Object) (s : Converter)
      → Live t s
      → Ends (λ _. Live t) (emit_tool c call part s)
  unfolding emit_tool
  emit_tool-Live t call part s live =
      let Good = (λ (u : Unit {0}). Live t) in
      let Mid = (λ (u : Unit {0}). Idle t) in
      let name = string_or_empty (get "name" call) in
      let signature = thought_signature part in
      if_rule Good (not (is_empty s.matched_stop)) _ _ live (
        bind_rule (λ _. Running t) Good (start_message c s) _ (start_message-Running c t s live)
          (λ u s1 running.
            bind_rule Mid Good (close_text c s1) _ (close_text-Idle c t s1 running) (λ u s2 h.
              bind_rule (λ _. Idle t) Good (tool_id c call s2) _ (tool_id-Idle t call s2 h)
                (λ id s3 h.
                  bind_rule Mid Good (s3, check_name c name) _
                    (check_rule Mid (check_name c name) s3 (Idle-Stopped t s3 h) (λ _. h))
                    (λ u s4 h.
                      bind_rule Mid Good (keep_signature c (tool_signature_key id) signature s4) _
                        (keep_signature-Idle t (tool_signature_key id) signature s4 h)
                        (λ u s5 h.
                          bind_rule Mid Good (write_carrier c id signature s5) _
                            (write_carrier-Idle t id signature s5 h)
                            (λ u s6 h. write_tool-Live t id name signature _ s6 h)))))))
