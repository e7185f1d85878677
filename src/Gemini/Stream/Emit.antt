-- ===== src/Gemini/Stream/Emit.antt =====
-- pkg/adapter/gemini.go: `startMessage`, `closeText`, `emitText` and `emitTool`, the closures of
-- `streamGeminiAsAnthropic` that write events.
use Prim.Native.Char.{Char}
use aadapter.Base.{
  ℕ, ◌+◌, String, true, false, not, List, [], ◌∷◌, ◌++◌, if◌then◌else◌, str_eq, of_chars, same_char,
}
use aadapter.Base.Maps.{get}
use aadapter.Base.Outcome.{Outcome, ok, fail}
use aadapter.Json.{Value, str, Object, object, string_or_empty, object_or_empty, thought_signature}
use aadapter.Signatures.{remember}
use aadapter.StopFilter.{feed, is_empty}
use aadapter.Gemini.Carrier.{tool_signature_key, text_signature_key, signature_carrier_block}
use aadapter.Gemini.Response.{
  synthesize_message_id, next_counter, build_usage, synthesize_tool_id, with_signature,
}
use aadapter.Gemini.Stream.{
  Converter, Context, StreamEvent, message_start, block_start, text_delta, json_delta, block_stop,
  Action, ◌>>=◌, ◌>>◌, modify, check, write,
}

module _ (c : Context) where
  abbrev pub with_names : Converter → Converter
  with_names s = record s {
    started = true;
    message_id =
        if str_eq s.message_id ""
        then synthesize_message_id c.decimal c.clock (next_counter s.counter)
        else s.message_id;
    counter = if str_eq s.message_id "" then next_counter s.counter else s.counter;
    model = if str_eq s.model "" then c.fallback_model else s.model;
  }

  abbrev pub first_event : Converter → StreamEvent
  first_event s = message_start s.message_id s.model (build_usage c.out_of_range s.latest_usage)

  unfoldable pub start_message : Action (Unit {0})
  start_message s =
      if s.started then (s, ok tt) else write c (first_event (with_names s)) (with_names s)

  -- `s.signatures.remember` of one signature
  unfoldable pub keep_signature : String → String → Action (Unit {0})
  keep_signature key signature s = if str_eq signature "" then (s, ok tt) else (
    record s {
      store =
          remember c.platform.sha256_hex (c.store_clock s.reads) c.session_id
            ((key, signature) ∷ []) s.store;
      reads = s.reads + 1;
    },
    ok tt,
  )

  abbrev pub text_closed : Converter → Converter
  text_closed s = record s { current_text = []; current_signature = ""; text_open = false }

  unfoldable pub close_open_text : Action (Unit {0})
  close_open_text s =
      (do
        keep_signature (text_signature_key c.platform (of_chars s.current_text)) s.current_signature
        write c (block_stop s.text_index)
        modify text_closed)
        s

  unfoldable pub close_text : Action (Unit {0})
  close_text s = if s.text_open then close_open_text s else (s, ok tt)

  abbrev pub text_block : String → Object
  text_block signature = with_signature signature (("type", str "text") ∷ ("text", str "") ∷ [])

  abbrev pub take_text_index : Converter → Converter
  take_text_index s = record s { text_index = s.next_index; next_index = s.next_index + 1 }

  unfoldable pub open_text : String → Action (Unit {0})
  open_text signature s =
      if s.text_open
      then (s, ok tt)
      else (do
        modify take_text_index
        write c (block_start s.next_index (text_block signature))
        modify (λ s'. record s' { text_open = true }))
          s

  abbrev pub add_current : List Char → String → Converter → Converter
  add_current text signature s = record s {
    current_text = s.current_text ++ text;
    current_signature = if str_eq signature "" then s.current_signature else signature;
  }

  unfoldable pub write_delta : List Char → Action (Unit {0})
  write_delta text s = write c (text_delta s.text_index text) s

  -- The part of `emitText` behind the filter.
  unfoldable pub show_text : List Char → String → Action (Unit {0})
  show_text text signature s =
      if is_empty text
      then (s, ok tt)
      else (do
        start_message
        open_text signature
        modify (add_current text signature)
        write_delta text)
          s

  abbrev pub fed : List Char → Converter → Converter
  fed text s =
      let (f', visible, matched) = feed same_char s.filter text in
      record s { filter = f'; matched_stop = if is_empty matched then s.matched_stop else matched }

  abbrev pub visible_text : List Char → Converter → List Char
  visible_text text s = (feed same_char s.filter text).1

  unfoldable pub emit_text : List Char → String → Action (Unit {0})
  emit_text text signature s =
      if is_empty text then (s, ok tt) else show_text (visible_text text s) signature (fed text s)

  -- The id of a call, made up if it has none.
  unfoldable pub tool_id : Object → Action String
  tool_id call s =
      let given = string_or_empty (get "id" call) in
      let n = next_counter s.counter in
      if str_eq given ""
      then (record s { counter = n }, ok (synthesize_tool_id c.platform c.decimal c.clock n))
      else (s, ok given)

  abbrev pub check_name : String → Outcome (Unit {0})
  check_name name = if str_eq name "" then fail "Gemini functionCall missing name" else ok tt

  unfoldable pub take_index : Action ℕ
  take_index s = (record s { next_index = s.next_index + 1 }, ok s.next_index)

  unfoldable pub write_carrier : String → String → Action (Unit {0})
  write_carrier id signature s =
      if str_eq signature ""
      then (s, ok tt)
      else (do
        index ← take_index
        write c (
            block_start index
              (signature_carrier_block c.platform (tool_signature_key id) signature))
        write c (block_stop index))
          s

  abbrev pub tool_block : String → String → String → Object
  tool_block id name signature =
      with_signature signature
        (("type", str "tool_use") ∷ ("id", str id) ∷ ("name", str name) ∷ ("input", object []) ∷ [])

  unfoldable pub write_tool : String → String → String → Value → Action (Unit {0})
  write_tool id name signature input = do
    index ← take_index
    write c (block_start index (tool_block id name signature))
    write c (json_delta index (c.platform.marshal input))
    write c (block_stop index)
    modify (λ s. record s { has_tool_use = true })

  unfoldable pub emit_tool : Object → Object → Action (Unit {0})
  emit_tool call part s =
      let name = string_or_empty (get "name" call) in
      let signature = thought_signature part in
      if not (is_empty s.matched_stop)
      then (s, ok tt)
      else (do
        start_message
        close_text
        id ← tool_id call
        check (check_name name)
        keep_signature (tool_signature_key id) signature
        write_carrier id signature
        write_tool id name signature (object_or_empty (get "args" call)))
          s
