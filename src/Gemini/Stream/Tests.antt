-- ===== src/Gemini/Stream/Tests.antt =====
-- Runs of the stream conversion of pkg/adapter/gemini.go at concrete inputs.
use aadapter.Base.{
  ℕ, String, ◌≡◌, refl, ◌↔◌, none, some, List, [], ◌∷◌, ◌++◌, if◌then◌else◌, str_eq, chars,
  of_chars, same_char,
}
use aadapter.Base.Maps.{get, put}
use aadapter.Base.Outcome.{Outcome, ok, fail}
use aadapter.Json.{Value, str, Object, object, array, string_or_empty, thought_signature}
use aadapter.Platform.Sample.{sample}
use aadapter.Signatures.{new_signature_store}
use aadapter.StopFilter.{
  closer, starts_with, index, has_suffix, earliest_from, earliest_stop, keep_lengths,
  keep_sequences, feed_combined, feed, flush, is_empty,
}
use aadapter.StopFilter.Chunks.{reference}
use aadapter.Gemini.Carrier.{cut_prefix}
use aadapter.Gemini.Options.{among}
use aadapter.Gemini.Media.{join}
use aadapter.Gemini.Candidate.{
  validate_content, validate_parts, check_text, check_function_call, check_call, first_candidate,
  validate_candidate,
}
use aadapter.Gemini.Response.{
  synthesize_message_id, Usage, map_finish_reason, build_usage, uint64_number,
}
use aadapter.Gemini.Stream.{
  Context, Converter, StreamEvent, message_start, block_start, text_delta, json_delta, block_stop,
  message_delta, message_stop, error_event, write, event_name, event_chunk, payload_fields,
}
use aadapter.Gemini.Stream.Emit.{
  start_message, keep_signature, close_open_text, close_text, open_text, write_delta, show_text,
  emit_text, tool_id, take_index, write_carrier, write_tool, emit_tool,
}
use aadapter.Gemini.Stream.Process.{
  stable_tool_call_key, process_text, process_new_call, process_call, process_part, process_parts,
  check_error, process_candidate, process_body, process_chunk, decode_event, process_data,
}
use aadapter.Gemini.Stream.Lines.{
  char_bytes, byte_length, data_of, is_blank, end_event, scan_lines, read_stream, emit_held,
  write_end, finish_stream, end_stream, stream_gemini,
}
use aadapter.Gemini.Stream.Protocol.{Phase, over, follow_all, shown_text}
use aadapter.Gemini.Stream.Texts.{texts_of_lines}
use aadapter.Gemini.Stream.Calls.{has_call}
use aadapter.Gemini.Stream.Reasons.{reason_of_lines}
use aadapter.Gemini.Stream.Result.{run_of, stream-follows, stream-shows}

program : Unit {0}
unfolding get put string_or_empty closer starts_with index has_suffix earliest_from earliest_stop
    keep_lengths keep_sequences feed_combined feed flush cut_prefix join first_candidate
    validate_candidate map_finish_reason build_usage uint64_number write event_name event_chunk
    payload_fields synthesize_message_id start_message keep_signature close_open_text close_text
    open_text write_delta show_text emit_text tool_id take_index write_carrier write_tool emit_tool
    stable_tool_call_key process_text process_new_call process_call process_part process_parts
    check_error process_candidate process_body process_chunk decode_event process_data char_bytes
    byte_length data_of is_blank end_event scan_lines read_stream emit_held write_end finish_stream
    end_stream stream_gemini validate_content validate_parts check_text check_function_call
    check_call thought_signature among
program = tt

abbrev text_part : String → Value
text_part text = object (("text", str text) ∷ [])

abbrev call_part : String → Value
call_part name = object (
    ("functionCall", object (("id", str "t1") ∷ ("name", str name) ∷ ("args", object []) ∷ []))
    ∷ [])

abbrev chunk_of : List Value → Object
chunk_of parts =
    ("responseId", str "r")
    ∷ ("modelVersion", str "m")
    ∷ ("candidates", array (object (("content", object (("parts", array parts) ∷ [])) ∷ []) ∷ []))
    ∷ []

abbrev decode : String → Outcome Object
decode s =
    if str_eq s "text"
    then ok (chunk_of (text_part "ab EN" ∷ []))
    else if str_eq s "more"
    then ok (chunk_of (text_part "D cd" ∷ []))
    else if str_eq s "call"
    then ok (chunk_of (call_part "f" ∷ []))
    else fail "no JSON"

abbrev context : Context
context = record {
  platform = record sample { unmarshal_object = decode };
  decimal = λ n. "7";
  clock = λ n. 7;
  store_clock = λ n. 0;
  out_of_range = λ x. 0;
  trim_space = λ s. s;
  write_error = λ n. none;
  session_id = "s";
  fallback_model = "fallback";
  max_event_bytes = 100;
}

abbrev events_of : List String → List StreamEvent
events_of lines =
    (run_of context (chars "END" ∷ []) (new_signature_store 1 1 1) 0 lines none).0.events

abbrev no_usage : Usage
no_usage = record { input_tokens = 0; output_tokens = 0; cache_read_input_tokens = none }

abbrev empty_text : Object
empty_text = ("type", str "text") ∷ ("text", str "") ∷ []

abbrev call_block : Object
call_block =
    ("type", str "tool_use") ∷ ("id", str "t1") ∷ ("name", str "f") ∷ ("input", object []) ∷ []

-- A stop sequence that two events make up is cut out, and named at the end.
cut_stream :
    events_of ("data:text" ∷ "" ∷ "data:more" ∷ [])
    ≡ message_start "r" "m" no_usage
      ∷ block_start 0 empty_text
      ∷ text_delta 0 (chars "ab ")
      ∷ block_stop 0
      ∷ message_delta "stop_sequence" (some "END") 0
      ∷ message_stop
      ∷ []
unfolding program
cut_stream = refl

-- Text that may begin a stop sequence is held back beyond a tool call: the client gets it in a block
-- of its own after the call.
delayed :
    events_of ("data:text" ∷ "" ∷ "data:call" ∷ [])
    ≡ message_start "r" "m" no_usage
      ∷ block_start 0 empty_text
      ∷ text_delta 0 (chars "ab ")
      ∷ block_stop 0
      ∷ block_start 1 call_block
      ∷ json_delta 1 "{}"
      ∷ block_stop 1
      ∷ block_start 2 empty_text
      ∷ text_delta 2 (chars "EN")
      ∷ block_stop 2
      ∷ message_delta "tool_use" none 0
      ∷ message_stop
      ∷ []
unfolding program
delayed = refl

-- An error while a text is open ends the stream; an answer with no text is a message with no block.
broken_and_empty :
    (events_of ("data:text" ∷ "" ∷ "data:x" ∷ [])
      ≡ message_start "r" "m" no_usage
        ∷ block_start 0 empty_text
        ∷ text_delta 0 (chars "ab ")
        ∷ error_event "decode Gemini SSE event: no JSON"
        ∷ [])
    × (events_of ("data:[DONE]" ∷ [])
        ≡ message_start "msg_gemini_7_7" "fallback" no_usage
          ∷ message_delta "end_turn" none 0
          ∷ message_stop
          ∷ [])
unfolding program
broken_and_empty = (refl, refl)

on_the_wire :
    event_chunk context.platform (block_stop 0) ≡ "event: content_block_stop\ndata: {}\n\n"
unfolding program
on_the_wire = refl

abbrev cut_run : Converter × Outcome (Unit {0})
cut_run =
    run_of context (chars "END" ∷ []) (new_signature_store 1 1 1) 0
      ("data:text" ∷ "" ∷ "data:more" ∷ []) none

stream-follows_example :
    (phase : Phase) × (follow_all cut_run.0.events ≡ some phase)
    × ((cut_run.1 ≡ ok tt) ↔ (phase ≡ over))
stream-follows_example =
    stream-follows context (chars "END" ∷ []) (new_signature_store 1 1 1) 0
      ("data:text" ∷ "" ∷ "data:more" ∷ []) none

cut_run-works : cut_run.1 ≡ ok tt
unfolding program
cut_run-works = refl

stream-shows_example :
    let expected =
      reference same_char
        (chars "END" ∷ [])
        []
        (texts_of_lines context ("data:text" ∷ "" ∷ "data:more" ∷ [])) in
    (shown_text cut_run.0.events ≡ expected.0)
    × (cut_run.0.matched_stop ≡ expected.1)
    × ((before : List StreamEvent) × (output : ℕ) × (cut_run.0.events
          ≡ before
            ++ message_delta
                (if is_empty expected.1
                  then map_finish_reason
                      (reason_of_lines context ("data:text" ∷ "" ∷ "data:more" ∷ []))
                      (has_call cut_run.0.events)
                  else "stop_sequence")
                (if is_empty expected.1 then none else some (of_chars expected.1))
                output
              ∷ message_stop
              ∷ []))
stream-shows_example =
    stream-shows context (chars "END" ∷ []) (new_signature_store 1 1 1) 0
      ("data:text" ∷ "" ∷ "data:more" ∷ []) none cut_run-works
