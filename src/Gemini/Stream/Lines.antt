-- ===== src/Gemini/Stream/Lines.antt =====
-- pkg/adapter/gemini.go: the loop of `streamGeminiAsAnthropic` over the lines of the Gemini stream,
-- and what it does at their end. `bufio.Scanner` gives the lines, and an error at their end.
use Prim.Native.Char.{Char, code}
use aadapter.Base.{
  ℕ, ◌+◌, String, Bool, true, false, not, Option, none, some, List, [], ◌∷◌, ◌++◌, length, ◌==◌,
  if◌then◌else◌, str_eq, ltb, chars, of_chars,
}
use aadapter.Base.Outcome.{Outcome, ok, fail}
use aadapter.StopFilter.{flush, is_empty}
use aadapter.Gemini.Carrier.{cut_prefix}
use aadapter.Gemini.Media.{join}
use aadapter.Gemini.Response.{build_usage, map_finish_reason}
use aadapter.Gemini.Stream.{
  Converter, Context, message_delta, message_stop, error_event, Action, ◌>>=◌, ◌>>◌, done, modify,
  check, write,
}
use aadapter.Gemini.Stream.Emit.{start_message, close_text, emit_text}
use aadapter.Gemini.Stream.Process.{process_data}

-- `len` of a string: the bytes of its UTF-8.
unfoldable pub char_bytes : Char → ℕ
char_bytes ch =
    let n = code ch in
    if ltb n 0x80 then 1 else if ltb n 0x800 then 2 else if ltb n 0x10000 then 3 else 4

unfoldable pub byte_length : List Char → ℕ
byte_length [] = 0
byte_length (ch ∷ rest) = char_bytes ch + byte_length rest

abbrev pub no_lines : List String → Bool
no_lines lines = length lines == 0

module _ (c : Context) where
  -- The data of a line, if it has some.
  unfoldable pub data_of : String → Option String
  data_of line = elim (cut_prefix line "data:") [ some d ↦ some (c.trim_space d) | none ↦ none ]

  unfoldable pub is_blank : String → Bool
  is_blank line = str_eq (c.trim_space line) ""

  unfoldable pub end_event : List String → Action (Unit {0})
  end_event lines = if no_lines lines then done else process_data c (join "\n" lines)

  abbrev pub too_large : String
  too_large = "Gemini SSE event exceeds configured size limit"

  abbrev pub check_size : ℕ → Outcome (Unit {0})
  check_size bytes = if ltb c.max_event_bytes bytes then fail too_large else ok tt

  -- The loop, from the data lines of the event so far and their bytes; what it gives is the lines
  -- of an event that no blank line ended.
  unfoldable pub scan_lines : List String → List String → ℕ → Action (List String)
  scan_lines [] lines bytes = check (ok lines)
  scan_lines (line ∷ rest) lines bytes = elim (is_blank line) [
    | true ↦ do end_event lines; scan_lines rest [] 0
    | false ↦ elim (data_of line) [
      | none ↦ scan_lines rest lines bytes
      | some d ↦ do
        check (check_size (bytes + byte_length (chars d)))
        scan_lines rest (lines ++ d ∷ []) (bytes + byte_length (chars d))
    ]
  ]

  abbrev pub check_scan : Option String → Outcome (Unit {0})
  check_scan none = ok tt
  check_scan (some message) = fail message

  unfoldable pub read_stream : List String → Option String → Action (Unit {0})
  read_stream lines scan_error = do
    left ← scan_lines lines [] 0
    end_event left
    check (check_scan scan_error)

  abbrev pub held : Converter → List Char
  held s = (flush s.filter).1

  abbrev pub flushed : Converter → Converter
  flushed s = record s { filter = (flush s.filter).0 }

  abbrev pub with_sequences : List (List Char) → Converter → Converter
  with_sequences sequences s = record s { filter = record s.filter { sequences = sequences } }

  -- What the filter holds back at the end is emitted with no stop sequences to look for.
  unfoldable pub emit_held : Action (Unit {0})
  emit_held s =
      if not (is_empty s.matched_stop)
      then (s, ok tt)
      else if is_empty (held s)
      then (flushed s, ok tt)
      else (do
        modify (with_sequences [])
        emit_text c (held s) ""
        modify (with_sequences s.filter.sequences))
          (flushed s)

  abbrev pub stop_reason : Converter → String
  stop_reason s =
      if is_empty s.matched_stop
      then map_finish_reason s.latest_finish s.has_tool_use
      else "stop_sequence"

  abbrev pub stop_sequence : Converter → Option String
  stop_sequence s = if is_empty s.matched_stop then none else some (of_chars s.matched_stop)

  unfoldable pub write_end : Action (Unit {0})
  write_end s =
      (do
        write c (
            message_delta (stop_reason s) (stop_sequence s)
              (build_usage c.out_of_range s.latest_usage).output_tokens)
        write c message_stop)
        s

  unfoldable pub finish_stream : Action (Unit {0})
  finish_stream = do emit_held; start_message c; close_text c; write_end

  -- What comes after the lines: an error is written, and its own write may fail.
  unfoldable pub end_stream : Converter × Outcome (Unit {0}) → Converter × Outcome (Unit {0})
  end_stream (s, fail message) = ((write c (error_event message) s).0, fail message)
  end_stream (s, ok _) = finish_stream s

  unfoldable pub stream_gemini : List String → Option String → Action (Unit {0})
  stream_gemini lines scan_error s = end_stream (read_stream lines scan_error s)
