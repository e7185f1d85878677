-- ===== src/Gemini/Stops/Tests.antt =====
-- Runs of the cut at stop sequences of pkg/adapter/gemini.go at concrete inputs.
use aadapter.Base.{◌≡◌, refl, none, some, List, [], ◌∷◌, map, chars, same_char, String}
use aadapter.Base.Maps.{get, put}
use aadapter.Json.{str, Object, string_or_empty}
use aadapter.StopFilter.{
  new_text_stop_filter, closer, starts_with, index, has_suffix, earliest_from, earliest_stop,
  keep_lengths, keep_sequences, feed_combined, feed, flush,
}
use aadapter.StopFilter.Chunks.{reference}
use aadapter.Gemini.Response.{Response}
use aadapter.Gemini.Stops.{text_of, append_last, append_tail, cut_blocks, apply_stop_sequences}
use aadapter.Gemini.Stops.Laws.{all_text, cut_blocks-reference}

program : Unit {0}
unfolding get put string_or_empty closer starts_with index has_suffix earliest_from earliest_stop
    keep_lengths keep_sequences feed_combined feed flush append_last append_tail cut_blocks
    apply_stop_sequences
program = tt

abbrev text_block : String → Object
text_block text = ("type", str "text") ∷ ("text", str text) ∷ []

abbrev call_block : Object
call_block = ("type", str "tool_use") ∷ []

abbrev response : List Object → String → Response
response content reason = record {
  id = "1";
  model = "m";
  content = content;
  stop_reason = reason;
  usage = record { input_tokens = 0; output_tokens = 0; cache_read_input_tokens = none };
}

-- A sequence across two blocks ends the content; one that a call interrupts is no match.
cuts :
    (apply_stop_sequences
        ("END" ∷ [])
        (response (text_block "ab EN" ∷ text_block "D cd" ∷ call_block ∷ []) "tool_use")
      ≡ (response (text_block "ab " ∷ text_block "" ∷ []) "stop_sequence", some "END"))
    × (apply_stop_sequences
          ("END" ∷ [])
          (response (text_block "ab EN" ∷ call_block ∷ text_block "D" ∷ []) "tool_use")
        ≡ (response (text_block "ab EN" ∷ call_block ∷ text_block "D" ∷ []) "tool_use", none))
unfolding program
cuts = (refl, refl)

cut_blocks-reference_example :
    (all_text
        (cut_blocks
          (new_text_stop_filter (chars "END" ∷ []))
          (text_block "ab EN" ∷ text_block "D cd" ∷ [])
          []).0
      ≡ (reference same_char
          (chars "END" ∷ [])
          []
          (map text_of (text_block "ab EN" ∷ text_block "D cd" ∷ []))).0)
    × ((cut_blocks
          (new_text_stop_filter (chars "END" ∷ []))
          (text_block "ab EN" ∷ text_block "D cd" ∷ [])
          []).1
        ≡ (reference same_char
            (chars "END" ∷ [])
            []
            (map text_of (text_block "ab EN" ∷ text_block "D cd" ∷ []))).1)
unfolding get string_or_empty
cut_blocks-reference_example =
    cut_blocks-reference (chars "END" ∷ []) (text_block "ab EN" ∷ text_block "D cd" ∷ [])
      (refl, (refl, tt))
