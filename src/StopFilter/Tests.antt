-- ===== src/StopFilter/Tests.antt =====
-- Runs of the stop filter of pkg/adapter/gemini.go at concrete inputs.
use Prim.Native.Char.{Char}
use aadapter.Base.{◌≡◌, refl, List, [], ◌∷◌, chars, same_char, same_char_iff}
use aadapter.StopFilter.{
  new_text_stop_filter, starts_with, index, closer, has_suffix, earliest_from, earliest_stop,
  keep_lengths, keep_sequences, feed_combined, feed, flush,
}
use aadapter.StopFilter.Chunks.{stream, reference, stream-reference}

program : Unit {0}
unfolding starts_with index closer has_suffix earliest_from earliest_stop keep_lengths
    keep_sequences feed_combined feed flush stream reference
program = tt

abbrev stops : List (List Char)
stops = chars "STOP" ∷ chars "" ∷ chars "TO" ∷ []

-- A sequence across two chunks is found, and what could begin one is held back until the end.
across :
    (stream same_char (new_text_stop_filter stops) (chars "ab S" ∷ chars "T" ∷ chars "OPcd" ∷ [])
      ≡ (chars "ab ", chars "STOP"))
    × (stream same_char (new_text_stop_filter stops) (chars "ab S" ∷ chars "T" ∷ [])
        ≡ (chars "ab ST", []))
unfolding program
across = (refl, refl)

-- A shorter sequence inside a longer one wins as soon as it is complete: the cut matters.
cut_matters :
    (stream same_char (new_text_stop_filter stops) (chars "STO" ∷ chars "P" ∷ [])
      ≡ (chars "S", chars "TO"))
    × (stream same_char (new_text_stop_filter stops) (chars "STOP" ∷ []) ≡ ([], chars "STOP"))
unfolding program
cut_matters = (refl, refl)

stream-reference_example :
    stream same_char (new_text_stop_filter stops) (chars "ab S" ∷ chars "TOP" ∷ [])
    ≡ reference same_char stops [] (chars "ab S" ∷ chars "TOP" ∷ [])
stream-reference_example =
    stream-reference same_char same_char_iff stops (chars "ab S" ∷ chars "TOP" ∷ [])
