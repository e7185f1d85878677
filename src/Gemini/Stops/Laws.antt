-- ===== src/Gemini/Stops/Laws.antt =====
-- The texts that `applyAnthropicStopSequences` of pkg/adapter/gemini.go leaves.
use Prim.Native.Char.{Char}
use mathlib.Core.List.{append-nil, append_assoc}
use aadapter.Base.{
  ◌≡◌, refl, sym, ◌∙◌, ◌⊎◌, inl, inr, Bool, true, false, Bool-cases, Option-cases, List, [], ◌∷◌,
  ◌++◌, All, map, same_char, same_char_iff, chars-of_chars,
}
use aadapter.Base.Maps.{get-put}
use aadapter.Json.{Object, string_or_empty}
use aadapter.StopFilter.{
  TextStopFilter, new_text_stop_filter, feed, feed_combined, earliest_stop, flush, is_empty,
}
use aadapter.StopFilter.Chunks.{stream, reference, stream-reference}
use aadapter.Gemini.Stops.{is_text, text_of, with_text, append_last, append_tail, cut_blocks}

-- The texts of the blocks, one after the other.
abbrev pub all_text : List Object → List Char
all_text [] = []
all_text (b ∷ bs) = text_of b ++ all_text bs

abbrev pub IsText : Object → Type 0
IsText b = is_text b ≡ true

all_text-append : (bs cs : List Object) → all_text (bs ++ cs) ≡ all_text bs ++ all_text cs
all_text-append [] cs = refl
all_text-append (b ∷ bs) cs =
    rw (all_text-append bs cs) (sym (append_assoc (text_of b) (all_text bs) (all_text cs)))

text_of-with_text : (text : List Char) (block : Object) → text_of (with_text text block) ≡ text
unfolding string_or_empty
text_of-with_text text block = simp (get-put, chars-of_chars)

is_text-with_text :
    (text : List Char) (block : Object) → is_text (with_text text block) ≡ is_text block
is_text-with_text text block = simp get-put

-- Does the list end with a text block?
abbrev ends_with_text : List Object → Bool
ends_with_text [] = false
ends_with_text (b ∷ []) = is_text b
ends_with_text (b ∷ d ∷ bs) = ends_with_text (d ∷ bs)

ends-append :
    (bs : List Object) (b : Object) → is_text b ≡ true → ends_with_text (bs ++ b ∷ []) ≡ true
ends-append [] b h = h
ends-append (c ∷ []) b h = h
ends-append (c ∷ d ∷ bs) b h = ends-append (d ∷ bs) b h

all_text-append_last :
    (tail : List Char) (bs : List Object)
    → ends_with_text bs ≡ true
    → all_text (append_last tail bs) ≡ all_text bs ++ tail
unfolding append_last
all_text-append_last tail [] h = absurd (cc)
all_text-append_last tail (b ∷ []) h =
    rw (h, text_of-with_text, append-nil (text_of b), append-nil (text_of b ++ tail)) refl
all_text-append_last tail (b ∷ d ∷ bs) h =
    rw (all_text-append_last tail (d ∷ bs) h)
      (sym (append_assoc (text_of b) (all_text (d ∷ bs)) tail))

all_text-append_tail :
    (tail : List Char) (bs : List Object)
    → (tail ≡ []) ⊎ (ends_with_text bs ≡ true)
    → all_text (append_tail tail bs) ≡ all_text bs ++ tail
unfolding append_tail
all_text-append_tail [] bs h = sym (append-nil (all_text bs))
all_text-append_tail (c ∷ tail) bs (inl e) = absurd (cc)
all_text-append_tail (c ∷ tail) bs (inr e) = all_text-append_last (c ∷ tail) bs e

pub feed-stopped :
    (f : TextStopFilter Char) (text : List Char)
    → is_empty (feed same_char f text).2 ≡ false
    → (feed same_char f text).0.stopped ≡ true
unfolding feed feed_combined
feed-stopped f text h = elim (Bool-cases f.stopped) [
  | inl stopped ↦ absurd (cc (rw (stopped, feed) at h))
  | inr going ↦ elim (Option-cases (earliest_stop same_char (f.pending ++ text) f.sequences)) [
    | inl nothing ↦ absurd (cc (rw (going, nothing, feed) at h))
    | inr (found, is) ↦ rw (going, is, feed) refl
  ]
]

pub stream_stopped :
    (f : TextStopFilter Char) (ts : List (List Char))
    → f.stopped ≡ true
    → (stream same_char f ts).0 ≡ []
unfolding stream feed flush
stream_stopped f [] h = rw h refl
stream_stopped f (t ∷ ts) h = rw h (rw h at (stream_stopped f ts h))

cut_blocks-stream :
    (f : TextStopFilter Char) (bs result : List Object)
    → All IsText bs
    → ((flush f).1 ≡ []) ⊎ (ends_with_text result ≡ true)
    → (all_text (cut_blocks f bs result).0
        ≡ all_text result ++ (stream same_char f (map text_of bs)).0)
      × ((cut_blocks f bs result).1 ≡ (stream same_char f (map text_of bs)).1)
unfolding cut_blocks stream
cut_blocks-stream f [] result texts held = (all_text-append_tail (flush f).1 result held, refl)
cut_blocks-stream f (b ∷ bs) result (is, texts) held =
    let fed = feed same_char f (text_of b) in
    let shown = result ++ with_text fed.1 b ∷ [] in
    let rest = stream same_char fed.0 (map text_of bs) in
    let e : all_text shown ≡ all_text result ++ fed.1 =
      all_text-append result (with_text fed.1 b ∷ [])
      ∙ rw (text_of-with_text, append-nil fed.1) refl in
    let ends = ends-append result (with_text fed.1 b) (is_text-with_text fed.1 b ∙ is) in
    elim (Bool-cases (is_empty fed.2)) [
      | inl unmatched ↦
          let (same, matched) = cut_blocks-stream fed.0 bs shown texts (inr ends) in
          rw (is, unmatched) (same ∙ rw e (append_assoc (all_text result) fed.1 rest.0), matched)
      | inr found ↦
          let nothing = stream_stopped fed.0 (map text_of bs) (feed-stopped f (text_of b) found) in
          rw (is, found, nothing, append-nil fed.1) (e, refl)
    ]

-- The texts of a response that has no other blocks are cut as the stop filter cuts a stream of
-- them: joined, they are what a search of all the text would leave, and the sequence that
-- matched is the one that it would find, for every list of stop sequences.
pub cut_blocks-reference :
    (sequences : List (List Char)) (blocks : List Object)
    → All (λ b. is_text b ≡ true) blocks
    → (all_text (cut_blocks (new_text_stop_filter sequences) blocks []).0
        ≡ (reference same_char sequences [] (map text_of blocks)).0)
      × ((cut_blocks (new_text_stop_filter sequences) blocks []).1
          ≡ (reference same_char sequences [] (map text_of blocks)).1)
unfolding flush
cut_blocks-reference sequences blocks texts =
    rw (← stream-reference same_char same_char_iff sequences (map text_of blocks))
      (cut_blocks-stream (new_text_stop_filter sequences) blocks [] texts (inl refl))
