-- ===== src/StopFilter/Chunks.antt =====
-- A text that arrives in chunks, through `Feed` and `Flush` of pkg/adapter/gemini.go, against a
-- search of all that has arrived.
use aadapter.Base.{
  ℕ, ◌+◌, ◌-◌, ◌≡◌, refl, ◌↔◌, inl, inr, Bool, true, false, none, some, List, [], ◌∷◌, ◌++◌, arith,
  Option-cases, if◌then◌else◌, length, take, drop, ap, All, take-append-drop,
}
use mathlib.Core.List.{append_assoc, append-nil}
use native.Mathlib.Nat.{zero-add, suc-add}
use aadapter.StopFilter.{
  TextStopFilter, new_text_stop_filter, keep_sequences, is_empty, earliest_stop, feed,
  feed_combined, flush,
}
use aadapter.StopFilter.Search.{CleanOf, earliest_stop-Clean, earliest_from-none}
use aadapter.StopFilter.Keep.{keep_sequences_max, feed-CleanOf}

module _ {ℓ} {A : Type ℓ} (same : A → A → Bool) where
  -- The text shown for the chunks and the sequence that matched, `[]` for none: each chunk is fed
  -- to the filter, and what it still holds is flushed at the end.
  unfoldable pub stream : TextStopFilter A → List (List A) → List A × List A
  stream f [] = ((flush f).1, [])
  stream f (t ∷ ts) =
      let (f', output, matched) = feed same f t in
      let (rest, later) = stream f' ts in
      (output ++ rest, if is_empty matched then later else matched)

  -- The same from a buffer that keeps everything and shows nothing before the end.
  unfoldable pub reference : List (List A) → List A → List (List A) → List A × List A
  reference sequences seen [] = (seen, [])
  reference sequences seen (t ∷ ts) = elim (earliest_stop same (seen ++ t) sequences) [
    | none ↦ reference sequences (seen ++ t) ts
    | some (i, matched) ↦ (take i (seen ++ t), matched)
  ]

  stream_stopped :
      (sequences ts : List (List A))
      → stream (record { sequences = sequences; pending = []; stopped = true }) ts ≡ ([], [])
  unfolding stream feed flush
  stream_stopped sequences [] = refl
  stream_stopped sequences (t ∷ ts) = rw (stream_stopped sequences ts)

  take-shift :
      (shown rest : List A) (i : ℕ) → take (length shown + i) (shown ++ rest) ≡ shown ++ take i rest
  take-shift [] rest i = rw zero-add
  take-shift (x ∷ shown) rest i = rw suc-add (ap (◌∷◌ x) (take-shift shown rest i))

  -- A filter that has not stopped, and one round of each side.
  abbrev holding : List (List A) → List A → TextStopFilter A
  holding sequences held = record { sequences = sequences; pending = held; stopped = false }

  module _ (sequences : List (List A)) (t : List A) (ts : List (List A)) where
    reference-some :
        (seen : List A) (i : ℕ) (matched : List A)
        → earliest_stop same (seen ++ t) sequences ≡ some (i, matched)
        → reference sequences seen (t ∷ ts) ≡ (take i (seen ++ t), matched)
    unfolding reference
    reference-some seen i matched e = rw (e, reference)

    reference-none :
        (seen : List A)
        → earliest_stop same (seen ++ t) sequences ≡ none
        → reference sequences seen (t ∷ ts) ≡ reference sequences (seen ++ t) ts
    unfolding reference
    reference-none seen e = rw (e, reference)

    stream-some :
        (held : List A) (i : ℕ) (matched : List A)
        → earliest_stop same (held ++ t) sequences ≡ some (i, matched)
        → stream (holding sequences held) (t ∷ ts) ≡ (take i (held ++ t), matched)
    unfolding stream feed feed_combined
    stream-some held i matched e =
        rw (e, feed_combined, stream_stopped, append-nil) (no_later matched)
      where
        no_later :
            (m : List A)
            → ◌≡◌ {A = List A × List A}
                (take i (held ++ t), if is_empty m then [] else m)
                (take i (held ++ t), m)
        no_later [] = refl
        no_later (x ∷ m) = refl

    stream-none :
        (held : List A)
        → earliest_stop same (held ++ t) sequences ≡ none
        → let c = held ++ t in
          let n = length c - keep_sequences same c sequences 0 in
          stream (holding sequences held) (t ∷ ts) ≡ (
            take n c ++ (stream (holding sequences (drop n c)) ts).0,
            (stream (holding sequences (drop n c)) ts).1,
          )
    unfolding stream feed feed_combined
    stream-none held e = rw (e, feed_combined)

module _ {ℓ} {A : Type ℓ} (same : A → A → Bool)
    (same_iff : (a b : A) → (same a b ≡ true) ↔ (a ≡ b)) where
  stream_from :
      (sequences : List (List A)) (shown held : List A) (ts : List (List A))
      → All (CleanOf same shown held) sequences
      → (
        shown ++ (stream same (holding same sequences held) ts).0,
        (stream same (holding same sequences held) ts).1,
      )
        ≡ reference same sequences (shown ++ held) ts
  stream_from sequences shown held [] clean = unfold stream reference flush in refl
  stream_from sequences shown held (t ∷ ts) clean =
      let c = held ++ t in
      let k = keep_sequences same c sequences 0 in
      let n = length c - k in
      let whole = earliest_stop-Clean same sequences shown held t clean in
      elim (Option-cases (earliest_stop same c sequences)) [
        | inr ((i, matched), found) ↦ rw (
          stream-some same sequences t ts held i matched found,
          reference-some same sequences t ts (shown ++ held) (length shown + i) matched
              (rw (append_assoc, whole, found)),
          append_assoc,
          take-shift,
        )
        | inl absent ↦
            let (_, fits, covers) = keep_sequences_max same same_iff c sequences 0 (omega arith) in
            let none_found = earliest_from-none same sequences c (unfold earliest_stop in absent) in
            let clean' =
              feed-CleanOf same same_iff sequences shown held t k fits clean none_found covers in
            rw
              (
                stream-none same sequences t ts held absent,
                reference-none same sequences t ts (shown ++ held)
                    (rw (append_assoc, whole, absent)),
              )
              (simp append_assoc (
                simp (append_assoc, take-append-drop) at
                  (stream_from sequences (shown ++ take n c) (drop n c) ts clean')))
      ]

  -- However a text is cut into chunks, the filter shows and matches what a search of everything
  -- received so far would: all of the text if no stop sequence has appeared by the end, and
  -- otherwise the text before the earliest sequence in the first chunks that hold one, with that
  -- sequence. It holds for every list of sequences.
  pub stream-reference :
      (sequences ts : List (List A))
      → stream same (new_text_stop_filter sequences) ts ≡ reference same sequences [] ts
  stream-reference sequences ts = stream_from sequences [] [] ts (all_clean sequences)
    where
      all_clean : (l : List (List A)) → All (CleanOf same [] []) l
      all_clean [] = tt
      all_clean (s ∷ l) = (inr tt, all_clean l)
