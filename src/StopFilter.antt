-- ===== src/StopFilter.antt =====
-- The stop filter of pkg/adapter/gemini.go: `earliestStop`, `textStopFilter`, `Feed`, `Flush`. A
-- text is a list over any alphabet with an equality test, so a list of bytes, which a Go string
-- is, or of characters.
mod Search
mod Keep
pub mod Chunks
mod Tests
use aadapter.Base.{
  ℕ, zero, suc, ◌+◌, ◌-◌, min, Bool, true, false, ◌&&◌, Option, none, some, List, [], ◌∷◌, ◌++◌,
  ltb, leb, if◌then◌else◌, length, take, drop,
}
use mathlib.Core.Option

pub record TextStopFilter {ℓ} (A : Type ℓ) : Type ℓ where
  pub sequences : List (List A)
  pub pending : List A
  pub stopped : Bool

abbrev pub new_text_stop_filter {ℓ} : {A : Type ℓ} → List (List A) → TextStopFilter A
new_text_stop_filter sequences = record { sequences = sequences; pending = []; stopped = false }

abbrev pub is_empty {ℓ} : {A : Type ℓ} → List A → Bool
is_empty [] = true
is_empty (x ∷ xs) = false

-- `if index >= 0 && (best < 0 || index < best)`; `none` is the index -1.
unfoldable pub closer {ℓ} :
    {A : Type ℓ} → List A → Option ℕ → Option (ℕ × List A) → Option (ℕ × List A)
closer sequence none best = best
closer sequence (some index) none = some (index, sequence)
closer sequence (some index) (some (best, matched)) =
    if ltb index best then some (index, sequence) else some (best, matched)

module _ {ℓ} {A : Type ℓ} (same : A → A → Bool) where
  -- `strings.HasPrefix`
  unfoldable pub starts_with : List A → List A → Bool
  starts_with text [] = true
  starts_with [] (p ∷ ps) = false
  starts_with (x ∷ xs) (p ∷ ps) = same x p && starts_with xs ps

  -- `strings.Index`; `none` is -1
  unfoldable pub index : List A → List A → Option ℕ
  index [] pattern = if starts_with [] pattern then some 0 else none
  index (x ∷ xs) pattern =
      let rest = Option.map suc (index xs pattern) in
      if starts_with (x ∷ xs) pattern then some 0 else rest

  -- `strings.HasSuffix`
  unfoldable pub has_suffix : List A → List A → Bool
  has_suffix text suffix =
      let start = length text - length suffix in
      leb (length suffix) (length text) && starts_with (drop start text) suffix

  unfoldable pub earliest_from : List A → Option (ℕ × List A) → List (List A) → Option (ℕ × List A)
  earliest_from text best [] = best
  earliest_from text best (sequence ∷ rest) =
      earliest_from text
        (if is_empty sequence then best else closer sequence (index text sequence) best) rest

  unfoldable pub earliest_stop : List A → List (List A) → Option (ℕ × List A)
  earliest_stop text sequences = earliest_from text none sequences

  -- The inner loop of `Feed`, from `length`, for the rounds that its condition admits.
  unfoldable pub keep_lengths : ℕ → ℕ → List A → List A → ℕ → ℕ
  keep_lengths zero len combined sequence keep = keep
  keep_lengths (suc rounds) len combined sequence keep =
      keep_lengths rounds (suc len) combined sequence
        (if has_suffix combined (take len sequence) && ltb keep len then len else keep)

  unfoldable pub keep_sequences : List A → List (List A) → ℕ → ℕ
  keep_sequences combined [] keep = keep
  keep_sequences combined (sequence ∷ rest) keep =
      keep_sequences combined rest
        (keep_lengths (min (length sequence - 1) (length combined)) 1 combined sequence keep)

  unfoldable pub feed_combined :
      TextStopFilter A → List A → Option (ℕ × List A) → TextStopFilter A × List A × List A
  feed_combined f combined (some (index, matched)) =
      (record f { pending = []; stopped = true }, take index combined, matched)
  feed_combined f combined none =
      let keep = keep_sequences combined f.sequences 0 in
      (
        record f { pending = drop (length combined - keep) combined },
        take (length combined - keep) combined,
        [],
      )

  -- The filter after the call, the text to show, and the sequence that matched, `[]` for none.
  unfoldable pub feed : TextStopFilter A → List A → TextStopFilter A × List A × List A
  feed f text =
      let combined = f.pending ++ text in
      let next = feed_combined f combined (earliest_stop combined f.sequences) in
      if f.stopped then (f, [], []) else next

unfoldable pub flush {ℓ} : {A : Type ℓ} → TextStopFilter A → TextStopFilter A × List A
flush f = if f.stopped then (f, []) else (record f { pending = [] }, f.pending)
