-- ===== src/Gemini/Stream/Finish.antt =====
-- The end of `streamGeminiAsAnthropic` of pkg/adapter/gemini.go: what the stop filter held back is
-- shown, and the message is closed.
use Prim.Native.Char.{Char}
use aadapter.Base.{
  ℕ, zero, suc, ◌-◌, arith, ◌≡◌, refl, ap, sym, ◌∙◌, inl, inr, true, false, Bool-cases, List, [],
  ◌∷◌, ◌++◌, if◌then◌else◌, same_char, length, take,
}
use mathlib.Core.List.{append-nil}
use aadapter.StopFilter.{
  TextStopFilter, feed, feed_combined, earliest_stop, earliest_from, keep_sequences, flush,
  is_empty,
}
use aadapter.Gemini.Stream.{Converter, Context}
use aadapter.Gemini.Stream.Emit.{emit_text}
use aadapter.Gemini.Stream.Lines.{held, flushed, with_sequences, emit_held}
use aadapter.Gemini.Stream.Protocol.{Texts, texts_of, Live, Ends}
use aadapter.Gemini.Stream.Rules.{bind_rule, weaken_rule}
use aadapter.Gemini.Stream.Order.{feed_text, emit_text-Live}

-- What the filter still holds when no stop sequence has been found.
abbrev pub tail : Texts → List Char
tail t = if is_empty t.matched then (flush t.filter).1 else []

abbrev with_filter : (TextStopFilter Char → TextStopFilter Char) → Texts → Texts
with_filter change t = record t { filter = change t.filter }

Live-with_filter :
    (change : TextStopFilter Char → TextStopFilter Char) (t : Texts) (s : Converter)
    → Live t s
    → Live (with_filter change t) (record s { filter = change s.filter })
Live-with_filter change t s (inl (new, closed, zeroth, at, texts)) =
    inl (new, closed, zeroth, at, ap (with_filter change) texts)
Live-with_filter change t s (inr (inl (started, closed, at, texts))) =
    inr (inl (started, closed, at, ap (with_filter change) texts))
Live-with_filter change t s (inr (inr (started, opened, next, at, texts))) =
    inr (inr (started, opened, next, at, ap (with_filter change) texts))

abbrev unsought : TextStopFilter Char
unsought = record { sequences = []; pending = []; stopped = false }

take_all : (n : ℕ) (text : List Char) → n ≡ length text → take n text ≡ text
take_all zero [] h = refl
take_all (suc n) [] h = refl
take_all zero (ch ∷ text) h = absurd (omega (arith, h))
take_all (suc n) (ch ∷ text) h = ap (λ (x : List Char). ch ∷ x) (take_all n text (omega (arith, h)))

-- With no sequences to look for, a text goes through, and none is found.
feed-unsought :
    (text : List Char)
    → ((feed same_char unsought text).1 ≡ text) × ((feed same_char unsought text).2 ≡ [])
unfolding feed feed_combined earliest_stop earliest_from keep_sequences
feed-unsought text = (take_all (length text - 0) text (omega arith), refl)

-- The texts when what the filter held is shown.
abbrev pub Told : Texts → Converter → Type 0
Told t s = (t' : Texts) × Live t' s × (t'.shown ≡ t.shown ++ tail t) × (t'.matched ≡ t.matched)

feed_text-unsought :
    (text : List Char) (t : Texts)
    → ((feed_text text (with_filter (λ _. unsought) t)).shown ≡ t.shown ++ text)
      × ((feed_text text (with_filter (λ _. unsought) t)).matched ≡ t.matched)
feed_text-unsought [] t = (sym (append-nil t.shown), refl)
feed_text-unsought (ch ∷ rest) t =
    let (through, nothing) = feed-unsought (ch ∷ rest) in
    (
      ap (λ (x : List Char). t.shown ++ x) through,
      ap (λ (x : List Char). if is_empty x then t.matched else x) nothing,
    )

-- A filter that holds something has found nothing.
held-unsought :
    (f : TextStopFilter Char)
    → is_empty (flush f).1 ≡ false
    → record (flush f).0 { sequences = [] } ≡ unsought
unfolding flush
held-unsought f some_held = elim (Bool-cases f.stopped) [
  | inl stopped ↦ absurd (cc (rw (stopped, flush) at some_held))
  | inr going ↦ simp (going, flush) refl
]

nothing_in : (text : List Char) → is_empty text ≡ true → text ≡ []
nothing_in [] h = refl
nothing_in (ch ∷ rest) h = absurd (cc)

pub tail-found : (t : Texts) → is_empty t.matched ≡ false → tail t ≡ []
tail-found t h = rw h refl

pub tail-unmatched : (t : Texts) → is_empty t.matched ≡ true → tail t ≡ (flush t.filter).1
tail-unmatched t h = rw h refl

module _ (c : Context) where
  -- What the filter holds goes through the emitter when no sequences are left to look for.
  emit_text-Told :
      (s : Converter)
      → is_empty s.matched_stop ≡ true
      → is_empty (held c s) ≡ false
      → Live (texts_of s) s
      → Ends
          (λ _ s'. Told (texts_of s) (with_sequences c s.filter.sequences s'))
          (emit_text c (held c s) "" (with_sequences c [] (flushed c s)))
  emit_text-Told s unmatched some_held live =
      let t = texts_of s in
      let drain = (λ (f : TextStopFilter Char). record (flush f).0 { sequences = [] }) in
      let back = (λ (f : TextStopFilter Char). record f { sequences = s.filter.sequences }) in
      let fed = (λ (x : Texts). feed_text (held c s) x) in
      let drained : with_filter drain t ≡ with_filter (λ _. unsought) t =
        ap (λ (f : TextStopFilter Char). record t { filter = f })
          (held-unsought s.filter some_held) in
      let (shown, matched) = feed_text-unsought (held c s) t in
      weaken_rule (λ _. Live (fed (with_filter drain t)))
        (λ _ s'. Told t (with_sequences c s.filter.sequences s'))
        (emit_text c (held c s) "" (with_sequences c [] (flushed c s)))
        (emit_text-Live c (with_filter drain t) (held c s) "" (with_sequences c [] (flushed c s))
          (Live-with_filter drain t s live))
        (λ u s' live'. (
          with_filter back (fed (with_filter drain t)),
          Live-with_filter back _ s' live',
          ap (λ x. (fed x).shown) drained
              ∙ shown
              ∙ ap (λ x. t.shown ++ x) (sym (tail-unmatched t unmatched)),
          ap (λ x. (fed x).matched) drained ∙ matched,
        ))

  pub emit_held-Told :
      (s : Converter) → Live (texts_of s) s → Ends (λ _. Told (texts_of s)) (emit_held c s)
  unfolding emit_held
  emit_held-Told s live =
      let t = texts_of s in
      let Good = (λ (u : Unit {0}). Told t) in
      let shows = (λ (x : List Char). λ (e : tail t ≡ x). ap (λ y. t.shown ++ y) (sym e)) in
      elim (Bool-cases (is_empty s.matched_stop)) [
        | inr found ↦
            rw (found, emit_held)
              (t, live, sym (append-nil t.shown) ∙ shows [] (tail-found t found), refl)
        | inl unmatched ↦ elim (Bool-cases (is_empty (held c s))) [
          | inl empty ↦
              rw (unmatched, empty, emit_held)
                (
                  with_filter (λ f. (flush f).0) t,
                  Live-with_filter (λ f. (flush f).0) t s live,
                  sym (append-nil t.shown)
                      ∙ shows [] (tail-unmatched t unmatched ∙ nothing_in (held c s) empty),
                  refl,
                )
          | inr some_held ↦
              rw (unmatched, some_held, emit_held)
                (bind_rule (λ _ s'. Told t (with_sequences c s.filter.sequences s')) Good
                  (emit_text c (held c s) "" (with_sequences c [] (flushed c s))) _
                  (emit_text-Told s unmatched some_held live) (λ u s' h. h))
        ]
      ]
