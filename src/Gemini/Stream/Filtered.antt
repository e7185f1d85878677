-- ===== src/Gemini/Stream/Filtered.antt =====
-- The texts that a run of `streamGeminiAsAnthropic` of pkg/adapter/gemini.go feeds to the stop
-- filter, against the filter on its own.
use Prim.Native.Char.{Char}
use Prim.Native.String.append
use mathlib.Core.List.{append_assoc, append-nil}
use aadapter.Base.{
  String, ◌++ₛ◌, ◌≡◌, refl, ap, ◌∙◌, inl, inr, true, false, Bool-cases, Option-cases, ◌||◌, some,
  List, [], ◌∷◌, ◌++◌, All, if◌then◌else◌, same_char, str_eq, chars,
}
use aadapter.Base.Outcome.{Outcome-cases}
use aadapter.Json.{Value, Object, as_object, string_or_empty}
use aadapter.Base.Maps.{get}
use aadapter.Gemini.Candidate.{first_candidate}
use aadapter.Gemini.Response.{block_reason}
use aadapter.Gemini.Stream.Process.{blocked_message, is_thought, parts_of}
use aadapter.StopFilter.{TextStopFilter, feed, is_empty}
use aadapter.StopFilter.Chunks.{stream}
use aadapter.Gemini.Stops.Laws.{feed-stopped, stream_stopped}
use aadapter.Gemini.Stream.{Context}
use aadapter.Gemini.Stream.Protocol.{Texts}
use aadapter.Gemini.Stream.Order.{feed_text}
use aadapter.Gemini.Stream.Runs.{
  feed_texts, text_of_part, part_texts, texts_of_parts, texts_of_chunk, texts_of_payload,
}
use aadapter.Gemini.Stream.Texts.{texts_of_payloads}
use aadapter.Gemini.Stream.Finish.{tail, tail-found, tail-unmatched}

abbrev pub Spoken : List Char → Type 0
Spoken text = is_empty text ≡ false

-- The text shown at the end.
abbrev pub total : Texts → List Char
total t = t.shown ++ tail t

feed-was_stopped :
    (f : TextStopFilter Char) (text : List Char)
    → f.stopped ≡ true
    → feed same_char f text ≡ (f, [], [])
unfolding feed
feed-was_stopped f text h = simp (h, feed) refl

-- Once the filter has stopped, more texts change nothing.
feed_text-stopped : (text : List Char) (t : Texts) → t.filter.stopped ≡ true → feed_text text t ≡ t
feed_text-stopped [] t h = refl
feed_text-stopped (ch ∷ rest) t h =
    ap
      (λ (x : TextStopFilter Char × List Char × List Char). (record {
        shown = t.shown ++ x.1;
        filter = x.0;
        matched = if is_empty x.2 then t.matched else x.2;
      }))
      (feed-was_stopped t.filter (ch ∷ rest) h)
    ∙ ap (λ (x : List Char). record t { shown = x }) (append-nil t.shown)

feed_texts-stopped :
    (ts : List (List Char)) (t : Texts) → t.filter.stopped ≡ true → feed_texts ts t ≡ t
feed_texts-stopped [] t h = refl
feed_texts-stopped (text ∷ ts) t h =
    ap (feed_texts ts) (feed_text-stopped text t h) ∙ feed_texts-stopped ts t h

pub feed_texts-stream :
    (ts : List (List Char)) (t : Texts)
    → All Spoken ts
    → t.matched ≡ []
    → (total (feed_texts ts t) ≡ t.shown ++ (stream same_char t.filter ts).0)
      × ((feed_texts ts t).matched ≡ (stream same_char t.filter ts).1)
unfolding stream
feed_texts-stream [] t spoken unmatched =
    (ap (λ x. t.shown ++ x) (tail-unmatched t (rw unmatched refl)), unmatched)
feed_texts-stream ([] ∷ ts) t spoken unmatched = absurd (cc (spoken.0))
feed_texts-stream ((ch ∷ rest) ∷ ts) t (_, spoken) unmatched =
    let fed = feed same_char t.filter (ch ∷ rest) in
    let t1 = feed_text (ch ∷ rest) t in
    let later = stream same_char fed.0 ts in
    elim (Bool-cases (is_empty fed.2)) [
      | inl nothing ↦
          let (shown, matched) = feed_texts-stream ts t1 spoken (rw nothing unmatched) in
          (shown ∙ append_assoc t.shown fed.1 later.0, matched ∙ rw nothing refl)
      | inr found ↦
          let stopped = feed-stopped t.filter (ch ∷ rest) found in
          let same = feed_texts-stopped ts t1 stopped in
          (
            ap total same
                ∙ ap (λ x. t1.shown ++ x) (tail-found t1 (rw found found))
                ∙ append-nil t1.shown
                ∙ rw (stream_stopped fed.0 ts stopped, append-nil fed.1) refl,
            ap (λ x. x.matched) same ∙ rw found refl,
          )
    ]

All-append {ℓ κ} :
    {A : Type ℓ} (Holds : A → Type κ) (xs ys : List A)
    → All Holds xs
    → All Holds ys
    → All Holds (xs ++ ys)
All-append Holds [] ys h k = k
All-append Holds (x ∷ xs) ys (hx, h) k = (hx, All-append Holds xs ys h k)

chars-Spoken : (text : String) → str_eq text "" ≡ false → Spoken (chars text)
chars-Spoken String.[] h = absurd (cc h)
chars-Spoken (String.◌∷◌ ch text) h = refl

text_of_part-Spoken : (part : Object) → All Spoken (text_of_part part)
unfolding text_of_part
text_of_part-Spoken part = elim (Bool-cases (is_thought part)) [
  | inl hidden ↦ rw (hidden, text_of_part) tt
  | inr visible ↦ elim (Bool-cases (str_eq (string_or_empty (get "text" part)) "")) [
    | inl empty ↦ rw (visible, empty, text_of_part) tt
    | inr given ↦
        rw (visible, given, text_of_part)
          (chars-Spoken (string_or_empty (get "text" part)) given, tt)
  ]
]

part_texts-Spoken : (raw : Value) → All Spoken (part_texts raw)
part_texts-Spoken raw = elim (Option-cases (as_object (some raw))) [
  | inl other ↦ rw (other, part_texts) tt
  | inr (part, is) ↦ rw (is, part_texts) (text_of_part-Spoken part)
]

texts_of_parts-Spoken : (parts : List Value) → All Spoken (texts_of_parts parts)
texts_of_parts-Spoken [] = tt
texts_of_parts-Spoken (raw ∷ rest) =
    All-append Spoken (part_texts raw) (texts_of_parts rest) (part_texts-Spoken raw)
      (texts_of_parts-Spoken rest)

append-Spoken : (s t : String) → str_eq s "" ≡ false → Spoken (chars (s ++ₛ t))
append-Spoken String.[] t h = absurd (cc (h))
append-Spoken (String.◌∷◌ ch s) t h = ap (λ x. is_empty (chars x)) (append.cons ch s t)

blocked-Spoken : (reason : String) → Spoken (blocked_message reason)
blocked-Spoken reason = append-Spoken "Request blocked by Gemini safety filters: " reason refl

texts_of_chunk-Spoken : (chunk : Object) → All Spoken (texts_of_chunk chunk)
unfolding texts_of_chunk
texts_of_chunk-Spoken chunk = elim (Bool-cases (str_eq (block_reason chunk) "")) [
  | inl answered ↦
      rw (answered, texts_of_chunk) (texts_of_parts-Spoken (parts_of (first_candidate chunk)))
  | inr blocked ↦ rw (blocked, texts_of_chunk) (blocked-Spoken (block_reason chunk), tt)
]

module _ (c : Context) where
  texts_of_payload-Spoken : (payload : String) → All Spoken (texts_of_payload c payload)
  unfolding texts_of_payload
  texts_of_payload-Spoken payload =
      elim (Bool-cases
        (str_eq (c.trim_space payload) "" || str_eq (c.trim_space payload) "[DONE]")) [
          | inl skipped ↦ rw (skipped, texts_of_payload) tt
          | inr given ↦ elim (Outcome-cases (c.platform.unmarshal_object payload)) [
            | inl (message, fails) ↦ rw (given, fails, texts_of_payload) tt
            | inr (chunk, is) ↦ rw (given, is, texts_of_payload) (texts_of_chunk-Spoken chunk)
          ]
        ]

  pub texts_of_payloads-Spoken : (ps : List String) → All Spoken (texts_of_payloads c ps)
  texts_of_payloads-Spoken [] = tt
  texts_of_payloads-Spoken (p ∷ ps) =
      All-append Spoken (texts_of_payload c p) (texts_of_payloads c ps) (texts_of_payload-Spoken p)
        (texts_of_payloads-Spoken ps)
