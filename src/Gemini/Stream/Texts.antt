-- ===== src/Gemini/Stream/Texts.antt =====
-- The lines that `streamGeminiAsAnthropic` of pkg/adapter/gemini.go reads: which events they make
-- up, and which texts these feed to the stop filter.
use Prim.Native.Char.{Char}
use aadapter.Base.{
  ℕ, ◌+◌, String, ◌≡◌, refl, ap, sym, ◌∙◌, inl, inr, true, false, Bool-cases, Option-cases, Option,
  none, some, List, [], ◌∷◌, ◌++◌, if◌then◌else◌, chars,
}
use aadapter.Gemini.Media.{join}
use aadapter.Gemini.Stream.{Converter, Context}
use aadapter.Gemini.Stream.Lines.{
  byte_length, no_lines, data_of, is_blank, end_event, check_size, scan_lines, check_scan,
  read_stream,
}
use aadapter.Gemini.Stream.Protocol.{Texts, Live, Live-Stopped, Ends}
use aadapter.Gemini.Stream.Rules.{bind_rule, check_rule}
use aadapter.Gemini.Stream.Runs.{feed_texts, feed_texts-append, texts_of_payload, process_data-Live}

-- The event that some data lines make up, if there are some.
abbrev pub ended : List String → List String
ended held = if no_lines held then [] else join "\n" held ∷ []

module _ (c : Context) where
  -- The events of the lines, after the data lines `held`: a blank line ends one.
  unfoldable pub payloads : List String → List String → List String
  payloads [] held = ended held
  payloads (line ∷ rest) held = elim (is_blank c line) [
    | true ↦ ended held ++ payloads rest []
    | false ↦ elim (data_of c line) [
      | none ↦ payloads rest held
      | some d ↦ payloads rest (held ++ d ∷ [])
    ]
  ]

  abbrev pub texts_of_payloads : List String → List (List Char)
  texts_of_payloads [] = []
  texts_of_payloads (payload ∷ rest) = texts_of_payload c payload ++ texts_of_payloads rest

  abbrev pub texts_of_lines : List String → List (List Char)
  texts_of_lines lines = texts_of_payloads (payloads lines [])

  feed_payloads-append :
      (ps qs : List String) (t : Texts)
      → feed_texts (texts_of_payloads (ps ++ qs)) t
        ≡ feed_texts (texts_of_payloads qs) (feed_texts (texts_of_payloads ps) t)
  feed_payloads-append [] qs t = refl
  feed_payloads-append (p ∷ ps) qs t =
      let here = texts_of_payload c p in
      feed_texts-append here (texts_of_payloads (ps ++ qs)) t
      ∙ feed_payloads-append ps qs (feed_texts here t)
      ∙ ap (feed_texts (texts_of_payloads qs))
          (sym (feed_texts-append here (texts_of_payloads ps) t))

  end_event-Live :
      (t : Texts) (held : List String) (s : Converter)
      → Live t s
      → Ends (λ _. Live (feed_texts (texts_of_payloads (ended held)) t)) (end_event c held s)
  unfolding end_event
  end_event-Live t held s live = elim (Bool-cases (no_lines held)) [
    | inl nothing ↦ rw (nothing, end_event) live
    | inr given ↦
        rw (given, end_event, feed_texts-append (texts_of_payload c (join "\n" held)) [] t)
          (process_data-Live c t (join "\n" held) s live)
  ]

  -- What the loop leaves: the event that the last data lines make up is still to be fed.
  abbrev Left : Texts → List String → Converter → Type 0
  Left goal left s = (t : Texts) × Live t s × (feed_texts (texts_of_payloads (ended left)) t ≡ goal)

  scan_lines-Left :
      (t : Texts) (lines held : List String) (bytes : ℕ) (s : Converter)
      → Live t s
      → Ends
          (Left (feed_texts (texts_of_payloads (payloads lines held)) t))
          (scan_lines c lines held bytes s)
  unfolding scan_lines payloads
  scan_lines-Left t [] held bytes s live = (t, live, refl)
  scan_lines-Left t (line ∷ rest) held bytes s live = elim (Bool-cases (is_blank c line)) [
    | inl blank ↦
        let t' = feed_texts (texts_of_payloads (ended held)) t in
        rw (blank, scan_lines, payloads, feed_payloads-append (ended held) (payloads rest []) t)
          (bind_rule (λ _. Live t') (Left (feed_texts (texts_of_payloads (payloads rest [])) t'))
            (end_event c held s) _ (end_event-Live t held s live)
            (λ u s' live'. scan_lines-Left t' rest [] 0 s' live'))
    | inr full ↦ elim (Option-cases (data_of c line)) [
      | inl other ↦
          rw (full, other, scan_lines, payloads) (scan_lines-Left t rest held bytes s live)
      | inr (d, is) ↦
          let size = bytes + byte_length (chars d) in
          rw (full, is, scan_lines, payloads)
            (bind_rule (λ _. Live t)
              (Left (feed_texts (texts_of_payloads (payloads rest (held ++ d ∷ []))) t))
              (s, check_size c size) _
              (check_rule (λ _. Live t) (check_size c size) s (Live-Stopped t s live) (λ _. live))
              (λ u s' live'. scan_lines-Left t rest (held ++ d ∷ []) size s' live'))
    ]
  ]

  pub read_stream-Live :
      (t : Texts) (lines : List String) (scan_error : Option String) (s : Converter)
      → Live t s
      → Ends (λ _. Live (feed_texts (texts_of_lines lines) t)) (read_stream c lines scan_error s)
  unfolding read_stream
  read_stream-Live t lines scan_error s live =
      let goal = feed_texts (texts_of_lines lines) t in
      let Good = (λ (u : Unit {0}). Live goal) in
      bind_rule (Left goal) Good (scan_lines c lines [] 0 s) _ (scan_lines-Left t lines [] 0 s live)
        (λ left s1 (t1, live1, e).
          bind_rule Good Good (end_event c left s1) _ (rw (← e) (end_event-Live t1 left s1 live1))
            (λ u s2 live2.
              check_rule Good (check_scan c scan_error) s2 (Live-Stopped goal s2 live2)
                (λ _. live2)))
