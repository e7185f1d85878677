-- ===== src/Gemini/Stream/Result.antt =====
-- What a run of `streamGeminiAsAnthropic` of pkg/adapter/gemini.go writes: events in the order of
-- the protocol, and the text that the stop filter is to let through.
use Prim.Native.Char.{Char}
use aadapter.Base.{
  ℕ, String, ◌≡◌, refl, ap, ◌∙◌, ◌↔◌, inl, Option, none, some, List, [], ◌∷◌, ◌++◌, if◌then◌else◌,
  same_char, same_char_iff, of_chars,
}
use aadapter.Base.Outcome.{Outcome, ok, fail}
use aadapter.Gemini.Response.{map_finish_reason}
use aadapter.Signatures.{SignatureStore}
use aadapter.StopFilter.{new_text_stop_filter, is_empty}
use aadapter.StopFilter.Chunks.{reference, stream-reference}
use aadapter.Gemini.Stream.{
  StreamEvent, message_delta, message_stop, Converter, Context, new_converter,
}
use aadapter.Gemini.Stream.Lines.{read_stream, stream_gemini, stop_reason, stop_sequence}
use aadapter.Gemini.Stream.Calls.{has_call, Leads, Noted}
use aadapter.Gemini.Stream.Reasons.{reason_of_lines, stream_gemini-Noted}
use aadapter.Json.{Value}
use aadapter.Gemini.Stream.Protocol.{Phase, over, follow_all, shown_text, Texts, texts_of}
use aadapter.Gemini.Stream.Runs.{feed_texts}
use aadapter.Gemini.Stream.Texts.{payloads, texts_of_lines, read_stream-Live}
use aadapter.Gemini.Stream.Filtered.{total, feed_texts-stream, texts_of_payloads-Spoken}
use aadapter.Gemini.Stream.Ending.{Closes, Final, end_stream-Final}

-- The texts before a run, and what it feeds to the filter.
abbrev fed_of : Context → List (List Char) → List String → Texts
fed_of c sequences lines =
    feed_texts (texts_of_lines c lines)
      (record { shown = []; filter = new_text_stop_filter sequences; matched = [] })

abbrev pub run_of :
    Context
    → List (List Char)
    → SignatureStore
    → ℕ
    → List String
    → Option String
    → Converter × Outcome (Unit {0})
run_of c sequences store counter lines scan_error =
    stream_gemini c lines scan_error (new_converter sequences store counter)

run-Closes :
    (c : Context) (sequences : List (List Char)) (store : SignatureStore) (counter : ℕ)
    (lines : List String) (scan_error : Option String)
    → Closes
        (Final c (fed_of c sequences lines))
        (run_of c sequences store counter lines scan_error)
unfolding stream_gemini
run-Closes c sequences store counter lines scan_error =
    let start = new_converter sequences store counter in
    end_stream-Final c (fed_of c sequences lines) (read_stream c lines scan_error start) (
      read_stream-Live c (texts_of start) lines scan_error start
        (inl (refl, refl, refl, refl, refl)))

-- The phase of the events is known however a run ends.
Closes-phase :
    (Good : Converter → Type 0) (r : Converter × Outcome (Unit {0}))
    → Closes Good r
    → (phase : Phase) × (follow_all r.0.events ≡ some phase) × ((r.1 ≡ ok tt) ↔ (phase ≡ over))
Closes-phase Good (s, ok _) (at, h) = (over, at, (λ e. refl, λ e. refl))
Closes-phase Good (s, fail message) (phase, at, unfinished) =
    (phase, at, (λ e. absurd (cc), λ e. absurd (cc)))

-- The events of a converted stream keep the order of the protocol for all lines of the upstream
-- stream, whatever they hold, however reading them fails and whichever writes fail: message_start
-- is the first event, where it is not an error, and comes only once, blocks are numbered from 0
-- without a gap and do not overlap, a delta or a stop names the block that is open, message_delta
-- and message_stop come after the last block, and an error is the last event wherever there is one.
-- The conversion succeeds exactly when message_stop has been written; otherwise the events may end
-- at any place in that order.
pub stream-follows :
    (c : Context) (sequences : List (List Char)) (store : SignatureStore) (counter : ℕ)
    (lines : List String) (scan_error : Option String)
    → (phase : Phase) × (follow_all (run_of c sequences store counter lines scan_error).0.events
        ≡ some phase)
      × (((run_of c sequences store counter lines scan_error).1 ≡ ok tt) ↔ (phase ≡ over))
stream-follows c sequences store counter lines scan_error =
    Closes-phase (Final c (fed_of c sequences lines))
      (run_of c sequences store counter lines scan_error)
      (run-Closes c sequences store counter lines scan_error)

Closes-ok :
    (Good : Converter → Type 0) (r : Converter × Outcome (Unit {0}))
    → Closes Good r
    → r.1 ≡ ok tt
    → Good r.0
Closes-ok Good (s, ok _) (at, h) e = h
Closes-ok Good (s, fail message) h e = absurd (cc)

fed_of-reference :
    (c : Context) (sequences : List (List Char)) (lines : List String)
    → (total (fed_of c sequences lines)
        ≡ (reference same_char sequences [] (texts_of_lines c lines)).0)
      × ((fed_of c sequences lines).matched
          ≡ (reference same_char sequences [] (texts_of_lines c lines)).1)
fed_of-reference c sequences lines =
    rw (← stream-reference same_char same_char_iff sequences (texts_of_lines c lines)) (
      feed_texts-stream (texts_of_lines c lines)
        (record { shown = []; filter = new_text_stop_filter sequences; matched = [] })
        (texts_of_payloads-Spoken c (payloads c lines [])) refl)

Leads-ok :
    (Good : Converter → Type 0) (r : Converter × Outcome (Unit {0}))
    → Leads (λ _. Good) r
    → r.1 ≡ ok tt
    → Good r.0
Leads-ok Good (s, ok _) h e = h
Leads-ok Good (s, fail message) h e = absurd (cc)

-- The stop reason of a converter is that of what is noted.
stop_reason-Noted :
    (c : Context) (v : Option Value) (s : Converter)
    → Noted v s
    → stop_reason c s ≡ (
        if is_empty s.matched_stop
        then map_finish_reason v (has_call s.events)
        else "stop_sequence")
stop_reason-Noted c v s (finish, calls) =
    ap
      (λ x. if is_empty s.matched_stop then map_finish_reason x s.has_tool_use else "stop_sequence")
      finish
    ∙ ap (λ x. if is_empty s.matched_stop then map_finish_reason v x else "stop_sequence") calls

-- If the conversion of a stream succeeds, its text deltas, joined, are what a search of the text of
-- the upstream events for stop sequences leaves, and the sequence that is remembered is the one that
-- the search finds. The stream ends with a message_delta and message_stop: the delta names that
-- sequence with the stop reason stop_sequence, or, where none is found, it names none, with the stop
-- reason that a whole response has for the last finish reason of the upstream events, SAFETY for a
-- blocked prompt, and for whether the stream has a tool call.
pub stream-shows :
    (c : Context) (sequences : List (List Char)) (store : SignatureStore) (counter : ℕ)
    (lines : List String) (scan_error : Option String)
    → (run_of c sequences store counter lines scan_error).1 ≡ ok tt
    → let s = (run_of c sequences store counter lines scan_error).0 in
      let expected = reference same_char sequences [] (texts_of_lines c lines) in
      (shown_text s.events ≡ expected.0)
      × (s.matched_stop ≡ expected.1)
      × ((before : List StreamEvent) × (output : ℕ) × (s.events
            ≡ before
              ++ message_delta
                  (if is_empty expected.1
                    then map_finish_reason (reason_of_lines c lines) (has_call s.events)
                    else "stop_sequence")
                  (if is_empty expected.1 then none else some (of_chars expected.1))
                  output
                ∷ message_stop
                ∷ []))
stream-shows c sequences store counter lines scan_error works =
    let run = run_of c sequences store counter lines scan_error in
    let (t', ended, shown, matched) =
      Closes-ok (Final c (fed_of c sequences lines)) run
        (run-Closes c sequences store counter lines scan_error) works in
    let (same, last) = ended in
    let (before, output, events) = last in
    let (text, found) = fed_of-reference c sequences lines in
    let is_matched = ap (λ (x : Texts). x.matched) same ∙ matched ∙ found in
    let noted =
      Leads-ok (Noted (reason_of_lines c lines)) run
        (stream_gemini-Noted c lines scan_error (new_converter sequences store counter)
          (refl, refl))
        works in
    let reason = stop_reason-Noted c (reason_of_lines c lines) run.0 noted in
    (
      ap (λ (x : Texts). x.shown) same ∙ shown ∙ text,
      is_matched,
      (
        before,
        output,
        events
            ∙ ap (λ x. before ++ message_delta x (stop_sequence c run.0) output ∷ message_stop ∷ [])
                reason
            ∙ ap
                (λ (m : List Char).
                  before
                  ++ message_delta
                      (if is_empty m
                        then map_finish_reason (reason_of_lines c lines) (has_call run.0.events)
                        else "stop_sequence")
                      (if is_empty m then none else some (of_chars m)) output
                    ∷ message_stop
                    ∷ [])
                is_matched,
      ),
    )
