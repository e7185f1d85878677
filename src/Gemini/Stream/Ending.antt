-- ===== src/Gemini/Stream/Ending.antt =====
-- How a run of `streamGeminiAsAnthropic` of pkg/adapter/gemini.go ends.
use mathlib.Core.List.{append_assoc}
use mathlib.Core.Path.{subst}
use aadapter.Base.{
  ℕ, ◌+◌, true, false, String, ◌≡◌, refl, sym, inl, inr, Option-cases, some, List, [], ◌∷◌, ◌++◌,
}
use aadapter.Base.Outcome.{Outcome, ok, fail}
use aadapter.Gemini.Response.{build_usage}
use aadapter.Gemini.Stream.{
  StreamEvent, message_delta, message_stop, error_event, Converter, Context, Action, continue,
  wrote, write,
}
use aadapter.Gemini.Stream.Emit.{start_message, close_text}
use aadapter.Gemini.Stream.Lines.{
  emit_held, stop_reason, stop_sequence, write_end, finish_stream, end_stream,
}
use aadapter.Gemini.Stream.Protocol.{
  Phase, fresh, idle, within, closing, over, broken, is_open, is_over, follow, Texts, texts_of, At,
  Idle, Running, Live, Stopped, Ends, At-wrote, texts_of-silent,
}
use aadapter.Gemini.Stream.Order.{Live-texts_of, start_message-Running, close_text-Idle}
use aadapter.Gemini.Stream.Finish.{tail, Told, emit_held-Told}

-- In order, and not at the end of a message.
abbrev Unfinished : Converter → Type 0
Unfinished s = (phase : Phase) × At phase s × (is_over phase ≡ false)

abbrev pub Closes : (Converter → Type 0) → Converter × Outcome (Unit {0}) → Type 0
Closes Good (s, ok _) = At over s × Good s
Closes Good (s, fail message) = Unfinished s

open_not_over : (phase : Phase) → is_open phase ≡ true → is_over phase ≡ false
open_not_over fresh h = refl
open_not_over (idle n) h = refl
open_not_over (within n) h = refl
open_not_over closing h = refl
open_not_over broken h = refl
open_not_over over h = absurd (cc)

follow_error :
    (phase : Phase) (message : String)
    → is_open phase ≡ true
    → follow phase (error_event message) ≡ some broken
follow_error fresh message h = refl
follow_error (idle n) message h = refl
follow_error (within n) message h = refl
follow_error closing message h = absurd (cc)
follow_error broken message h = absurd (cc)
follow_error over message h = absurd (cc)

close_rule :
    {A : Type 0} (Mid : A → Converter → Type 0) (Good : Converter → Type 0)
    (r : Converter × Outcome A) (next : A → Action (Unit {0}))
    → Ends Mid r
    → ((a : A) (s : Converter) → Mid a s → Closes Good (next a s))
    → Closes Good (continue r next)
close_rule Mid Good (s, ok a) next h k = k a s h
close_rule Mid Good (s, fail message) next (phase, opened, at) k =
    (phase, at, open_not_over phase opened)

Closes-weaken :
    (Mid Good : Converter → Type 0) (r : Converter × Outcome (Unit {0}))
    → Closes Mid r
    → ((s : Converter) → Mid s → Good s)
    → Closes Good r
Closes-weaken Mid Good (s, ok _) (at, h) k = (at, k s h)
Closes-weaken Mid Good (s, fail message) h k = h

-- The message ends with what became of the stop sequences.
abbrev pub Ended : Context → Texts → Converter → Type 0
Ended c t s =
    (texts_of s ≡ t)
    × ((before : List StreamEvent) × (output : ℕ) × (s.events
          ≡ before
            ++ message_delta (stop_reason c s) (stop_sequence c s) output ∷ message_stop ∷ []))

-- An error may be reported, but not by a write that fails.
write_error-Unfinished :
    (c : Context) (message : String) (s : Converter)
    → Stopped s
    → Unfinished (write c (error_event message) s).0
unfolding write
write_error-Unfinished c message s (phase, opened, at) =
    elim (Option-cases (c.write_error s.writes)) [
      | inr (failure, fails) ↦ rw (fails, write) (phase, at, open_not_over phase opened)
      | inl works ↦
          rw (works, write)
            (
              broken,
              At-wrote (error_event message) phase broken s at (follow_error phase message opened),
              refl,
            )
    ]

module _ (c : Context) where
  write_end-Ended : (t : Texts) (s : Converter) → Idle t s → Closes (Ended c t) (write_end c s)
  unfolding write_end write
  write_end-Ended t s (started, closed, at, texts) =
      let output = (build_usage c.out_of_range s.latest_usage).output_tokens in
      let e = message_delta (stop_reason c s) (stop_sequence c s) output in
      let told = At-wrote e (idle s.next_index) closing s at refl in
      elim (Option-cases (c.write_error s.writes)) [
        | inr (message, fails) ↦ rw (fails, write_end, write) (idle s.next_index, at, refl)
        | inl works ↦ elim (Option-cases (c.write_error (s.writes + 1))) [
          | inr (message, fails) ↦ rw (works, fails, write_end, write) (closing, told, refl)
          | inl works' ↦
              rw (works, works', write_end, write)
                (
                  At-wrote message_stop closing over (wrote e s) told refl,
                  (
                    texts_of-silent message_stop t (wrote e s) refl
                        (texts_of-silent e t s refl texts),
                    (s.events, output, append_assoc s.events (e ∷ []) (message_stop ∷ [])),
                  ),
                )
        ]
      ]

  -- The texts of the message at its end.
  abbrev pub Final : Texts → Converter → Type 0
  Final t s =
      (t' : Texts) × Ended c t' s × (t'.shown ≡ t.shown ++ tail t) × (t'.matched ≡ t.matched)

  finish_stream-Final :
      (s : Converter) → Live (texts_of s) s → Closes (Final (texts_of s)) (finish_stream c s)
  unfolding finish_stream
  finish_stream-Final s live =
      let Good = Final (texts_of s) in
      close_rule (λ _. Told (texts_of s)) Good (emit_held c s) _ (emit_held-Told c s live)
        (λ u s1 (t', live1, shown, matched).
          close_rule (λ _. Running t') Good (start_message c s1) _
            (start_message-Running c t' s1 live1)
            (λ u s2 running.
              close_rule (λ _. Idle t') Good (close_text c s2) _ (close_text-Idle c t' s2 running)
                (λ u s3 idle_now.
                  Closes-weaken (Ended c t') Good (write_end c s3) (write_end-Ended t' s3 idle_now)
                    (λ s4 ended. (t', ended, shown, matched)))))

  pub end_stream-Final :
      (t : Texts) (r : Converter × Outcome (Unit {0}))
      → Ends (λ _. Live t) r
      → Closes (Final t) (end_stream c r)
  unfolding end_stream
  end_stream-Final t (s, fail message) stopped = write_error-Unfinished c message s stopped
  end_stream-Final t (s, ok _) live =
      subst (λ (x : Texts). Closes (Final x) (finish_stream c s)) (Live-texts_of t s live)
        (finish_stream-Final s
          (subst (λ (x : Texts). Live x s) (sym (Live-texts_of t s live)) live))
