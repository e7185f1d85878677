-- ===== src/Gemini/Stream/Order.antt =====
-- The closures of `streamGeminiAsAnthropic` of pkg/adapter/gemini.go keep the order of the events,
-- and show of a text what the stop filter lets through.
use Prim.Native.Char.{Char}
use aadapter.Base.{
  ℕ, ◌+◌, String, ◌≡◌, refl, ap, inl, inr, true, Bool-cases, some, List, [], ◌∷◌, if◌then◌else◌,
  arith, same_char, str_eq,
}
use mathlib.Core.List.{append-nil}
use aadapter.Json.{Object}
use aadapter.StopFilter.{feed, is_empty}
use aadapter.Gemini.Stream.{
  block_start, block_stop, text_delta, Converter, Context, ◌>>◌, modify, write,
}
use aadapter.Gemini.Stream.Emit.{
  start_message, keep_signature, close_text, close_open_text, open_text, write_delta, show_text,
  emit_text, with_names, first_event, text_closed, text_block, take_text_index, add_current, fed,
}
use aadapter.Gemini.Stream.Protocol.{
  fresh, idle, within, follow, Texts, texts_of, show, Idle, Open, Running, Live, Ends, At-wrote,
  texts_of-wrote, texts_of-silent,
}
use aadapter.Gemini.Stream.Rules.{bind_rule, then_rule, else_rule, write_rule, write_then}

abbrev visible : List Char → Texts → List Char
visible text t = (feed same_char t.filter text).1

abbrev filtered : List Char → Texts → Texts
filtered text t =
    let (f', shown, matched) = feed same_char t.filter text in
    record t { filter = f'; matched = if is_empty matched then t.matched else matched }

-- The texts after one more is fed to the filter.
abbrev pub feed_text : List Char → Texts → Texts
feed_text [] t = t
feed_text (ch ∷ rest) t = show (visible (ch ∷ rest) t) (filtered (ch ∷ rest) t)

pub follow_stop : (n : ℕ) → follow (within n) (block_stop n) ≡ some (idle (n + 1))
follow_stop n = ground arith

pub follow_start :
    (n : ℕ) (block : Object) → follow (idle n) (block_start n block) ≡ some (within n)
follow_start n block = ground arith

follow_text : (n : ℕ) (text : List Char) → follow (within n) (text_delta n text) ≡ some (within n)
follow_text n text = ground arith

pub Live-texts_of : (t : Texts) (s : Converter) → Live t s → texts_of s ≡ t
Live-texts_of t s (inl (_, _, _, _, texts)) = texts
Live-texts_of t s (inr (inl (_, _, _, texts))) = texts
Live-texts_of t s (inr (inr (_, _, _, _, texts))) = texts

module _ (c : Context) where
  pub start_message-Running :
      (t : Texts) (s : Converter) → Live t s → Ends (λ _. Running t) (start_message c s)
  unfolding start_message
  start_message-Running t s (inl (new, closed, zeroth, at, texts)) =
      else_rule (λ _. Running t) s.started _ _ new
        (write_rule c (first_event c (with_names c s)) (λ _. Running t) (with_names c s)
          (fresh, refl, at)
          (inl (
            refl,
            closed,
            rw zeroth (At-wrote _ fresh (idle 0) (with_names c s) at refl),
            texts_of-silent _ t (with_names c s) refl texts,
          )))
  start_message-Running t s (inr (inl idle_now)) =
      then_rule (λ _. Running t) s.started _ _ idle_now.0 (inl idle_now)
  start_message-Running t s (inr (inr open_now)) =
      then_rule (λ _. Running t) s.started _ _ open_now.0 (inr open_now)

  stop-Idle :
      (t : Texts) (s : Converter)
      → Open t s
      → Ends (λ _. Idle t) ((write c (block_stop s.text_index) >> modify (text_closed c)) s)
  stop-Idle t s (started, opened, next, at, texts) =
      write_then c (block_stop s.text_index) (modify (text_closed c)) (λ _. Idle t) s
        (within s.text_index, refl, at)
        (
          started,
          refl,
          rw next (At-wrote _ (within s.text_index) _ s at (follow_stop s.text_index)),
          texts_of-silent _ t s refl texts,
        )

  close_open_text-Idle :
      (t : Texts) (s : Converter) → Open t s → Ends (λ _. Idle t) (close_open_text c s)
  unfolding close_open_text keep_signature
  close_open_text-Idle t s h = elim (Bool-cases (str_eq s.current_signature "")) [
    | inl nothing ↦ simp (nothing, close_open_text, keep_signature) (stop-Idle t s h)
    | inr given ↦ simp (given, close_open_text, keep_signature) (stop-Idle t _ h)
  ]

  pub close_text-Idle :
      (t : Texts) (s : Converter) → Running t s → Ends (λ _. Idle t) (close_text c s)
  unfolding close_text
  close_text-Idle t s (inl idle_now) = else_rule (λ _. Idle t) s.text_open _ _ idle_now.1 idle_now
  close_text-Idle t s (inr open_now) =
      then_rule (λ _. Idle t) s.text_open _ _ open_now.1 (close_open_text-Idle t s open_now)

  open_text-Open :
      (t : Texts) (signature : String) (s : Converter)
      → Running t s
      → Ends (λ _. Open t) (open_text c signature s)
  unfolding open_text
  open_text-Open t signature s (inr open_now) =
      then_rule (λ _. Open t) s.text_open _ _ open_now.1 open_now
  open_text-Open t signature s (inl (started, closed, at, texts)) =
      else_rule (λ _. Open t) s.text_open _ _ closed
        (write_then c (block_start s.next_index (text_block c signature))
          (modify (λ s'. record s' { text_open = true })) (λ _. Open t) (take_text_index c s)
          (idle s.next_index, refl, at)
          (
            started,
            refl,
            refl,
            At-wrote _ (idle s.next_index) _ (take_text_index c s) at
                (follow_start s.next_index (text_block c signature)),
            texts_of-silent _ t (take_text_index c s) refl texts,
          ))

  write_delta-Live :
      (t : Texts) (text : List Char) (s : Converter)
      → Open t s
      → Ends (λ _. Live (show text t)) (write_delta c text s)
  unfolding write_delta
  write_delta-Live t text s (started, opened, next, at, texts) =
      write_rule c (text_delta s.text_index text) (λ _. Live (show text t)) s
        (within s.text_index, refl, at)
        (inr (
          inr (
            started,
            opened,
            next,
            At-wrote _ (within s.text_index) _ s at (follow_text s.text_index text),
            texts_of-wrote _ t s texts,
          )))

  pub show_text-Live :
      (t : Texts) (text : List Char) (signature : String) (s : Converter)
      → Live t s
      → Ends (λ _. Live (show text t)) (show_text c text signature s)
  unfolding show_text
  show_text-Live t [] signature s live = rw (append-nil t.shown) live
  show_text-Live t (ch ∷ rest) signature s live =
      let Good = (λ (u : Unit {0}). Live (show (ch ∷ rest) t)) in
      bind_rule (λ _. Running t) Good (start_message c s) _ (start_message-Running t s live)
        (λ u s' running.
          bind_rule (λ _. Open t) Good (open_text c signature s') _
            (open_text-Open t signature s' running)
            (λ u' s'' opened.
              write_delta-Live t (ch ∷ rest) (add_current c (ch ∷ rest) signature s'') opened))

  Live-fed :
      (t : Texts) (text : List Char) (s : Converter)
      → Live t s
      → Live (filtered text t) (fed c text s)
  Live-fed t text s (inl (new, closed, zeroth, at, texts)) =
      inl (new, closed, zeroth, at, ap (filtered text) texts)
  Live-fed t text s (inr (inl (started, closed, at, texts))) =
      inr (inl (started, closed, at, ap (filtered text) texts))
  Live-fed t text s (inr (inr (started, opened, next, at, texts))) =
      inr (inr (started, opened, next, at, ap (filtered text) texts))

  pub emit_text-Live :
      (t : Texts) (text : List Char) (signature : String) (s : Converter)
      → Live t s
      → Ends (λ _. Live (feed_text text t)) (emit_text c text signature s)
  unfolding emit_text
  emit_text-Live t [] signature s live = live
  emit_text-Live t (ch ∷ rest) signature s live =
      let text = ch ∷ rest in
      rw (← ap (visible text) (Live-texts_of t s live))
        (show_text-Live (filtered text t) _ signature (fed c text s) (Live-fed t text s live))
