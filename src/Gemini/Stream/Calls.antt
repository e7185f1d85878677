-- ===== src/Gemini/Stream/Calls.antt =====
-- The closures of `streamGeminiAsAnthropic` of pkg/adapter/gemini.go that write events remember
-- whether they wrote a tool call, and leave the finish reason as it is.
use Prim.Native.Char.{Char}
use aadapter.Base.{
  ℕ, String, ◌≡◌, refl, sym, ap, ◌∙◌, inl, inr, Bool, true, false, not, ◌||◌, Bool-cases,
  Option-cases, Option, List, [], ◌∷◌, ◌++◌, if◌then◌else◌, str_eq, of_chars,
}
use aadapter.Base.Maps.{get, put}
use aadapter.Base.Outcome.{Outcome, ok, fail}
use aadapter.Json.{Value, Object, string_or_empty, thought_signature}
use aadapter.StopFilter.{is_empty}
use aadapter.Gemini.Carrier.{tool_signature_key, text_signature_key, signature_carrier_block}
use aadapter.Gemini.Stream.{
  StreamEvent, block_start, text_delta, json_delta, block_stop, Converter, Context, Action,
  continue, write,
}
use aadapter.Gemini.Stream.Emit.{
  start_message, keep_signature, close_text, close_open_text, open_text, write_delta, show_text,
  emit_text, with_names, first_event, text_block, take_text_index, add_current, fed, visible_text,
  tool_id, check_name, take_index, write_carrier, tool_block, write_tool, emit_tool,
}

-- Does an event start a block of a tool call?
abbrev pub is_call : StreamEvent → Bool
is_call (block_start i block) = str_eq (string_or_empty (get "type" block)) "tool_use"
is_call _ = false

abbrev pub has_call : List StreamEvent → Bool
has_call [] = false
has_call (e ∷ es) = is_call e || has_call es

has_call-other :
    (es : List StreamEvent) (e : StreamEvent)
    → is_call e ≡ false
    → has_call (es ++ e ∷ []) ≡ has_call es
has_call-other [] e h = rw h refl
has_call-other (d ∷ es) e h = ap (λ b. is_call d || b) (has_call-other es e h)

or_true : (b : Bool) → (b || true) ≡ true
or_true true = refl
or_true false = refl

has_call-here :
    (es : List StreamEvent) (e : StreamEvent) → is_call e ≡ true → has_call (es ++ e ∷ []) ≡ true
has_call-here [] e h = rw h refl
has_call-here (d ∷ es) e h = rw (has_call-here es e h) (or_true (is_call d))

-- What holds if an action succeeds.
abbrev pub Leads : {A : Type 0} → (A → Converter → Type 0) → Converter × Outcome A → Type 0
Leads Good (s, ok a) = Good a s
Leads Good (s, fail message) = Unit

pub lead_rule :
    {A B : Type 0} (Mid : A → Converter → Type 0) (Good : B → Converter → Type 0)
    (r : Converter × Outcome A) (next : A → Action B)
    → Leads Mid r
    → ((a : A) (s : Converter) → Mid a s → Leads Good (next a s))
    → Leads Good (continue r next)
lead_rule Mid Good (s, ok a) next h k = k a s h
lead_rule Mid Good (s, fail message) next h k = tt

pub check_lead :
    {A : Type 0} (Good : A → Converter → Type 0) (outcome : Outcome A) (s : Converter)
    → ((a : A) → outcome ≡ ok a → Good a s)
    → Leads Good (s, outcome)
check_lead Good (ok a) s good = good a refl
check_lead Good (fail message) s good = tt

pub if_lead :
    {A : Type 0} (Good : A → Converter → Type 0) (b : Bool) (r r' : Converter × Outcome A)
    → Leads Good r
    → Leads Good r'
    → Leads Good (if b then r else r')
if_lead Good true r r' h h' = h
if_lead Good false r r' h h' = h'

-- The finish reason is known, and whether a tool call was written.
abbrev pub Noted : Option Value → Converter → Type 0
Noted v s = (s.latest_finish ≡ v) × (s.has_tool_use ≡ has_call s.events)

-- The same, once the block of a tool call is written.
abbrev Called : Option Value → Converter → Type 0
Called v s = (s.latest_finish ≡ v) × (has_call s.events ≡ true)

module _ (c : Context) (v : Option Value) where
  pub write-Noted :
      (e : StreamEvent) (s : Converter)
      → is_call e ≡ false
      → Noted v s
      → Leads (λ _. Noted v) (write c e s)
  unfolding write
  write-Noted e s other (finish, calls) = elim (Option-cases (c.write_error s.writes)) [
    | inl works ↦ rw (works, write) (finish, calls ∙ sym (has_call-other s.events e other))
    | inr (message, fails) ↦ rw (fails, write) tt
  ]

  write-Called :
      (e : StreamEvent) (s : Converter)
      → s.latest_finish ≡ v
      → has_call (s.events ++ e ∷ []) ≡ true
      → Leads (λ _. Called v) (write c e s)
  unfolding write
  write-Called e s finish there = elim (Option-cases (c.write_error s.writes)) [
    | inl works ↦ rw (works, write) (finish, there)
    | inr (message, fails) ↦ rw (fails, write) tt
  ]

  pub start_message-Noted : (s : Converter) → Noted v s → Leads (λ _. Noted v) (start_message c s)
  unfolding start_message
  start_message-Noted s h =
      if_lead (λ _. Noted v) s.started _ _ h
        (write-Noted (first_event c (with_names c s)) (with_names c s) refl h)

  keep_signature-Noted :
      (key signature : String) (s : Converter)
      → Noted v s
      → Leads (λ _. Noted v) (keep_signature c key signature s)
  unfolding keep_signature
  keep_signature-Noted key signature s h = if_lead (λ _. Noted v) (str_eq signature "") _ _ h h

  close_open_text-Noted : (s : Converter) → Noted v s → Leads (λ _. Noted v) (close_open_text c s)
  unfolding close_open_text
  close_open_text-Noted s h =
      lead_rule (λ _. Noted v) (λ _. Noted v)
        (keep_signature c (text_signature_key c.platform (of_chars s.current_text))
          s.current_signature s)
        _ (keep_signature-Noted _ s.current_signature s h)
        (λ u s1 h1.
          lead_rule (λ _. Noted v) (λ _. Noted v) (write c (block_stop s.text_index) s1) _
            (write-Noted (block_stop s.text_index) s1 refl h1) (λ u s2 h2. h2))

  pub close_text-Noted : (s : Converter) → Noted v s → Leads (λ _. Noted v) (close_text c s)
  unfolding close_text
  close_text-Noted s h = if_lead (λ _. Noted v) s.text_open _ _ (close_open_text-Noted s h) h

  text_block-other :
      (i : ℕ) (signature : String) → is_call (block_start i (text_block c signature)) ≡ false
  unfolding get put string_or_empty
  text_block-other i signature = elim (Bool-cases (str_eq signature "")) [
    | inl unsigned ↦ rw unsigned refl
    | inr signed ↦ rw signed refl
  ]

  open_text-Noted :
      (signature : String) (s : Converter)
      → Noted v s
      → Leads (λ _. Noted v) (open_text c signature s)
  unfolding open_text
  open_text-Noted signature s h =
      if_lead (λ _. Noted v) s.text_open _ _ h
        (lead_rule (λ _. Noted v) (λ _. Noted v)
          (write c (block_start s.next_index (text_block c signature)) (take_text_index c s)) _
          (write-Noted _ (take_text_index c s) (text_block-other s.next_index signature) h)
          (λ u s1 h1. h1))

  show_text-Noted :
      (text : List Char) (signature : String) (s : Converter)
      → Noted v s
      → Leads (λ _. Noted v) (show_text c text signature s)
  unfolding show_text write_delta
  show_text-Noted text signature s h =
      if_lead (λ _. Noted v) (is_empty text) _ _ h
        (lead_rule (λ _. Noted v) (λ _. Noted v) (start_message c s) _ (start_message-Noted s h)
          (λ u s1 h1.
            lead_rule (λ _. Noted v) (λ _. Noted v) (open_text c signature s1) _
              (open_text-Noted signature s1 h1)
              (λ u s2 h2.
                write-Noted (text_delta s2.text_index text) (add_current c text signature s2) refl
                  h2)))

  pub emit_text-Noted :
      (text : List Char) (signature : String) (s : Converter)
      → Noted v s
      → Leads (λ _. Noted v) (emit_text c text signature s)
  unfolding emit_text
  emit_text-Noted text signature s h =
      if_lead (λ _. Noted v) (is_empty text) _ _ h
        (show_text-Noted (visible_text c text s) signature (fed c text s) h)

  tool_id-Noted :
      (call : Object) (s : Converter) → Noted v s → Leads (λ _. Noted v) (tool_id c call s)
  unfolding tool_id
  tool_id-Noted call s h =
      if_lead (λ _. Noted v) (str_eq (string_or_empty (get "id" call)) "") _ _ h h

  write_carrier-Noted :
      (id signature : String) (s : Converter)
      → Noted v s
      → Leads (λ _. Noted v) (write_carrier c id signature s)
  unfolding write_carrier take_index signature_carrier_block get string_or_empty
  write_carrier-Noted id signature s h =
      if_lead (λ _. Noted v) (str_eq signature "") _ _ h
        (lead_rule (λ _. Noted v) (λ _. Noted v) (write c _ _) _ (write-Noted _ _ refl h)
          (λ u s1 h1. write-Noted (block_stop s.next_index) s1 refl h1))

  tool_block-call :
      (i : ℕ) (id name signature : String)
      → is_call (block_start i (tool_block c id name signature)) ≡ true
  unfolding get put string_or_empty
  tool_block-call i id name signature = elim (Bool-cases (str_eq signature "")) [
    | inl unsigned ↦ rw unsigned refl
    | inr signed ↦ rw signed refl
  ]

  write_tool-Noted :
      (id name signature : String) (input : Value) (s : Converter)
      → Noted v s
      → Leads (λ _. Noted v) (write_tool c id name signature input s)
  unfolding write_tool take_index
  write_tool-Noted id name signature input s (finish, calls) =
      let i = s.next_index in
      let block = block_start i (tool_block c id name signature) in
      let arguments = json_delta i (c.platform.marshal input) in
      lead_rule (λ _. Called v) (λ _. Noted v) (write c block _) _
        (write-Called block _ finish
          (has_call-here s.events block (tool_block-call i id name signature)))
        (λ u s1 (finish1, calls1).
          lead_rule (λ _. Called v) (λ _. Noted v) (write c arguments s1) _
            (write-Called arguments s1 finish1 (has_call-other s1.events arguments refl ∙ calls1))
            (λ u s2 (finish2, calls2).
              lead_rule (λ _. Called v) (λ _. Noted v) (write c (block_stop i) s2) _
                (write-Called (block_stop i) s2 finish2
                  (has_call-other s2.events (block_stop i) refl ∙ calls2))
                (λ u s3 (finish3, calls3). (finish3, sym calls3))))

  pub emit_tool-Noted :
      (call part : Object) (s : Converter)
      → Noted v s
      → Leads (λ _. Noted v) (emit_tool c call part s)
  unfolding emit_tool
  emit_tool-Noted call part s h =
      let name = string_or_empty (get "name" call) in
      let signature = thought_signature part in
      if_lead (λ _. Noted v) (not (is_empty s.matched_stop)) _ _ h
        (lead_rule (λ _. Noted v) (λ _. Noted v) (start_message c s) _ (start_message-Noted s h)
          (λ u s1 h1.
            lead_rule (λ _. Noted v) (λ _. Noted v) (close_text c s1) _ (close_text-Noted s1 h1)
              (λ u s2 h2.
                lead_rule (λ _. Noted v) (λ _. Noted v) (tool_id c call s2) _
                  (tool_id-Noted call s2 h2)
                  (λ id s3 h3.
                    lead_rule (λ _. Noted v) (λ _. Noted v) (s3, check_name c name) _
                      (check_lead (λ _. Noted v) (check_name c name) s3 (λ u e. h3))
                      (λ u s4 h4.
                        lead_rule (λ _. Noted v) (λ _. Noted v)
                          (keep_signature c (tool_signature_key id) signature s4) _
                          (keep_signature-Noted (tool_signature_key id) signature s4 h4)
                          (λ u s5 h5.
                            lead_rule (λ _. Noted v) (λ _. Noted v)
                              (write_carrier c id signature s5) _
                              (write_carrier-Noted id signature s5 h5)
                              (λ u s6 h6. write_tool-Noted id name signature _ s6 h6)))))))
