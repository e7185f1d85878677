-- ===== src/Gemini/Stream/Protocol.antt =====
-- The order of the events that `streamGeminiAsAnthropic` of pkg/adapter/gemini.go writes, as an
-- automaton that reads them, and the rules by which its closures are shown to keep it.
use Prim.Native.Char.{Char}
use aadapter.Base.{
  ℕ, ◌+◌, ◌≡◌, refl, ap, sym, ◌∙◌, ◌⊎◌, inl, inr, Bool, true, false, Option, none, some, List, [],
  ◌∷◌, ◌++◌, ◌==◌, if◌then◌else◌,
}
use mathlib.Core.List.{append-nil, append_assoc}
use aadapter.Base.Outcome.{Outcome, ok, fail}
use aadapter.StopFilter.{TextStopFilter}
use aadapter.Gemini.Stream.{
  StreamEvent, message_start, block_start, text_delta, json_delta, block_stop, message_delta,
  message_stop, error_event, Converter, wrote,
}

-- Before the message, between blocks with the index of the next, within a block, after the last
-- block, after the message, after an error.
pub data Phase : Type 0 where
  fresh : Phase
  idle : ℕ → Phase
  within : ℕ → Phase
  closing : Phase
  over : Phase
  broken : Phase

-- The phase after an event, if it may stand there: a block starts with the next index, and what
-- is about a block names the one that is open.
abbrev pub follow : Phase → StreamEvent → Option Phase
follow fresh (message_start id model usage) = some (idle 0)
follow (idle n) (block_start i block) = if i == n then some (within n) else none
follow (within n) (text_delta i text) = if i == n then some (within n) else none
follow (within n) (json_delta i partial) = if i == n then some (within n) else none
follow (within n) (block_stop i) = if i == n then some (idle (n + 1)) else none
follow (idle n) (message_delta reason stop output) = some closing
follow closing message_stop = some over
follow fresh (error_event message) = some broken
follow (idle n) (error_event message) = some broken
follow (within n) (error_event message) = some broken
follow _ _ = none

abbrev pub follow_next : Option Phase → StreamEvent → Option Phase
follow_next none e = none
follow_next (some phase) e = follow phase e

abbrev pub follow_from : Option Phase → List StreamEvent → Option Phase
follow_from phase [] = phase
follow_from phase (e ∷ es) = follow_from (follow_next phase e) es

-- The phase that a list of events leads to from the start, if it keeps the order.
abbrev pub follow_all : List StreamEvent → Option Phase
follow_all es = follow_from (some fresh) es

-- May an error still be reported?
abbrev pub is_open : Phase → Bool
is_open fresh = true
is_open (idle n) = true
is_open (within n) = true
is_open _ = false

abbrev pub is_over : Phase → Bool
is_over over = true
is_over _ = false

follow_from-snoc :
    (phase : Option Phase) (es : List StreamEvent) (e : StreamEvent)
    → follow_from phase (es ++ e ∷ []) ≡ follow_next (follow_from phase es) e
follow_from-snoc phase [] e = refl
follow_from-snoc phase (d ∷ es) e = follow_from-snoc (follow_next phase d) es e

-- The text of the deltas.
abbrev pub shown_by : StreamEvent → List Char
shown_by (text_delta i text) = text
shown_by _ = []

abbrev pub shown_text : List StreamEvent → List Char
shown_text [] = []
shown_text (e ∷ es) = shown_by e ++ shown_text es

shown_text-snoc :
    (es : List StreamEvent) (e : StreamEvent)
    → shown_text (es ++ e ∷ []) ≡ shown_text es ++ shown_by e
shown_text-snoc [] e = append-nil (shown_by e)
shown_text-snoc (d ∷ es) e =
    rw (shown_text-snoc es e) (sym (append_assoc (shown_by d) (shown_text es) (shown_by e)))

-- What became of the texts so far.
pub record Texts : Type 0 where
  pub shown : List Char
  pub filter : TextStopFilter Char
  pub matched : List Char

abbrev pub texts_of : Converter → Texts
texts_of s = record { shown = shown_text s.events; filter = s.filter; matched = s.matched_stop }

abbrev pub show : List Char → Texts → Texts
show text t = record t { shown = t.shown ++ text }

abbrev pub At : Phase → Converter → Type 0
At phase s = follow_all s.events ≡ some phase

abbrev pub Fresh : Texts → Converter → Type 0
Fresh t s =
    (s.started ≡ false) × (s.text_open ≡ false) × (s.next_index ≡ 0) × At fresh s × (texts_of s ≡ t)

abbrev pub Idle : Texts → Converter → Type 0
Idle t s = (s.started ≡ true) × (s.text_open ≡ false) × At (idle s.next_index) s × (texts_of s ≡ t)

abbrev pub Open : Texts → Converter → Type 0
Open t s =
    (s.started ≡ true)
    × (s.text_open ≡ true)
    × (s.next_index ≡ s.text_index + 1)
    × At (within s.text_index) s
    × (texts_of s ≡ t)

abbrev pub Running : Texts → Converter → Type 0
Running t s = Idle t s ⊎ Open t s

abbrev pub Live : Texts → Converter → Type 0
Live t s = Fresh t s ⊎ Running t s

-- A failure leaves events in order, behind which an error may stand.
abbrev pub Stopped : Converter → Type 0
Stopped s = (phase : Phase) × (is_open phase ≡ true) × At phase s

pub Live-Stopped : (t : Texts) (s : Converter) → Live t s → Stopped s
Live-Stopped t s (inl (_, _, _, at, _)) = (fresh, refl, at)
Live-Stopped t s (inr (inl (_, _, at, _))) = (idle s.next_index, refl, at)
Live-Stopped t s (inr (inr (_, _, _, at, _))) = (within s.text_index, refl, at)

-- How a call ends.
abbrev pub Ends : {A : Type 0} → (A → Converter → Type 0) → Converter × Outcome A → Type 0
Ends Good (s, ok a) = Good a s
Ends Good (s, fail message) = Stopped s

-- The phase and the texts after a write.
pub At-wrote :
    (e : StreamEvent) (phase phase' : Phase) (s : Converter)
    → At phase s
    → follow phase e ≡ some phase'
    → At phase' (wrote e s)
At-wrote e phase phase' s at next =
    follow_from-snoc (some fresh) s.events e ∙ ap (λ x. follow_next x e) at ∙ next

pub texts_of-wrote :
    (e : StreamEvent) (t : Texts) (s : Converter)
    → texts_of s ≡ t
    → texts_of (wrote e s) ≡ show (shown_by e) t
texts_of-wrote e t s h =
    rw (← h) (ap (λ x. record (texts_of s) { shown = x }) (shown_text-snoc s.events e))

pub texts_of-silent :
    (e : StreamEvent) (t : Texts) (s : Converter)
    → shown_by e ≡ []
    → texts_of s ≡ t
    → texts_of (wrote e s) ≡ t
texts_of-silent e t s silent h =
    texts_of-wrote e t s h
    ∙ ap (λ x. record t { shown = x }) (ap (λ x. t.shown ++ x) silent ∙ append-nil t.shown)
