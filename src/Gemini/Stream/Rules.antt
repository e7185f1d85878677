-- ===== src/Gemini/Stream/Rules.antt =====
-- The rules by which the closures of `streamGeminiAsAnthropic` in pkg/adapter/gemini.go are shown to
-- keep the order of the events, step by step.
use aadapter.Base.{◌≡◌, inl, inr, Bool, true, false, if◌then◌else◌, Option-cases}
use aadapter.Base.Outcome.{Outcome, ok, fail}
use aadapter.Gemini.Stream.{StreamEvent, Converter, Context, Action, continue, ◌>>◌, wrote, write}
use aadapter.Gemini.Stream.Protocol.{Stopped, Ends}

pub bind_rule :
    {A B : Type 0} (Mid : A → Converter → Type 0) (Good : B → Converter → Type 0)
    (r : Converter × Outcome A) (next : A → Action B)
    → Ends Mid r
    → ((a : A) (s : Converter) → Mid a s → Ends Good (next a s))
    → Ends Good (continue r next)
bind_rule Mid Good (s, ok a) next h k = k a s h
bind_rule Mid Good (s, fail message) next h k = h

pub weaken_rule :
    {A : Type 0} (Mid Good : A → Converter → Type 0) (r : Converter × Outcome A)
    → Ends Mid r
    → ((a : A) (s : Converter) → Mid a s → Good a s)
    → Ends Good r
weaken_rule Mid Good (s, ok a) h k = k a s h
weaken_rule Mid Good (s, fail message) h k = h

pub write_rule :
    (c : Context) (e : StreamEvent) (Good : Unit {0} → Converter → Type 0) (s : Converter)
    → Stopped s
    → Good tt (wrote e s)
    → Ends Good (write c e s)
unfolding write
write_rule c e Good s stopped good = elim (Option-cases (c.write_error s.writes)) [
  | inl works ↦ rw (works, write) good
  | inr (message, fails) ↦ rw (fails, write) stopped
]

pub write_then :
    {B : Type 0} (c : Context) (e : StreamEvent) (next : Action B) (Good : B → Converter → Type 0)
    (s : Converter)
    → Stopped s
    → Ends Good (next (wrote e s))
    → Ends Good ((write c e >> next) s)
unfolding write
write_then c e next Good s stopped good = elim (Option-cases (c.write_error s.writes)) [
  | inl works ↦ rw (works, write) good
  | inr (message, fails) ↦ rw (fails, write) stopped
]

pub then_rule :
    {A : Type 0} (Good : A → Converter → Type 0) (b : Bool) (r r' : Converter × Outcome A)
    → b ≡ true
    → Ends Good r
    → Ends Good (if b then r else r')
then_rule Good b r r' holds h = rw holds h

pub else_rule :
    {A : Type 0} (Good : A → Converter → Type 0) (b : Bool) (r r' : Converter × Outcome A)
    → b ≡ false
    → Ends Good r'
    → Ends Good (if b then r else r')
else_rule Good b r r' fails h = rw fails h

-- A test that decides nothing about the state.
pub if_rule :
    {A : Type 0} (Good : A → Converter → Type 0) (b : Bool) (r r' : Converter × Outcome A)
    → Ends Good r
    → Ends Good r'
    → Ends Good (if b then r else r')
if_rule Good true r r' h h' = h
if_rule Good false r r' h h' = h'

pub check_rule :
    {A : Type 0} (Good : A → Converter → Type 0) (outcome : Outcome A) (s : Converter)
    → Stopped s
    → ((a : A) → Good a s)
    → Ends Good (s, outcome)
check_rule Good (ok a) s stopped good = good a
check_rule Good (fail message) s stopped good = stopped
