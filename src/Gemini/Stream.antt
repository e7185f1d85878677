-- ===== src/Gemini/Stream.antt =====
-- pkg/adapter/gemini.go: the state of `streamGeminiAsAnthropic`, the events that it writes, and how
-- it writes one. A text is a list of characters; the bytes written and the debug capture of them
-- are left out.
pub mod Emit
pub mod Process
pub mod Lines
pub mod Protocol
pub mod Rules
pub mod Order
pub mod Blocks
pub mod Finish
pub mod Ending
pub mod Filtered
pub mod Calls
pub mod Reasons
mod Result
pub mod Runs
pub mod Texts
mod Tests
use Prim.Native.Char.{Char}
use aadapter.Base.{
  ℕ, ◌+◌, String, ◌++ₛ◌, Bool, true, false, Option, none, some, List, [], ◌∷◌, ◌++◌, of_chars,
}
use aadapter.Base.Maps.{Map}
use aadapter.Base.Outcome.{Outcome, ok, fail}
use aadapter.Json.{Float, Value, null, num, str, Object, object, array}
use aadapter.Platform.{Platform}
use aadapter.Signatures.{SignatureStore}
use aadapter.StopFilter.{TextStopFilter, new_text_stop_filter}
use aadapter.Gemini.Response.{Usage, number, string_or_null, usage_fields}

-- The events by their payloads; the blocks of a tool and of a carrier are told apart by theirs.
pub data StreamEvent : Type 0 where
  message_start : String → String → Usage → StreamEvent
  block_start : ℕ → Object → StreamEvent
  text_delta : ℕ → List Char → StreamEvent
  json_delta : ℕ → String → StreamEvent
  block_stop : ℕ → StreamEvent
  message_delta : String → Option String → ℕ → StreamEvent
  message_stop : StreamEvent
  error_event : String → StreamEvent

-- The variables of the function that its closures share, with the signature store, the counter of
-- the ids that are made up, how often the store read the clock, and how many writes there were.
pub record Converter : Type 0 where
  pub started : Bool
  pub message_id : String
  pub model : String
  pub next_index : ℕ
  pub text_open : Bool
  pub text_index : ℕ
  pub current_text : List Char
  pub current_signature : String
  pub latest_usage : Option Value
  pub latest_finish : Option Value
  pub has_tool_use : Bool
  pub filter : TextStopFilter Char
  pub matched_stop : List Char
  pub emitted : Map ℕ
  pub store : SignatureStore
  pub counter : ℕ
  pub reads : ℕ
  pub writes : ℕ
  pub events : List StreamEvent

-- The arguments of the function, and what it calls: the clocks of the ids and of the store,
-- `strings.TrimSpace`, and the error of the n-th write to the client, if it fails.
pub record Context : Type 0 where
  pub platform : Platform
  pub decimal : ℕ → String
  pub clock : ℕ → ℕ
  pub store_clock : ℕ → ℕ
  pub out_of_range : Float → ℕ
  pub trim_space : String → String
  pub write_error : ℕ → Option String
  pub session_id : String
  pub fallback_model : String
  pub max_event_bytes : ℕ

abbrev pub new_converter : List (List Char) → SignatureStore → ℕ → Converter
new_converter sequences store counter = record {
  started = false;
  message_id = "";
  model = "";
  next_index = 0;
  text_open = false;
  text_index = 0;
  current_text = [];
  current_signature = "";
  latest_usage = none;
  latest_finish = none;
  has_tool_use = false;
  filter = new_text_stop_filter sequences;
  matched_stop = [];
  emitted = [];
  store = store;
  counter = counter;
  reads = 0;
  writes = 0;
  events = [];
}

-- A closure of the function: what it changes stays changed if it fails.
abbrev pub Action : Type 0 → Type 0
Action A = Converter → Converter × Outcome A

abbrev pub continue :
    {A B : Type 0} → Converter × Outcome A → (A → Action B) → Converter × Outcome B
continue (s, fail message) next = (s, fail message)
continue (s, ok value) next = next value s

infixl 5 ◌>>=◌
abbrev pub ◌>>=◌ : {A B : Type 0} → Action A → (A → Action B) → Action B
◌>>=◌ first next s = continue (first s) next

infixl 5 ◌>>◌
abbrev pub ◌>>◌ : {B : Type 0} → Action (Unit {0}) → Action B → Action B
first >> next = first >>= λ _. next

abbrev pub done : Action (Unit {0})
done s = (s, ok tt)

abbrev pub modify : (Converter → Converter) → Action (Unit {0})
modify change s = (change s, ok tt)

abbrev pub check : {A : Type 0} → Outcome A → Action A
check outcome s = (s, outcome)

abbrev pub wrote : StreamEvent → Converter → Converter
wrote e s = record s { events = s.events ++ e ∷ []; writes = s.writes + 1 }

-- `writeEvent`
unfoldable pub write : Context → StreamEvent → Action (Unit {0})
write c e s = elim (c.write_error s.writes) [
  | none ↦ (wrote e s, ok tt)
  | some message ↦ (record s { writes = s.writes + 1 }, fail message)
]

unfoldable pub event_name : StreamEvent → String
event_name (message_start id model usage) = "message_start"
event_name (block_start index block) = "content_block_start"
event_name (text_delta index text) = "content_block_delta"
event_name (json_delta index partial) = "content_block_delta"
event_name (block_stop index) = "content_block_stop"
event_name (message_delta reason stop output) = "message_delta"
event_name message_stop = "message_stop"
event_name (error_event message) = "error"

-- The payload but for its `type`, which is the name of the event.
unfoldable pub payload_fields : StreamEvent → Object
payload_fields (message_start id model usage) =
    (
      "message",
      object (
          ("id", str id)
          ∷ ("type", str "message")
          ∷ ("role", str "assistant")
          ∷ ("content", array [])
          ∷ ("model", str model)
          ∷ ("stop_reason", null)
          ∷ ("stop_sequence", null)
          ∷ ("usage", object (usage_fields usage))
          ∷ []),
    )
    ∷ []
payload_fields (block_start index block) =
    ("index", number index) ∷ ("content_block", object block) ∷ []
payload_fields (text_delta index text) =
    ("index", number index)
    ∷ ("delta", object (("type", str "text_delta") ∷ ("text", str (of_chars text)) ∷ []))
    ∷ []
payload_fields (json_delta index partial) =
    ("index", number index)
    ∷ ("delta", object (("type", str "input_json_delta") ∷ ("partial_json", str partial) ∷ []))
    ∷ []
payload_fields (block_stop index) = ("index", number index) ∷ []
payload_fields (message_delta reason stop output) =
    ("delta", object (("stop_reason", str reason) ∷ ("stop_sequence", string_or_null stop) ∷ []))
    ∷ ("usage", object (("output_tokens", number output) ∷ []))
    ∷ []
payload_fields message_stop = []
payload_fields (error_event message) =
    ("error", object (("type", str "api_error") ∷ ("message", str message) ∷ [])) ∷ []

-- The bytes of an event on the wire.
unfoldable pub event_chunk : Platform → StreamEvent → String
event_chunk p e =
    "event: "
    ++ₛ (event_name e
        ++ₛ ("\ndata: "
            ++ₛ (p.marshal (object (("type", str (event_name e)) ∷ payload_fields e)) ++ₛ "\n\n")))
