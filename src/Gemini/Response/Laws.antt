-- ===== src/Gemini/Response/Laws.antt =====
-- The stop reason of a response that pkg/adapter/gemini.go converts, and its tool calls.
use aadapter.Base.{◌≡◌, ◌⊎◌, Bool, true, false, List, [], ◌∷◌, str_eq, ◌||◌}
use aadapter.Base.Maps.{get}
use aadapter.Json.{Object, string_or_empty}
use aadapter.Platform.{Platform}
use aadapter.Gemini.Response.{Response, Converting}

-- Is one of the blocks a tool call?
abbrev pub is_tool_use : Object → Bool
is_tool_use block = str_eq (string_or_empty (get "type" block)) "tool_use"

abbrev pub any_tool_use : List Object → Bool
any_tool_use [] = false
any_tool_use (b ∷ bs) = is_tool_use b || any_tool_use bs

abbrev Tracks : Converting → Type 0
Tracks c = c.has_tool_use ≡ any_tool_use c.content

-- What a stop reason says of the content.
abbrev pub Agrees : Response → Type 0
Agrees r =
    ((r.stop_reason ≡ "tool_use") × (any_tool_use r.content ≡ true))
    ⊎ (((r.stop_reason ≡ "end_turn") × (any_tool_use r.content ≡ false))
        ⊎ ((r.stop_reason ≡ "max_tokens") ⊎ (r.stop_reason ≡ "refusal")))
