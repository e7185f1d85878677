-- ===== src/Gemini/Request.antt =====
-- pkg/adapter/gemini.go: `collectAnthropicTexts`, `buildGeminiSystemInstruction` and
-- `anthropicMessagesToGeminiForModel`, which puts the parts of a request together.
pub mod System
pub mod Laws
mod Tests
use aadapter.Base.{
  ℕ, String, ◌++ₛ◌, Bool, not, ◌&&◌, ◌||◌, Option, none, some, List, [], ◌∷◌, ◌++◌, length, ◌==◌,
  if◌then◌else◌, str_eq,
}
use aadapter.Base.Maps.{Map, get, put}
use aadapter.Base.Outcome.{Outcome, ok, fail, ◌>>=◌, ◌>>◌}
use aadapter.Json.{
  Value, str, arr, Object, object, array, objects, as_object, as_array, or_none, string_or_empty,
  list_of,
}
use aadapter.Platform.{Platform}
use aadapter.Gemini.Options.{validate_top_level_fields, build_generation_config}
use aadapter.Gemini.Tools.{build_tools, build_tool_config}
use aadapter.Gemini.Media.{join}
use aadapter.Gemini.Contents.{Content, build_contents}

unfoldable pub collect_block : String → Object → Outcome (List String)
collect_block field block =
    let block_type = string_or_empty (get "type" block) in
    let text = string_or_empty (get "text" block) in
    if not (str_eq block_type "") && not (str_eq block_type "text")
    then fail (field ++ₛ " only supports text blocks for Gemini systemInstruction")
    else ok (if str_eq text "" then [] else text ∷ [])

unfoldable pub collect_blocks : String → List Value → Outcome (List String)
collect_blocks field [] = ok []
collect_blocks field (raw ∷ rest) = elim (as_object (some raw)) [
  | none ↦ fail (field ++ₛ " content blocks must be objects")
  | some block ↦ do
    texts ← collect_block field block
    more ← collect_blocks field rest
    ok (texts ++ more)
]

unfoldable pub collect_texts : Option Value → String → Outcome (List String)
collect_texts (some (str v)) field = ok (if str_eq v "" then [] else v ∷ [])
collect_texts (some (arr vs)) field = collect_blocks field (list_of vs)
collect_texts _ field = fail (field ++ₛ " must be a string or text block array")

unfoldable pub collect_message : Object → Outcome (List String)
collect_message message =
    if str_eq (string_or_empty (get "role" message)) "system"
    then collect_texts (get "content" message) "system message"
    else ok []

unfoldable pub collect_messages : List Value → Outcome (List String)
collect_messages [] = ok []
collect_messages (raw ∷ rest) = elim (as_object (some raw)) [
  | none ↦ fail "messages entries must be objects"
  | some message ↦ do
    texts ← collect_message message
    more ← collect_messages rest
    ok (texts ++ more)
]

unfoldable pub collect_system : Option Value → Outcome (List String)
collect_system none = ok []
collect_system (some system) = collect_texts (some system) "system"

unfoldable pub build_system_instruction : Object → Outcome (Option Object)
build_system_instruction src = do
  texts ← collect_system (get "system" src)
  more ← collect_messages (or_none (as_array (get "messages" src)))
  let all = texts ++ more
  ok (
      if length all == 0
      then none
      else some (("parts", array (object (("text", str (join "\n\n" all)) ∷ []) ∷ [])) ∷ []))

abbrev pub contents_of : List Content → List Value
contents_of [] = []
contents_of (c ∷ cs) =
    object (("role", str c.role) ∷ ("parts", array (objects c.parts)) ∷ []) ∷ contents_of cs

abbrev pub last_role : List Content → String
last_role [] = ""
last_role (c ∷ []) = c.role
last_role (c ∷ d ∷ cs) = last_role (d ∷ cs)

-- The two checks on the contents.
unfoldable pub check_contents : String → List Content → Outcome (Unit {0})
check_contents model contents =
    if length contents == 0
    then fail "messages must produce at least one Gemini content item"
    else if str_eq model "gemini-3.6-flash" && str_eq (last_role contents) "model"
    then fail "gemini-3.6-flash does not support an assistant/model message as the final input turn"
    else ok tt

-- `dst[key] = value` if there is a value.
abbrev pub put_some : String → Option Value → Object → Object
put_some key none dst = dst
put_some key (some value) dst = put key value dst

abbrev pub as_value : Option Object → Option Value
as_value none = none
as_value (some m) = some (object m)

module _ (p : Platform) where
  unfoldable pub convert_request : Object → Map String → String → Outcome Object
  convert_request src signatures model = do
    validate_top_level_fields src
    system ← build_system_instruction src
    contents ← build_contents p src signatures
    check_contents model contents
    config ← build_generation_config p.to_lower src model
    tools ← build_tools p.quote src
    tool_config ← build_tool_config p.quote src
    let with_system = put_some "systemInstruction" (as_value system) []
    let with_contents = put "contents" (array (contents_of contents)) with_system
    let with_config = put_some "generationConfig" (as_value config) with_contents
    let with_tools = put_some "tools" tools with_config
    ok (put_some "toolConfig" tool_config with_tools)

  unfoldable pub messages_to_gemini : String → Map String → String → Outcome String
  messages_to_gemini body signatures model = do
    src ← p.unmarshal_object body
    dst ← convert_request src signatures model
    ok (p.marshal (object dst))
