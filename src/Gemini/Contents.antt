-- ===== src/Gemini/Contents.antt =====
-- pkg/adapter/gemini.go: `convertAnthropicContentToGeminiParts` and `buildGeminiContents`.
pub mod Laws
mod Tests
use aadapter.Base.{
  ℕ, String, ◌++ₛ◌, Bool, true, false, not, ◌&&◌, ◌||◌, Option, none, some, List, [], ◌∷◌, ◌++◌,
  length, ◌==◌, if◌then◌else◌, str_eq,
}
use aadapter.Base.Maps
use aadapter.Base.Maps.{Map, get, put}
use aadapter.Base.Outcome.{Outcome, ok, fail, ◌>>=◌, ◌>>◌}
use aadapter.Json.{
  Value, null, bool, num, str, arr, obj, Object, object, array, as_string, as_object, as_array,
  or_empty, or_none, string_or_empty, object_map_or_empty, objects, thought_signature, list_of,
}
use aadapter.Platform.{Platform}
use aadapter.Gemini.Carrier.{
  synthesized_tool_id_prefix, tool_signature_key, text_signature_key, cut_prefix,
  decode_signature_carrier,
}
use aadapter.Gemini.Media.{media_block_to_part, normalize_tool_result}
use aadapter.Gemini.Fold.{fold_supplements}

-- `map[string]interface{}{"role": …, "parts": …}`, as `buildGeminiContents` makes and changes it.
pub record Content : Type 0 where
  pub role : String
  pub parts : List Object

abbrev pub is_synthesized : String → Bool
is_synthesized id = elim (cut_prefix id synthesized_tool_id_prefix) [ some _ ↦ true | none ↦ false ]

-- A part with the thought signature that was found for it, if one was.
abbrev pub signed : String → Object → Object
signed signature part =
    if str_eq signature "" then part else put "thoughtSignature" (str signature) part

-- `m[key]` of a `map[string]string`
abbrev pub text_at : String → Map String → String
text_at key m = or_empty (get key m)

-- An `id` entry, unless the id is empty or made up by the adapter.
abbrev pub with_id : String → Object → Object
with_id id m = if not (str_eq id "") && not (is_synthesized id) then put "id" (str id) m else m

module _ (p : Platform) where
  unfoldable pub text_parts : Map String → Object → List Object
  text_parts signatures block =
      let text = string_or_empty (get "text" block) in
      let own = thought_signature block in
      let signature =
        if str_eq own "" then text_at (text_signature_key p text) signatures else own in
      if str_eq text "" then [] else signed signature (("text", str text) ∷ []) ∷ []

  unfoldable pub tool_use_signature : String → Map String → Object → String
  tool_use_signature id signatures block =
      let own = thought_signature block in
      let kept = text_at (tool_signature_key id) signatures in
      if str_eq own "" && not (str_eq id "")
      then (if str_eq kept "" then text_at id signatures else kept)
      else own

  -- The names by tool id, after the block, and its part.
  unfoldable pub tool_use_part :
      String → Map String → Map String → Object → Outcome (Map String × Object)
  tool_use_part role names signatures block =
      let id = string_or_empty (get "id" block) in
      let name = string_or_empty (get "name" block) in
      let names' = if str_eq id "" then names else put id name names in
      if not (str_eq role "assistant")
      then fail "tool_use blocks are only valid in assistant messages"
      else if str_eq name ""
      then fail "tool_use block missing name"
      else elim (object_map_or_empty (get "input" block)) [
        | fail message ↦ fail ("tool_use " ++ₛ p.quote name ++ₛ " input: " ++ₛ message)
        | ok input ↦
            let call : Object = with_id id (("name", str name) ∷ ("args", object input) ∷ []) in
            ok (
              names',
              signed (tool_use_signature id signatures block) (("functionCall", object call) ∷ []),
            )
      ]

  unfoldable pub tool_result_part : Map String → Object → Outcome Object
  tool_result_part names block =
      let id = string_or_empty (get "tool_use_id" block) in
      let name = text_at id names in
      if str_eq name ""
      then fail ("unable to resolve Gemini functionResponse.name for tool_use_id " ++ₛ p.quote id)
      else (do
        (response, media) ← normalize_tool_result p block
        let named : Object = ("name", str name) ∷ ("response", object response) ∷ []
        let full = if length media == 0 then named else put "parts" (array (objects media)) named
        ok (("functionResponse", object (with_id id full)) ∷ []))

  -- One block: the names after it, and the parts that it adds.
  unfoldable pub convert_block :
      String → Map String → Map String → Object → Outcome (Map String × List Object)
  convert_block role names signatures block =
      let block_type = string_or_empty (get "type" block) in
      if str_eq block_type "text"
      then ok (names, text_parts signatures block)
      else if str_eq block_type "image" || str_eq block_type "document"
      then (do part ← media_block_to_part p block block_type; ok (names, part ∷ []))
      else if str_eq block_type "tool_use"
      then (do (names', part) ← tool_use_part role names signatures block; ok (names', part ∷ []))
      else if str_eq block_type "tool_result"
      then (do part ← tool_result_part names block; ok (names, part ∷ []))
      else if str_eq block_type "thinking" || str_eq block_type "redacted_thinking"
      then ok (names, [])
      else fail ("unsupported Anthropic content block for Gemini conversion: " ++ₛ block_type)

  unfoldable pub convert_blocks :
      String
      → Map String
      → List Value
      → Map String
      → List Object
      → Outcome (Map String × List Object)
  convert_blocks role signatures [] names parts = ok (names, parts)
  convert_blocks role signatures (raw ∷ rest) names parts = elim (as_object (some raw)) [
    | none ↦ fail "message content blocks must be objects"
    | some block ↦ do
      (names', added) ← convert_block role names signatures block
      convert_blocks role signatures rest names' (parts ++ added)
  ]

  unfoldable pub convert_content :
      Option Value → String → Map String → Map String → Outcome (Map String × List Object)
  convert_content (some (str v)) role names signatures =
      ok (names, if str_eq v "" then [] else (("text", str v) ∷ []) ∷ [])
  convert_content (some (arr blocks)) role names signatures = do
    (names', parts) ← convert_blocks role signatures (list_of blocks) names []
    if str_eq role "user"
        then (do folded ← fold_supplements p parts; ok (names', folded))
        else ok (names', parts)
  convert_content _ role names signatures = fail "message content must be a string or array"

  -- The first pass: the names of the tools by id, and the signatures that carriers bring.
  unfoldable pub note_block : Object → Map String × Map String → Map String × Map String
  note_block block (names, signatures) =
      let block_type = string_or_empty (get "type" block) in
      let id = string_or_empty (get "id" block) in
      let name = string_or_empty (get "name" block) in
      if str_eq block_type "redacted_thinking"
      then (elim (decode_signature_carrier p (string_or_empty (get "data" block))) [
        | some (key, signature) ↦ (names, put key signature signatures)
        | none ↦ (names, signatures)
      ])
      else if str_eq block_type "tool_use" && not (str_eq id "") && not (str_eq name "")
      then (put id name names, signatures)
      else (names, signatures)

  unfoldable pub note_blocks : List Value → Map String × Map String → Map String × Map String
  note_blocks [] noted = noted
  note_blocks (raw ∷ rest) noted =
      note_blocks rest (note_block (or_none (as_object (some raw))) noted)

  unfoldable pub note_messages :
      List Value → Map String × Map String → Outcome (Map String × Map String)
  note_messages [] noted = ok noted
  note_messages (raw ∷ rest) noted = elim (as_object (some raw)) [
    | none ↦ fail "messages entries must be objects"
    | some message ↦ note_messages rest (
        if str_eq (string_or_empty (get "role" message)) "assistant"
        then note_blocks (or_none (as_array (get "content" message))) noted
        else noted)
  ]

  -- Parts that are not empty join the last content if its role is theirs.
  unfoldable pub merge_content : Content → List Object → Outcome Content
  merge_content previous parts =
      let merged = previous.parts ++ parts in
      if str_eq previous.role "user"
      then (do folded ← fold_supplements p merged; ok (record previous { parts = folded }))
      else ok (record previous { parts = merged })

  unfoldable pub add_content : String → List Object → List Content → Outcome (List Content)
  add_content role parts [] = ok (record { role = role; parts = parts } ∷ [])
  add_content role parts (c ∷ []) =
      if str_eq c.role role
      then (do c' ← merge_content c parts; ok (c' ∷ []))
      else ok (c ∷ record { role = role; parts = parts } ∷ [])
  add_content role parts (c ∷ d ∷ rest) = do
    rest' ← add_content role parts (d ∷ rest)
    ok (c ∷ rest')

  abbrev pub gemini_role : String → String
  gemini_role role = if str_eq role "assistant" then "model" else "user"

  -- One message after the contents so far.
  unfoldable pub add_message :
      Map String → Object → Map String → List Content → Outcome (Map String × List Content)
  add_message signatures message names contents =
      let role = string_or_empty (get "role" message) in
      if str_eq role "system"
      then ok (names, contents)
      else if not (str_eq role "assistant") && not (str_eq role "user")
      then fail ("unsupported message role for Gemini conversion: " ++ₛ role)
      else (do
        (names', parts) ← convert_content (get "content" message) role names signatures
        if length parts == 0 then ok (names', contents) else (do
          contents' ← add_content (gemini_role role) parts contents
          ok (names', contents')))

  unfoldable pub add_messages :
      Map String → List Value → Map String → List Content → Outcome (List Content)
  add_messages signatures [] names contents = ok contents
  add_messages signatures (raw ∷ rest) names contents = elim (as_object (some raw)) [
    | none ↦ fail "messages entries must be objects"
    | some message ↦ do
      (names', contents') ← add_message signatures message names contents
      add_messages signatures rest names' contents'
  ]

  unfoldable pub build_contents : Object → Map String → Outcome (List Content)
  build_contents src signatures = elim (as_array (get "messages" src)) [
    | none ↦ fail "messages must be an array"
    | some messages ↦ do
      (names, merged) ← note_messages messages ([], signatures)
      add_messages merged messages names []
  ]
