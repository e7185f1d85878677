-- ===== src/Gemini/Request/Tests.antt =====
-- Runs of the conversion of requests of pkg/adapter/gemini.go at concrete inputs.
use aadapter.Base.{◌≡◌, ◌≢◌, refl, some, [], ◌∷◌, All}
use aadapter.Base.Maps.{get, put}
use aadapter.Base.Outcome.{ok, fail}
use aadapter.Json.{Object, object, array, str, string_or_empty, copy_field}
use aadapter.Platform.Sample.{sample}
use aadapter.Gemini.Options.{
  among, only_fields, level_of_output_config, level_of_thinking, resolve_thinking_level, copied_for,
  build_generation_config, validate_top_level_fields,
}
use aadapter.Gemini.Tools.{build_tools_of, build_tools, tool_config_of, build_tool_config}
use aadapter.Gemini.Media.{join}
use aadapter.Gemini.Contents.{
  convert_content, note_messages, merge_content, add_content, add_message, add_messages,
  build_contents,
}
use aadapter.Gemini.Request.{
  collect_block, collect_blocks, collect_texts, collect_message, collect_messages, collect_system,
  build_system_instruction, check_contents, convert_request, messages_to_gemini,
}
use aadapter.Gemini.Request.System.{IsText, system_texts, build_system_instruction-lem}
use aadapter.Gemini.Request.Laws.{IsConverted, convert_request-IsConverted}

program : Unit {0}
unfolding get put string_or_empty copy_field among only_fields level_of_output_config
    level_of_thinking resolve_thinking_level copied_for build_generation_config
    validate_top_level_fields build_tools_of build_tools tool_config_of build_tool_config join
    convert_content note_messages merge_content add_content add_message add_messages build_contents
    collect_block collect_blocks collect_texts collect_message collect_messages collect_system
    build_system_instruction check_contents convert_request messages_to_gemini
program = tt

abbrev request : Object
request =
    ("system", array (object (("type", str "text") ∷ ("text", str "Be brief.") ∷ []) ∷ []))
    ∷ (
      "messages",
      array (
          object (("role", str "user") ∷ ("content", str "Hi") ∷ [])
          ∷ object (("role", str "system") ∷ ("content", str "Be kind.") ∷ [])
          ∷ []),
    )
    ∷ ("tool_choice", str "auto")
    ∷ []

abbrev instruction : Object
instruction = ("parts", array (object (("text", str "Be brief.\n\nBe kind.") ∷ []) ∷ [])) ∷ []

abbrev converted : Object
converted =
    ("systemInstruction", object instruction)
    ∷ (
      "contents",
      array (
          object
            (("role", str "user") ∷ ("parts", array (object (("text", str "Hi") ∷ []) ∷ [])) ∷ [])
          ∷ []),
    )
    ∷ ("toolConfig", object (("functionCallingConfig", object (("mode", str "AUTO") ∷ [])) ∷ []))
    ∷ []

converts : convert_request sample request [] "gemini-3.6-flash" ≡ ok converted
unfolding program
converts = refl

-- Gemini 3.6 takes no request that ends with the model.
prefilled :
    convert_request sample
      (("messages", array (object (("role", str "assistant") ∷ ("content", str "Hi") ∷ []) ∷ []))
        ∷ [])
      []
      "gemini-3.6-flash"
    ≡ fail "gemini-3.6-flash does not support an assistant/model message as the final input turn"
unfolding program
prefilled = refl

instructs : build_system_instruction request ≡ ok (some instruction)
unfolding program
instructs = refl

convert_request-IsConverted_example : IsConverted sample request [] "gemini-3.6-flash" converted
convert_request-IsConverted_example =
    convert_request-IsConverted sample request [] "gemini-3.6-flash" converted converts

build_system_instruction-lem_example :
    All IsText (system_texts request)
    × (system_texts request ≢ [])
    × (instruction
        ≡ ("parts", array (object (("text", str (join "\n\n" (system_texts request))) ∷ []) ∷ []))
          ∷ [])
build_system_instruction-lem_example = build_system_instruction-lem request instruction instructs
