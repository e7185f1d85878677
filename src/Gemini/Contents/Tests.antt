-- ===== src/Gemini/Contents/Tests.antt =====
-- Runs of the conversion of messages of pkg/adapter/gemini.go at concrete inputs.
use aadapter.Base.{◌≡◌, refl, List, [], ◌∷◌}
use aadapter.Base.Maps.{get, put}
use aadapter.Base.Outcome.{ok}
use aadapter.Json.{
  Object, object, array, str, string_or_empty, object_map_or_empty, thought_signature,
}
use aadapter.Platform.Sample.{sample}
use aadapter.Gemini.Carrier.{cut_prefix, text_signature_key, decode_signature_carrier}
use aadapter.Gemini.Media.{normalize_tool_result, result_content, is_error_flag}
use aadapter.Gemini.Fold.{
  append_text, append_media, fold_response, supplement, fold_other, fold_part, fold_from,
  fold_supplements,
}
use aadapter.Gemini.Contents.{
  Content, text_parts, tool_use_signature, tool_use_part, tool_result_part, convert_block,
  convert_blocks, convert_content, note_block, note_blocks, note_messages, merge_content,
  add_content, add_message, add_messages, build_contents,
}
use aadapter.Gemini.Contents.Laws.{Alternates, build_contents-Alternates}

program : Unit {0}
unfolding get put string_or_empty object_map_or_empty thought_signature cut_prefix
    text_signature_key decode_signature_carrier normalize_tool_result result_content is_error_flag
    append_text append_media fold_response supplement fold_other fold_part fold_from
    fold_supplements text_parts tool_use_signature tool_use_part tool_result_part convert_block
    convert_blocks convert_content note_block note_blocks note_messages merge_content add_content
    add_message add_messages build_contents
program = tt

-- The assistant calls a tool with a signature in a carrier; the user answers, then writes on.
abbrev request : Object
request =
    (
      "messages",
      array (
          object (("role", str "user") ∷ ("content", str "read it") ∷ [])
          ∷ object (
              ("role", str "assistant")
              ∷ (
                "content",
                array (
                    object (
                      ("type", str "redacted_thinking")
                      ∷ ("data", str "aadapter-signature-v1:sig")
                      ∷ [])
                    ∷ object (
                        ("type", str "tool_use")
                        ∷ ("id", str "1")
                        ∷ ("name", str "read")
                        ∷ ("input", object [])
                        ∷ [])
                    ∷ []),
              )
              ∷ [])
          ∷ object (
              ("role", str "user")
              ∷ (
                "content",
                array (
                    object (
                      ("type", str "tool_result")
                      ∷ ("tool_use_id", str "1")
                      ∷ ("content", str "42")
                      ∷ [])
                    ∷ []),
              )
              ∷ [])
          ∷ object (("role", str "user") ∷ ("content", str "next?") ∷ [])
          ∷ []),
    )
    ∷ []

abbrev turns : List Content
turns =
    record { role = "user"; parts = (("text", str "read it") ∷ []) ∷ [] }
    ∷ record {
      role = "model";
      parts =
          ((
            "functionCall",
            object (("name", str "read") ∷ ("args", object []) ∷ ("id", str "1") ∷ []),
          )
            ∷ ("thoughtSignature", str "sig")
            ∷ [])
          ∷ [];
    }
    ∷ record {
      role = "user";
      parts =
          ((
            "functionResponse",
            object (
                ("name", str "read")
                ∷ ("response", object (("output", str "42\n\nnext?") ∷ []))
                ∷ ("id", str "1")
                ∷ []),
          )
            ∷ [])
          ∷ [];
    }
    ∷ []

builds : build_contents sample request [] ≡ ok turns
unfolding program
builds = refl

build_contents-Alternates_example : Alternates turns
build_contents-Alternates_example = build_contents-Alternates sample request [] turns builds
