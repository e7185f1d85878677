-- ===== src/Gemini/Media.antt =====
-- pkg/adapter/gemini.go: `anthropicMediaBlockToGeminiPart`, `normalizeToolResult` and
-- `validateGeminiFunctionResponseMediaPart`.
use aadapter.Base.{
  String, ◌++ₛ◌, Bool, false, not, ◌&&◌, ◌||◌, Option, none, some, List, [], ◌∷◌, ◌++◌,
  if◌then◌else◌, str_eq,
}
use aadapter.Base.Maps.{get}
use aadapter.Base.Outcome.{Outcome, ok, fail, ◌>>=◌, ◌>>◌}
use aadapter.Json.{
  Value, null, bool, str, arr, Object, object, as_string, as_object, string_or_empty, list_of,
}
use aadapter.Platform.{Platform}
use aadapter.Gemini.Options.{among}

-- `strings.Join`
unfoldable pub join : String → List String → String
join separator [] = ""
join separator (s ∷ []) = s
join separator (s ∷ t ∷ rest) = s ++ₛ (separator ++ₛ join separator (t ∷ rest))

abbrev pub response_mime_types : List String
response_mime_types =
    "image/png" ∷ "image/jpeg" ∷ "image/webp" ∷ "application/pdf" ∷ "text/plain" ∷ []

abbrev pub is_text_document : String → String → Bool
is_text_document source_type block_type = str_eq source_type "text" && str_eq block_type "document"

module _ (p : Platform) where
  unfoldable pub text_document_part : Object → Outcome Object
  text_document_part source =
      let text = string_or_empty (get "data" source) in
      if str_eq text ""
      then fail "document text source missing data"
      else ok (("text", str text) ∷ [])

  unfoldable pub url_part : String → Object → Outcome Object
  url_part block_type source =
      let uri = string_or_empty (get "url" source) in
      let given = string_or_empty (get "media_type" source) in
      if str_eq uri ""
      then fail (block_type ++ₛ " URL source missing url")
      else elim (p.parse_url uri) [
        | none ↦ fail ("invalid " ++ₛ block_type ++ₛ " URL source")
        | some (scheme, path) ↦
            let mime_type = if str_eq given "" then p.mime_type_by_path path else given in
            if not (among scheme ("http" ∷ "https" ∷ "gs" ∷ []))
            then fail ("invalid " ++ₛ block_type ++ₛ " URL source")
            else if str_eq mime_type ""
            then fail (
                block_type
                ++ₛ " URL source requires media_type when it cannot be inferred from the URL")
            else ok (
                ("fileData", object (("mimeType", str mime_type) ∷ ("fileUri", str uri) ∷ [])) ∷ [])
      ]

  unfoldable pub base64_part : String → Object → Outcome Object
  base64_part block_type source =
      let given = string_or_empty (get "media_type" source) in
      let mime_type =
        if not (str_eq given "")
        then given
        else if str_eq block_type "document"
        then "application/pdf"
        else "image/png" in
      let content = string_or_empty (get "data" source) in
      if str_eq content ""
      then fail (block_type ++ₛ " block source missing data")
      else ok
          (("inlineData", object (("mimeType", str mime_type) ∷ ("data", str content) ∷ [])) ∷ [])

  unfoldable pub source_part : String → Object → Outcome Object
  source_part block_type source =
      let source_type = string_or_empty (get "type" source) in
      if is_text_document source_type block_type
      then text_document_part source
      else if str_eq source_type "url"
      then url_part block_type source
      else if not (str_eq source_type "base64")
      then fail ("unsupported Gemini " ++ₛ block_type ++ₛ " source type " ++ₛ p.quote source_type)
      else base64_part block_type source

  unfoldable pub media_block_to_part : Object → String → Outcome Object
  media_block_to_part block block_type = elim (as_object (get "source" block)) [
    | none ↦ fail (block_type ++ₛ " block missing source")
    | some source ↦ source_part block_type source
  ]

  unfoldable pub check_mime_type : Object → Outcome (Unit {0})
  check_mime_type media =
      let mime_type = string_or_empty (get "mimeType" media) in
      if among mime_type response_mime_types
      then ok tt
      else fail ("unsupported Gemini function response MIME type " ++ₛ p.quote mime_type)

  unfoldable pub validate_response_media_part : Object → Outcome (Unit {0})
  validate_response_media_part part = elim (as_object (get "inlineData" part)) [
    | some inline ↦ check_mime_type inline
    | none ↦ elim (as_object (get "fileData" part)) [
      | some file ↦ check_mime_type file
      | none ↦ ok tt
    ]
  ]

  -- What a checked media part adds to the texts and the media parts of a tool result.
  unfoldable pub add_media : Object → List String × List Object → List String × List Object
  add_media part (texts, media) = elim (get "inlineData" part) [
    | some inline ↦ (texts, media ++ (("inlineData", inline) ∷ []) ∷ [])
    | none ↦ elim (get "fileData" part) [
      | some file ↦ (texts, media ++ (("fileData", file) ∷ []) ∷ [])
      | none ↦ elim (as_string (get "text" part)) [
        | some text ↦ (texts ++ text ∷ [], media)
        | none ↦ (texts, media)
      ]
    ]
  ]

  unfoldable pub add_result_block :
      Object → List String × List Object → Outcome (List String × List Object)
  add_result_block block (texts, media) =
      let block_type = string_or_empty (get "type" block) in
      let text = string_or_empty (get "text" block) in
      if str_eq block_type "text"
      then ok (if str_eq text "" then (texts, media) else (texts ++ text ∷ [], media))
      else if str_eq block_type "image" || str_eq block_type "document"
      then (do
        part ← media_block_to_part block block_type
        validate_response_media_part part
        ok (add_media part (texts, media)))
      else fail ("unsupported tool_result content block: " ++ₛ block_type)

  unfoldable pub collect_result_blocks :
      List Value → List String × List Object → Outcome (List String × List Object)
  collect_result_blocks [] collected = ok collected
  collect_result_blocks (raw ∷ rest) collected = elim (as_object (some raw)) [
    | none ↦ fail "tool_result content blocks must be objects"
    | some block ↦ do added ← add_result_block block collected; collect_result_blocks rest added
  ]

  unfoldable pub result_content : Option Value → Outcome (String × List Object)
  result_content none = ok ("", [])
  result_content (some null) = ok ("", [])
  result_content (some (str s)) = ok (s, [])
  result_content (some (arr blocks)) = do
    (texts, media) ← collect_result_blocks (list_of blocks) ([], [])
    ok (join "\n" texts, media)
  result_content (some _) = fail "tool_result content must be a string or content block array"

  unfoldable pub is_error_flag : Option Value → Outcome Bool
  is_error_flag none = ok false
  is_error_flag (some (bool b)) = ok b
  is_error_flag (some _) = fail "tool_result is_error must be a boolean"

  -- The response object and the media parts of a tool result.
  unfoldable pub normalize_tool_result : Object → Outcome (Object × List Object)
  normalize_tool_result block = do
    is_error ← is_error_flag (get "is_error" block)
    (content, media) ← result_content (get "content" block)
    ok ((if is_error then "error" else "output", str content) ∷ [], media)
