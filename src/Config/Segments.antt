-- ===== src/Config/Segments.antt =====
-- pkg/adapter/config.go: the segments of a resource path, and the path of an operation.
use Prim.Native.Char.{Char, code}
use aadapter.Base.{
  ℕ, String, ◌++ₛ◌, Bool, true, false, not, ◌&&◌, ◌||◌, some, none, List, [], ◌∷◌, if◌then◌else◌,
  str_eq, leb, ◌==◌, chars,
}
use aadapter.Base.Outcome.{Outcome, ok, fail}
use aadapter.Gemini.Carrier.{cut_prefix}

abbrev pub is_between : ℕ → ℕ → Char → Bool
is_between low high ch = leb low (code ch) && leb (code ch) high

-- `[A-Za-z0-9]`
unfoldable pub is_alphanumeric : Char → Bool
is_alphanumeric ch = is_between 65 90 ch || (is_between 97 122 ch || is_between 48 57 ch)

-- `[A-Za-z0-9._@~-]`
unfoldable pub is_segment_char : Char → Bool
is_segment_char ch =
    is_alphanumeric ch
    || (code ch == 46 || (code ch == 95 || (code ch == 64 || (code ch == 126 || code ch == 45))))

unfoldable pub all_segment_chars : List Char → Bool
all_segment_chars [] = true
all_segment_chars (ch ∷ rest) = is_segment_char ch && all_segment_chars rest

-- `vertexResourceSegmentPattern`: one character of the first class, then any number of the second.
unfoldable pub is_segment : List Char → Bool
is_segment [] = false
is_segment (ch ∷ rest) = is_alphanumeric ch && all_segment_chars rest

unfoldable pub validate_vertex_resource_segment : String → String → Outcome (Unit {0})
validate_vertex_resource_segment name value =
    if is_segment (chars value)
    then ok tt
    else fail (name ++ₛ " contains characters that are unsafe in a Vertex resource path")

-- `strings.HasPrefix`
abbrev pub has_prefix : String → String → Bool
has_prefix s prefix = elim (cut_prefix s prefix) [ some rest ↦ true | none ↦ false ]

unfoldable pub validate_gemini_model : (String → String) → String → Outcome (Unit {0})
validate_gemini_model quote model =
    if not (has_prefix model "gemini-")
    then fail ("VERTEX_API_FORMAT=gemini requires a Gemini model, got " ++ₛ quote model)
    else if str_eq model "gemini-3.7-flash"
    then fail "gemini-3.7-flash is not a published Vertex model"
    else ok tt

-- The operations of server.go, by their names.
pub data VertexOperation : Type 0 where
  raw_predict : VertexOperation
  stream_raw_predict : VertexOperation
  generate_content : VertexOperation
  stream_generate_content : VertexOperation
  count_tokens : VertexOperation

abbrev pub operation_name : VertexOperation → String
operation_name raw_predict = "rawPredict"
operation_name stream_raw_predict = "streamRawPredict"
operation_name generate_content = "generateContent"
operation_name stream_generate_content = "streamGenerateContent"
operation_name count_tokens = "countTokens"

-- `targetPath`, of the project, the location and the publisher of a configuration.
unfoldable pub target_path : String → String → String → VertexOperation → String → String
target_path project location publisher op model =
    "/v1/projects/"
    ++ₛ (project
        ++ₛ ("/locations/"
            ++ₛ (location
                ++ₛ ("/publishers/"
                    ++ₛ (publisher ++ₛ ("/models/" ++ₛ (model ++ₛ (":" ++ₛ operation_name op))))))))
