-- ===== src/Gemini/Tools.antt =====
-- pkg/adapter/gemini.go: `buildGeminiTools`, `buildGeminiToolConfig`, `ensureObjectSchema` and
-- `requiresGeminiParametersJSONSchema`.
pub mod Names
pub mod Choice
mod Tests
use Prim.Native.Char.{Char, code}
use aadapter.Base.{
  ℕ, String, ◌++ₛ◌, Bool, true, false, not, ◌&&◌, ◌||◌, Option, none, some, List, [], ◌∷◌, ◌++◌,
  ◌==◌, length, if◌then◌else◌, str_eq, leb, ltb, chars,
}
use aadapter.Base.Maps.{Map, get, put}
use aadapter.Base.Outcome.{Outcome, ok, fail, ◌>>=◌, ◌>>◌}
use aadapter.Json.{
  Value, Items, Fields, null, bool, num, str, arr, obj, no_items, item, no_fields, field, Object,
  object, array, as_string, as_object, as_array, as_bool, or_empty, is_nil, string_or_empty, map_of,
  objects,
}
use aadapter.Gemini.Options.{among, only_fields}

-- `^[A-Za-z_][A-Za-z0-9_.-]{0,63}$`
unfoldable pub is_name_start : Char → Bool
is_name_start c =
    let n = code c in leb b'A' n && leb n b'Z' || (leb b'a' n && leb n b'z') || n == b'_'

unfoldable pub is_name_part : Char → Bool
is_name_part c =
    let n = code c in is_name_start c || (leb b'0' n && leb n b'9') || n == b'.' || n == b'-'

unfoldable pub all_name_parts : List Char → Bool
all_name_parts [] = true
all_name_parts (c ∷ cs) = is_name_part c && all_name_parts cs

unfoldable pub is_function_name_chars : List Char → Bool
is_function_name_chars [] = false
is_function_name_chars (c ∷ cs) = is_name_start c && all_name_parts cs && leb (length cs) 63

unfoldable pub is_function_name : String → Bool
is_function_name name = is_function_name_chars (chars name)

unfoldable pub ensure_object_schema : Option Value → Outcome Object
ensure_object_schema value =
    if is_nil value
    then ok (("type", str "object") ∷ ("properties", object []) ∷ [])
    else elim (as_object value) [
      | none ↦ fail "must be an object"
      | some given ↦
          let schema : Object = elim (get "type" given) [
            | some v ↦ given
            | none ↦ put "type" (str "object") given
          ] in
          if str_eq (string_or_empty (get "type" schema)) "object"
          then ok (elim (get "properties" schema) [
            | some v ↦ schema
            | none ↦ put "properties" (object []) schema
          ])
          else fail "top-level type must be object"
    ]

abbrev pub plain_keywords : List String
plain_keywords =
    "format" ∷ "title" ∷ "description" ∷ "nullable" ∷ "enum" ∷ "maxItems" ∷ "minItems" ∷ "required"
    ∷ "minProperties" ∷ "maxProperties" ∷ "minLength" ∷ "maxLength" ∷ "pattern" ∷ "example"
    ∷ "propertyOrdering" ∷ "default" ∷ "minimum" ∷ "maximum" ∷ []

abbrev pub is_array : Value → Bool
is_array (arr vs) = true
is_array _ = false

abbrev pub is_object : Value → Bool
is_object (obj fs) = true
is_object _ = false

-- `requires_keyword` is the body of the loop over the keys of a schema; the answers for the value
-- and for its parts are handed to it.
unfoldable pub requires_keyword : String → Value → Bool → Bool → Bool
requires_keyword key value in_value in_parts =
    if str_eq key "type"
    then is_array value
    else if among key plain_keywords
    then false
    else if str_eq key "properties"
    then not (is_object value) || in_parts
    else if str_eq key "items"
    then not (is_object value) || in_value
    else if str_eq key "anyOf"
    then not (is_array value) || in_parts
    else true

unfoldable mutual
  pub requires_json_schema : Value → Bool
  requires_json_schema null = false
  requires_json_schema (bool b) = false
  requires_json_schema (num f) = false
  requires_json_schema (str s) = false
  requires_json_schema (arr vs) = requires_of_items vs
  requires_json_schema (obj fs) = requires_of_keys fs

  -- The same for the parts of a value: the items of an array, the values of an object.
  pub requires_of_parts : Value → Bool
  requires_of_parts null = false
  requires_of_parts (bool b) = false
  requires_of_parts (num f) = false
  requires_of_parts (str s) = false
  requires_of_parts (arr vs) = requires_of_items vs
  requires_of_parts (obj fs) = requires_of_values fs

  pub requires_of_items : Items → Bool
  requires_of_items no_items = false
  requires_of_items (item v vs) = requires_json_schema v || requires_of_items vs

  pub requires_of_values : Fields → Bool
  requires_of_values no_fields = false
  requires_of_values (field k v fs) = requires_json_schema v || requires_of_values fs

  pub requires_of_keys : Fields → Bool
  requires_of_keys no_fields = false
  requires_of_keys (field k v fs) =
      requires_keyword k v (requires_json_schema v) (requires_of_parts v) || requires_of_keys fs

abbrev pub mode_only : String → Value
mode_only mode = object (("functionCallingConfig", object (("mode", str mode) ∷ [])) ∷ [])

module _ (quote : String → String) where
  unfoldable pub declare_tool : String → Object → Object → Object
  declare_tool name schema tool =
      ("name", str name)
      ∷ ("description", str (string_or_empty (get "description" tool)))
      ∷ (
        if requires_json_schema (object schema) then "parametersJsonSchema" else "parameters",
        object schema,
      )
      ∷ []

  abbrev pub wrap : String → Outcome Object → Outcome Object
  wrap prefix (fail message) = fail (prefix ++ₛ message)
  wrap prefix (ok schema) = ok schema

  -- One tool, after the names seen before it; `none` is a tool that is left out.
  unfoldable pub declare_named : List String → Object → Outcome (Option (String × Object))
  declare_named seen tool =
      let tool_type = string_or_empty (get "type" tool) in
      let name = string_or_empty (get "name" tool) in
      if str_eq tool_type "BatchTool" || str_eq name "BatchTool"
      then ok none
      else if not (str_eq tool_type "") && not (str_eq tool_type "custom")
      then fail ("unsupported Anthropic server tool type for Gemini conversion: " ++ₛ tool_type)
      else if not (is_function_name name)
      then fail ("invalid Gemini function name " ++ₛ quote name)
      else if among name seen
      then fail ("duplicate tool name " ++ₛ quote name)
      else (do
        schema ←
            wrap ("tool " ++ₛ quote name ++ₛ " input_schema: ")
              (ensure_object_schema (get "input_schema" tool))
        ok (some (name, declare_tool name schema tool)))

  unfoldable pub declare_one : List String → Value → Outcome (Option (String × Object))
  declare_one seen raw = elim (as_object (some raw)) [
    | none ↦ fail "tools entries must be objects"
    | some tool ↦ declare_named seen tool
  ]

  -- The loop of `buildGeminiTools`, from the names seen and the declarations so far.
  unfoldable pub declare_tools : List Value → List String → List Object → Outcome (List Object)
  declare_tools [] seen declarations = ok declarations
  declare_tools (raw ∷ rest) seen declarations = do
    declared ← declare_one seen raw
    elim declared [
      | none ↦ declare_tools rest seen declarations
      | some (name, declaration) ↦
          declare_tools rest (name ∷ seen) (declarations ++ declaration ∷ [])
    ]

  unfoldable pub build_tools_of : Option Value → Outcome (Option Value)
  build_tools_of none = ok none
  build_tools_of (some raw) = elim (as_array (some raw)) [
    | none ↦ fail "tools must be an array"
    | some raw_tools ↦ do
      declarations ← declare_tools raw_tools [] []
      if ltb 128 (length declarations)
          then fail "Gemini 3.5/3.6 supports at most 128 function declarations"
          else if length declarations == 0
          then ok none
          else ok (
              some
                (array (object (("functionDeclarations", array (objects declarations)) ∷ []) ∷ [])))
  ]

  unfoldable pub build_tools : Object → Outcome (Option Value)
  build_tools src = build_tools_of (get "tools" src)

  -- The checks on `disable_parallel_tool_use`.
  unfoldable pub check_parallel : Option Value → Outcome (Unit {0})
  check_parallel none = ok tt
  check_parallel (some (bool true)) =
      fail "tool_choice.disable_parallel_tool_use=true cannot be enforced by Vertex Gemini"
  check_parallel (some (bool false)) = ok tt
  check_parallel (some _) = fail "tool_choice.disable_parallel_tool_use must be a boolean"

  unfoldable pub tool_config_of_type : String → String → Outcome (Option Value)
  tool_config_of_type choice_type name =
      if str_eq choice_type "auto"
      then ok (some (mode_only "AUTO"))
      else if str_eq choice_type "none"
      then ok (some (mode_only "NONE"))
      else if str_eq choice_type "any"
      then ok (some (mode_only "ANY"))
      else if str_eq choice_type "tool"
      then (if not (is_function_name name)
          then fail ("tool_choice tool has invalid name " ++ₛ quote name)
          else ok (
              some (
                object (
                  (
                    "functionCallingConfig",
                    object (
                        ("mode", str "ANY") ∷ ("allowedFunctionNames", array (str name ∷ [])) ∷ []),
                  )
                  ∷ []))))
      else fail ("unsupported tool_choice type for Gemini conversion: " ++ₛ choice_type)

  unfoldable pub tool_config_of : Option Value → Outcome (Option Value)
  tool_config_of none = ok none
  tool_config_of (some (str v)) =
      if str_eq v "auto"
      then ok (some (mode_only "AUTO"))
      else if str_eq v "none"
      then ok (some (mode_only "NONE"))
      else fail ("unsupported tool_choice string for Gemini conversion: " ++ₛ v)
  tool_config_of (some (obj fs)) = do
    only_fields ("type" ∷ "name" ∷ "disable_parallel_tool_use" ∷ [])
        "unsupported tool_choice field for Gemini conversion: " (map_of fs)
    check_parallel (get "disable_parallel_tool_use" (map_of fs))
    tool_config_of_type (string_or_empty (get "type" (map_of fs)))
        (string_or_empty (get "name" (map_of fs)))
  tool_config_of (some _) = fail "tool_choice must be a string or object"

  unfoldable pub build_tool_config : Object → Outcome (Option Value)
  build_tool_config src = tool_config_of (get "tool_choice" src)
