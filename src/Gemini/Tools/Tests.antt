-- ===== src/Gemini/Tools/Tests.antt =====
-- Runs of the tools and the tool choice of pkg/adapter/gemini.go at concrete inputs.
use aadapter.Base.{String, ◌≡◌, ◌≢◌, ◌≤◌, ◌<◌, refl, some, List, [], ◌∷◌, true, length}
use aadapter.Base.Maps.{get, put}
use aadapter.Base.Outcome.{ok, fail}
use aadapter.Json.{Value, Object, object, objects, array, bool, str, string_or_empty}
use aadapter.Gemini.Options.{among, only_fields}
use aadapter.Gemini.Tools.{
  is_name_start, is_name_part, all_name_parts, is_function_name_chars, is_function_name,
  ensure_object_schema, requires_keyword, requires_json_schema, declare_tool, declare_named,
  declare_one, declare_tools, build_tools_of, build_tools, check_parallel, tool_config_of_type,
  tool_config_of, build_tool_config,
}
use aadapter.Gemini.Tools.Names.{IsDeclared, build_tools-IsDeclared}
use aadapter.Gemini.Tools.Choice.{IsMode, parallel_flag, build_tool_config-IsMode}

program : Unit {0}
unfolding get put string_or_empty among only_fields is_name_start is_name_part all_name_parts
    is_function_name_chars is_function_name ensure_object_schema requires_keyword
    requires_json_schema declare_tool declare_named declare_one declare_tools build_tools_of
    build_tools check_parallel tool_config_of_type tool_config_of build_tool_config
program = tt

abbrev quote : String → String
quote s = s

abbrev read_tool : Object
read_tool = ("name", str "read") ∷ ("description", str "reads") ∷ []

abbrev union : Object
union = ("type", str "object") ∷ ("oneOf", array []) ∷ []

abbrev request : Object
request =
    (
      "tools",
      array (
          object read_tool
          ∷ object (("type", str "BatchTool") ∷ [])
          ∷ object (("name", str "find") ∷ ("input_schema", object union) ∷ [])
          ∷ []),
    )
    ∷ ("tool_choice", object (("type", str "tool") ∷ ("name", str "find") ∷ []))
    ∷ []

abbrev declared : Value
declared = array (
    object (
      (
        "functionDeclarations",
        array (
            objects (
              (("name", str "read")
                ∷ ("description", str "reads")
                ∷ ("parameters", object (("type", str "object") ∷ ("properties", object []) ∷ []))
                ∷ [])
              ∷ (("name", str "find")
                  ∷ ("description", str "")
                  ∷ (
                    "parametersJsonSchema",
                    object (
                        ("type", str "object")
                        ∷ ("oneOf", array [])
                        ∷ ("properties", object [])
                        ∷ []),
                  )
                  ∷ [])
              ∷ [])),
      )
      ∷ [])
    ∷ [])

built : build_tools quote request ≡ ok (some declared)
unfolding program
built = refl

twice :
    build_tools quote (("tools", array (object read_tool ∷ object read_tool ∷ [])) ∷ [])
    ≡ fail "duplicate tool name read"
unfolding program
twice = refl

abbrev chosen : Value
chosen = object (
    (
      "functionCallingConfig",
      object (("mode", str "ANY") ∷ ("allowedFunctionNames", array (str "find" ∷ [])) ∷ []),
    )
    ∷ [])

choice : build_tool_config quote request ≡ ok (some chosen)
unfolding program
choice = refl

build_tools-IsDeclared_example :
    (ds : List Object) × (declared
      ≡ array (object (("functionDeclarations", array (objects ds)) ∷ []) ∷ []))
    × IsDeclared ds
    × (0 < length ds)
    × (length ds ≤ 128)
build_tools-IsDeclared_example = build_tools-IsDeclared quote request declared built

build_tool_config-IsMode_example :
    IsMode chosen × (parallel_flag (get "tool_choice" request) ≢ some (bool true))
build_tool_config-IsMode_example = build_tool_config-IsMode quote request chosen choice
