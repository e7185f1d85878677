-- ===== src/Gemini/Tools/Choice.antt =====
-- The modes that `buildGeminiToolConfig` of pkg/adapter/gemini.go chooses.
use aadapter.Base.{
  String, ◌≡◌, ◌≢◌, ◌⊎◌, inl, inr, true, Bool-cases, Option, none, some, [], ◌∷◌, arith, str_eq,
}
use aadapter.Base.Maps.{get}
use aadapter.Base.Outcome.{ok, split_chain}
use aadapter.Json.{Value, bool, str, obj, Object, object, array, map_of}
use aadapter.Gemini.Options.{only_fields}
use aadapter.Gemini.Tools.{
  is_function_name, mode_only, check_parallel, tool_config_of_type, tool_config_of,
  build_tool_config,
}

abbrev pub IsMode : Value → Type 0
IsMode v =
    (v ≡ mode_only "AUTO")
    ⊎ ((v ≡ mode_only "NONE")
        ⊎ ((v ≡ mode_only "ANY")
            ⊎ ((name : String) × (is_function_name name ≡ true)
                × (v
                    ≡ object (
                        (
                          "functionCallingConfig",
                          object (
                              ("mode", str "ANY")
                              ∷ ("allowedFunctionNames", array (str name ∷ []))
                              ∷ []),
                        )
                        ∷ [])))))

-- What a tool choice says of parallel calls, if it is an object that says anything.
abbrev pub parallel_flag : Option Value → Option Value
parallel_flag (some (obj fs)) = get "disable_parallel_tool_use" (map_of fs)
parallel_flag _ = none

module _ (quote : String → String) where
  tool_config_of_type-IsMode :
      (kind name : String) (v : Value)
      → tool_config_of_type quote kind name ≡ ok (some v)
      → IsMode v
  unfolding tool_config_of_type
  tool_config_of_type-IsMode kind name v h = elim (Bool-cases (str_eq kind "auto")) [
    | inl auto ↦ inl (ground arith)
    | inr not_auto ↦ elim (Bool-cases (str_eq kind "none")) [
      | inl nothing ↦ inr (inl (ground arith))
      | inr not_none ↦ elim (Bool-cases (str_eq kind "any")) [
        | inl any ↦ inr (inr (inl (ground arith)))
        | inr not_any ↦ inr (inr (inr (name, ground arith, ground arith)))
      ]
    ]
  ]

  check_parallel-ne :
      (given : Option Value) → check_parallel quote given ≡ ok tt → given ≢ some (bool true)
  unfolding check_parallel
  check_parallel-ne given h e = cc (rw e at h)

  tool_config_of-IsMode :
      (given : Option Value) (v : Value)
      → tool_config_of quote given ≡ ok (some v)
      → IsMode v × (parallel_flag given ≢ some (bool true))
  unfolding tool_config_of
  tool_config_of-IsMode none v h = absurd (cc)
  tool_config_of-IsMode (some (str s)) v h = (
    elim (Bool-cases (str_eq s "auto")) [
      | inl auto ↦ inl (ground arith)
      | inr not_auto ↦ inr (inl (ground arith))
    ],
    λ e. absurd (cc),
  )
  tool_config_of-IsMode (some (obj fs)) v h =
      let (_, _, h1) =
        split_chain
          (only_fields ("type" ∷ "name" ∷ "disable_parallel_tool_use" ∷ [])
            "unsupported tool_choice field for Gemini conversion: " (map_of fs))
          _ h in
      let (_, checked, h2) =
        split_chain (check_parallel quote (get "disable_parallel_tool_use" (map_of fs))) _ h1 in
      (tool_config_of_type-IsMode _ _ v h2, check_parallel-ne _ checked)
  tool_config_of-IsMode (some other) v h = absurd (cc)

  -- A tool choice that is accepted becomes one of the modes AUTO, NONE and ANY, or ANY with one
  -- allowed function whose name Gemini accepts; and it did not forbid parallel calls.
  pub build_tool_config-IsMode :
      (src : Object) (v : Value)
      → build_tool_config quote src ≡ ok (some v)
      → IsMode v × (parallel_flag (get "tool_choice" src) ≢ some (bool true))
  unfolding build_tool_config
  build_tool_config-IsMode src v h = tool_config_of-IsMode (get "tool_choice" src) v h
