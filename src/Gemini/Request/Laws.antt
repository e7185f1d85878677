-- ===== src/Gemini/Request/Laws.antt =====
-- What a converted request of pkg/adapter/gemini.go holds.
use aadapter.Base.{
  ◌∙◌, sym, ap, String, ◌<◌, ◌≡◌, ◌≢◌, ◌⊎◌, refl, Bool-cases, Option, none, some, List, [], inl,
  inr, arith, eq_iff, str_eq, length, if◌then◌else◌,
}
use aadapter.Base.Maps.{Map, get, put, get-put}
use aadapter.Base.Outcome.{ok, split_chain}
use aadapter.Json.{Value, Object, array}
use aadapter.Platform.{Platform}
use aadapter.Gemini.Options.{validate_top_level_fields, build_generation_config}
use aadapter.Gemini.Options.Laws.{or_else, or_else-none}
use aadapter.Gemini.Tools.{build_tools, build_tool_config}
use aadapter.Gemini.Contents.{Content, build_contents}
use aadapter.Gemini.Contents.Laws.{Alternates, build_contents-Alternates}
use aadapter.Gemini.Request.{
  build_system_instruction, contents_of, last_role, check_contents, put_some, as_value,
  convert_request,
}

-- The contents of a request for a model: turns that alternate, at least one, the last of which is
-- the user's for Gemini 3.6.
pub record IsConversation (model : String) (contents : List Content) : Type 0 where
  pub alternates : Alternates contents
  pub some_turn : 0 < length contents
  pub last_turn : (model ≢ "gemini-3.6-flash") ⊎ (last_role contents ≢ "model")

-- Every field of a converted request, by the operation that it comes from.
pub record IsConverted (p : Platform) (src : Object) (signatures : Map String) (model : String)
    (out : Object) : Type 0 where
  pub contents : List Content
  pub built : build_contents p src signatures ≡ ok contents
  pub held : get "contents" out ≡ some (array (contents_of contents))
  pub conversation : IsConversation model contents
  pub system : Option Object
  pub system_built : build_system_instruction src ≡ ok system
  pub system_held : get "systemInstruction" out ≡ as_value system
  pub config : Option Object
  pub config_built : build_generation_config p.to_lower src model ≡ ok config
  pub config_held : get "generationConfig" out ≡ as_value config
  pub tools_held : build_tools p.quote src ≡ ok (get "tools" out)
  pub tool_config_held : build_tool_config p.quote src ≡ ok (get "toolConfig" out)

get-put_some :
    (k j : String) (v : Option Value) (m : Object)
    → get j (put_some k v m) ≡ (if str_eq k j then or_else v (get j m) else get j m)
get-put_some k j none m = ground arith
get-put_some k j (some w) m = get-put k j w m

check_contents-some :
    (model : String) (contents : List Content)
    → check_contents model contents ≡ ok tt
    → 0 < length contents
unfolding check_contents
check_contents-some model contents h = ground arith

check_contents-last :
    (model : String) (contents : List Content)
    → check_contents model contents ≡ ok tt
    → (model ≢ "gemini-3.6-flash") ⊎ (last_role contents ≢ "model")
unfolding check_contents
check_contents-last model contents h = elim (Bool-cases (str_eq model "gemini-3.6-flash")) [
  | inr other ↦ inl (λ e. ground (arith, eq_iff model "gemini-3.6-flash"))
  | inl is ↦ inr (λ e. ground (arith, eq_iff (last_role contents) "model"))
]

get-empty : (k : String) → get {V = Value} k [] ≡ none
unfolding get
get-empty k = refl

ruleset fields = (get-put_some, get-put, or_else-none, get-empty)

abbrev layout : Option Value → Value → Option Value → Option Value → Option Value → Object
layout system contents config tools tool_config = put_some "toolConfig" tool_config (
    put_some "tools" tools (
      put_some "generationConfig" config
        (put "contents" contents (put_some "systemInstruction" system []))))

-- Each key of the layout holds what was put there.
abbrev HoldsAll :
    Option Value → Value → Option Value → Option Value → Option Value → Object → Type 0
HoldsAll system contents config tools tool_config out =
    (get "systemInstruction" out ≡ system)
    × (get "contents" out ≡ some contents)
    × (get "generationConfig" out ≡ config)
    × (get "tools" out ≡ tools)
    × (get "toolConfig" out ≡ tool_config)

layout-HoldsAll :
    (system : Option Value) (contents : Value) (config tools tool_config : Option Value)
    → HoldsAll system contents config tools tool_config
        (layout system contents config tools tool_config)
layout-HoldsAll system contents config tools tool_config =
    (simp fields, simp fields, simp fields, simp fields, simp fields)

module _ (p : Platform) where
  -- A request that is converted holds the contents of its messages, which alternate between user
  -- and model, at least one, not ending with the model for Gemini 3.6; and the system
  -- instruction, the generation config, the tools and the tool config, each as its own
  -- operation makes it of the request and only if it makes one.
  pub convert_request-IsConverted :
      (src : Object) (signatures : Map String) (model : String) (out : Object)
      → convert_request p src signatures model ≡ ok out
      → IsConverted p src signatures model out
  unfolding convert_request
  convert_request-IsConverted src signatures model out h =
      let (_, _, h1) = split_chain (validate_top_level_fields src) _ h in
      let (system, system_built, h2) = split_chain (build_system_instruction src) _ h1 in
      let (contents, built, h3) = split_chain (build_contents p src signatures) _ h2 in
      let (_, checked, h4) = split_chain (check_contents model contents) _ h3 in
      let (config, config_built, h5) =
        split_chain (build_generation_config p.to_lower src model) _ h4 in
      let (tools, tools_built, h6) = split_chain (build_tools p.quote src) _ h5 in
      let (tool_config, tool_config_built, h7) = split_chain (build_tool_config p.quote src) _ h6 in
      let made : layout (as_value system) (array (contents_of contents)) (as_value config) tools
            tool_config
          ≡ out =
        cc in
      let (at_system, at_contents, at_config, at_tools, at_tool_config) = rw made at (
        layout-HoldsAll (as_value system) (array (contents_of contents)) (as_value config) tools
          tool_config) in
      record {
        contents = contents;
        built = built;
        held = at_contents;
        conversation = record {
          alternates = build_contents-Alternates p src signatures contents built;
          some_turn = check_contents-some model contents checked;
          last_turn = check_contents-last model contents checked;
        };
        system = system;
        system_built = system_built;
        system_held = at_system;
        config = config;
        config_built = config_built;
        config_held = at_config;
        tools_held = tools_built ∙ ap ok (sym at_tools);
        tool_config_held = tool_config_built ∙ ap ok (sym at_tool_config);
      }
