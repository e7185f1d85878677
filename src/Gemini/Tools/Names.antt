-- ===== src/Gemini/Tools/Names.antt =====
-- The names of the functions that `buildGeminiTools` of pkg/adapter/gemini.go declares.
use mathlib.Core.Logic.Or
use mathlib.Core.HLevel.{⊥_prop}
use mathlib.Core.List.{
  Mem, Nodup, Nodup-nil, Nodup-concat, mem-append, mem-cons, concat-eq-append, map-append,
  not-mem-nil,
}
use aadapter.Base.{
  ◌≤◌, ◌<◌, String, ◌++ₛ◌, ◌≡◌, refl, inl, inr, true, false, ◌||◌, Bool-cases, Option-cases, Option,
  none, some, List, [], ◌∷◌, ◌++◌, map, arith, eq_iff, str_eq, length, All, ◌∙◌,
}
use aadapter.Base.Maps.{get}
use aadapter.Base.Outcome.{Outcome, ok, fail, ◌>>=◌, split_chain}
use aadapter.Json.{Value, Object, object, array, as_object, as_array, string_or_empty, objects}
use aadapter.Gemini.Options.{among}
use aadapter.Gemini.Tools.{
  is_function_name, ensure_object_schema, declare_tool, wrap, declare_named, declare_one,
  declare_tools, build_tools_of, build_tools,
}

-- The name under which a declaration stands.
abbrev pub declared_name : Object → String
declared_name d = string_or_empty (get "name" d)

pub record IsDeclared (ds : List Object) : Type 0 where
  pub named : All (λ d. is_function_name (declared_name d) ≡ true) ds
  pub distinct : Nodup (map declared_name ds)

module _ (quote : String → String) where
  declared_name-declare_tool :
      (name : String) (schema tool : Object)
      → declared_name (declare_tool quote name schema tool) ≡ name
  unfolding declare_tool string_or_empty get
  declared_name-declare_tool name schema tool = refl

  among-Mem : (n : String) (l : List String) → Mem n l → among n l ≡ true
  unfolding among
  among-Mem n [] m = absurd (not-mem-nil m)
  among-Mem n (s ∷ l) m = elim (Bool-cases (str_eq n s || among n l)) [
    | inl there ↦ there
    | inr missing ↦ absurd (
        Or.elim ⊥_prop (mem-cons.0 m) (λ e. ground (arith, eq_iff n s))
          (λ m'. let there = among-Mem n l m' in ground arith))
  ]

  All-concat :
      (P : Object → Type 0) (ds : List Object) (d : Object) → All P ds → P d → All P (ds ++ d ∷ [])
  All-concat P [] d a p = (p, tt)
  All-concat P (e ∷ ds) d (q, a) p = (q, All-concat P ds d a p)

  IsDeclared-concat :
      (ds : List Object) (d : Object)
      → is_function_name (declared_name d) ≡ true
      → ¬ Mem (declared_name d) (map declared_name ds)
      → IsDeclared ds
      → IsDeclared (ds ++ d ∷ [])
  IsDeclared-concat ds d valid new h = record {
    named = All-concat _ ds d h.named valid;
    distinct =
        rw (map-append, ← concat-eq-append)
          ((Nodup-concat (map declared_name ds) (declared_name d)).1 (new, h.distinct));
  }

  among-concat :
      (ds : List Object) (d : Object) (name : String) (seen : List String)
      → declared_name d ≡ name
      → ((n : String) → Mem n (map declared_name ds) → among n seen ≡ true)
      → (n : String) → Mem n (map declared_name (ds ++ d ∷ []))
      → among n (name ∷ seen) ≡ true
  unfolding among
  among-concat ds d name seen e s n m = elim (Bool-cases (str_eq n name || among n seen)) [
    | inl there ↦ there
    | inr missing ↦ absurd (
        Or.elim ⊥_prop (mem-append.0 (rw map-append at m))
          (λ m'. let there = s n m' in ground arith)
          (λ m'. Or.elim ⊥_prop (mem-cons.0 m') (λ e'. ground (arith, eq_iff n name)) not-mem-nil))
  ]

  wrap-ok :
      (prefix : String) (o : Outcome Object) (schema : Object)
      → wrap quote prefix o ≡ ok schema
      → o ≡ ok schema
  wrap-ok prefix (fail message) schema h = cc
  wrap-ok prefix (ok s) schema h = h

  declare_last :
      (n name : String) (tool d : Object) (o : Outcome Object)
      → ◌≡◌ {A = Outcome (Option (String × Object))}
          (o >>= λ schema. ok (some (n, declare_tool quote n schema tool)))
          (ok (some (name, d)))
      → (declared_name d ≡ n) × (n ≡ name)
  declare_last n name tool d (fail message) h = cc
  declare_last n name tool d (ok schema) h =
      let e : declare_tool quote n schema tool ≡ d = cc in
      (rw (← e) (declared_name-declare_tool n schema tool), cc)

  declare_named-tests :
      (seen : List String) (tool : Object) (name : String) (d : Object)
      → declare_named quote seen tool ≡ ok (some (name, d))
      → (is_function_name (string_or_empty (get "name" tool)) ≡ true)
        × (among (string_or_empty (get "name" tool)) seen ≡ false)
        × (declared_name d ≡ string_or_empty (get "name" tool))
        × (string_or_empty (get "name" tool) ≡ name)
  unfolding declare_named
  declare_named-tests seen tool name d h =
      let n = string_or_empty (get "name" tool) in
      let o =
        wrap quote ("tool " ++ₛ quote n ++ₛ " input_schema: ")
          (ensure_object_schema (get "input_schema" tool)) in
      ground (arith, declare_last n name tool d o)

  declare_named-IsNew :
      (seen : List String) (raw : Value) (name : String) (d : Object)
      → declare_one quote seen raw ≡ ok (some (name, d))
      → (is_function_name (declared_name d) ≡ true)
        × (among (declared_name d) seen ≡ false)
        × (declared_name d ≡ name)
  unfolding declare_one
  declare_named-IsNew seen raw name d h = elim (Option-cases (as_object (some raw))) [
    | inl other ↦ cc (rw (other, declare_one) at h)
    | inr (tool, is) ↦
        let (valid, new, named, e) =
          declare_named-tests seen tool name d (rw (is, declare_one) at h) in
        (rw named valid, rw named new, named ∙ e)
  ]

  declare_tools-IsDeclared :
      (raws : List Value) (seen : List String) (ds out : List Object)
      → declare_tools quote raws seen ds ≡ ok out
      → ((n : String) → Mem n (map declared_name ds) → among n seen ≡ true)
      → IsDeclared ds
      → IsDeclared out
  unfolding declare_tools
  declare_tools-IsDeclared [] seen ds out h s v = let e : ds ≡ out = cc in rw (← e) v
  declare_tools-IsDeclared (raw ∷ rest) seen ds out h s v =
      let (declared, one, later) = split_chain (declare_one quote seen raw) _ h in
      elim (Option-cases declared) [
        | inl skipped ↦ declare_tools-IsDeclared rest seen ds out (rw skipped at later) s v
        | inr ((name, d), added) ↦
            let (valid, fresh, e) = declare_named-IsNew seen raw name d (rw added at one) in
            let unseen : ¬ Mem (declared_name d) (map declared_name ds) =
              λ m. let there = s (declared_name d) m in cc in
            declare_tools-IsDeclared rest (name ∷ seen) (ds ++ d ∷ []) out (rw added at later)
              (among-concat ds d name seen e s) (IsDeclared-concat ds d valid unseen v)
      ]

  build_tools_of-IsDeclared :
      (raw : Option Value) (tools : Value)
      → build_tools_of quote raw ≡ ok (some tools)
      → (ds : List Object) × (tools
          ≡ array (object (("functionDeclarations", array (objects ds)) ∷ []) ∷ []))
        × IsDeclared ds
        × (0 < length ds)
        × (length ds ≤ 128)
  unfolding build_tools_of
  build_tools_of-IsDeclared none tools h = absurd (cc)
  build_tools_of-IsDeclared (some raw) tools h = elim (Option-cases (as_array (some raw))) [
    | inl other ↦ absurd (cc (rw (other, build_tools_of) at h))
    | inr (raws, is) ↦
        let (ds, declared, rest) =
          split_chain (declare_tools quote raws [] []) _ (rw (is, build_tools_of) at h) in
        let good =
          declare_tools-IsDeclared raws [] [] ds declared (λ n m. absurd (not-mem-nil m))
            (record { named = tt; distinct = Nodup-nil }) in
        (ds, ground arith, good, ground arith, ground arith)
  ]

  -- The function declarations that a request gets are at least one and at most 128, every name is
  -- one that Gemini accepts, and no name stands twice.
  pub build_tools-IsDeclared :
      (src : Object) (tools : Value)
      → build_tools quote src ≡ ok (some tools)
      → (ds : List Object) × (tools
          ≡ array (object (("functionDeclarations", array (objects ds)) ∷ []) ∷ []))
        × IsDeclared ds
        × (0 < length ds)
        × (length ds ≤ 128)
  unfolding build_tools
  build_tools-IsDeclared src tools h = build_tools_of-IsDeclared (get "tools" src) tools h
