-- ===== src/Gemini/Request/System.antt =====
-- The system instruction that pkg/adapter/gemini.go makes of a request.
use aadapter.Base.{
  String, ◌≡◌, ◌≢◌, ap, sym, ◌∙◌, Bool-cases, Option-cases, Option, none, some, List, [], ◌∷◌, ◌++◌,
  inl, inr, arith, eq_iff, str_eq, if◌then◌else◌, length, ◌==◌, All,
}
use aadapter.Base.Maps.{get}
use aadapter.Base.Outcome.{ok, split_chain}
use aadapter.Json.{
  Value, str, arr, Object, object, array, as_object, as_array, or_none, string_or_empty, list_of,
}
use aadapter.Gemini.Media.{join}
use aadapter.Gemini.Request.{
  collect_block, collect_blocks, collect_texts, collect_message, collect_messages, collect_system,
  build_system_instruction,
}

abbrev pub IsText : String → Type 0
IsText s = s ≢ ""

All-texts : (ss ts : List String) → All IsText ss → All IsText ts → All IsText (ss ++ ts)
All-texts [] ts a b = b
All-texts (s ∷ ss) ts (t, a) b = (t, All-texts ss ts a b)

-- A text, unless it is empty.
abbrev pub kept : String → List String
kept s = if str_eq s "" then [] else s ∷ []

-- The texts that a request gives to the model as a system: those of a value, a text or a list of
-- blocks, and those of the messages with the role system.
abbrev pub text_of_block : Option Object → List String
text_of_block none = []
text_of_block (some block) = kept (string_or_empty (get "text" block))

abbrev pub texts_of_blocks : List Value → List String
texts_of_blocks [] = []
texts_of_blocks (raw ∷ rest) = text_of_block (as_object (some raw)) ++ texts_of_blocks rest

abbrev pub texts_of_value : Option Value → List String
texts_of_value (some (str v)) = kept v
texts_of_value (some (arr vs)) = texts_of_blocks (list_of vs)
texts_of_value _ = []

abbrev pub texts_of_message : Option Object → List String
texts_of_message none = []
texts_of_message (some message) =
    if str_eq (string_or_empty (get "role" message)) "system"
    then texts_of_value (get "content" message)
    else []

abbrev pub texts_of_messages : List Value → List String
texts_of_messages [] = []
texts_of_messages (raw ∷ rest) = texts_of_message (as_object (some raw)) ++ texts_of_messages rest

abbrev pub system_texts : Object → List String
system_texts src =
    texts_of_value (get "system" src) ++ texts_of_messages (or_none (as_array (get "messages" src)))

kept-IsText : (s : String) → All IsText (kept s)
kept-IsText s = elim (Bool-cases (str_eq s "")) [
  | inl e ↦ rw e tt
  | inr e ↦ rw e ((λ same. ground (arith, eq_iff s "")), tt)
]

text_of_block-IsText : (block : Option Object) → All IsText (text_of_block block)
text_of_block-IsText none = tt
text_of_block-IsText (some block) = kept-IsText (string_or_empty (get "text" block))

texts_of_blocks-IsText : (vs : List Value) → All IsText (texts_of_blocks vs)
texts_of_blocks-IsText [] = tt
texts_of_blocks-IsText (raw ∷ rest) =
    All-texts _ _ (text_of_block-IsText (as_object (some raw))) (texts_of_blocks-IsText rest)

texts_of_value-IsText : (value : Option Value) → All IsText (texts_of_value value)
texts_of_value-IsText (some (str v)) = kept-IsText v
texts_of_value-IsText (some (arr vs)) = texts_of_blocks-IsText (list_of vs)
texts_of_value-IsText _ = tt

texts_of_message-IsText : (message : Option Object) → All IsText (texts_of_message message)
texts_of_message-IsText none = tt
texts_of_message-IsText (some message) =
    elim (Bool-cases (str_eq (string_or_empty (get "role" message)) "system")) [
      | inl e ↦ rw e (texts_of_value-IsText (get "content" message))
      | inr e ↦ rw e tt
    ]

texts_of_messages-IsText : (vs : List Value) → All IsText (texts_of_messages vs)
texts_of_messages-IsText [] = tt
texts_of_messages-IsText (raw ∷ rest) =
    All-texts _ _ (texts_of_message-IsText (as_object (some raw))) (texts_of_messages-IsText rest)

collect_block-texts :
    (field : String) (block : Object) (ts : List String)
    → collect_block field block ≡ ok ts
    → text_of_block (some block) ≡ ts
unfolding collect_block
collect_block-texts field block ts h = ground arith

collect_blocks-texts :
    (field : String) (vs : List Value) (ts : List String)
    → collect_blocks field vs ≡ ok ts
    → texts_of_blocks vs ≡ ts
unfolding collect_blocks
collect_blocks-texts field [] ts h = cc
collect_blocks-texts field (raw ∷ rest) ts h = elim (Option-cases (as_object (some raw))) [
  | inl other ↦ absurd (cc (rw (other, collect_blocks) at h))
  | inr (block, is) ↦
      let (first, one, h') =
        split_chain (collect_block field block) _ (rw (is, collect_blocks) at h) in
      let (more, others, h'') = split_chain (collect_blocks field rest) _ h' in
      let e : first ++ more ≡ ts = cc in
      let a = collect_block-texts field block first one in
      let b = collect_blocks-texts field rest more others in rw (is, b, ← e) (ap (λ x. x ++ more) a)
]

collect_texts-texts :
    (value : Option Value) (field : String) (ts : List String)
    → collect_texts value field ≡ ok ts
    → texts_of_value value ≡ ts
unfolding collect_texts
collect_texts-texts none field ts h = absurd (cc)
collect_texts-texts (some (str v)) field ts h = cc
collect_texts-texts (some (arr vs)) field ts h = collect_blocks-texts field (list_of vs) ts h
collect_texts-texts (some other) field ts h = absurd (cc)

collect_message-texts :
    (message : Object) (ts : List String)
    → collect_message message ≡ ok ts
    → texts_of_message (some message) ≡ ts
unfolding collect_message
collect_message-texts message ts h =
    elim (Bool-cases (str_eq (string_or_empty (get "role" message)) "system")) [
      | inl e ↦ rw e (collect_texts-texts _ _ ts (rw (e, collect_message) at h))
      | inr e ↦ rw e (ground arith)
    ]

collect_messages-texts :
    (vs : List Value) (ts : List String) → collect_messages vs ≡ ok ts → texts_of_messages vs ≡ ts
unfolding collect_messages
collect_messages-texts [] ts h = cc
collect_messages-texts (raw ∷ rest) ts h = elim (Option-cases (as_object (some raw))) [
  | inl other ↦ absurd (cc (rw (other, collect_messages) at h))
  | inr (message, is) ↦
      let (first, one, h') =
        split_chain (collect_message message) _ (rw (is, collect_messages) at h) in
      let (more, others, h'') = split_chain (collect_messages rest) _ h' in
      let e : first ++ more ≡ ts = cc in
      let a = collect_message-texts message first one in
      let b = collect_messages-texts rest more others in rw (is, b, ← e) (ap (λ x. x ++ more) a)
]

collect_system-texts :
    (system : Option Value) (ts : List String)
    → collect_system system ≡ ok ts
    → texts_of_value system ≡ ts
unfolding collect_system
collect_system-texts none ts h = cc
collect_system-texts (some v) ts h = collect_texts-texts (some v) "system" ts h

-- A system instruction is one part with a text: the texts of the system field, then those of the
-- messages of role system, none of them empty, at least one, with an empty line between each and
-- the next.
pub build_system_instruction-lem :
    (src : Object) (out : Object)
    → build_system_instruction src ≡ ok (some out)
    → All IsText (system_texts src)
      × (system_texts src ≢ [])
      × (out
          ≡ ("parts", array (object (("text", str (join "\n\n" (system_texts src))) ∷ []) ∷ []))
            ∷ [])
unfolding build_system_instruction
build_system_instruction-lem src out h =
    let (texts, own, h') = split_chain (collect_system (get "system" src)) _ h in
    let (more, others, h'') = split_chain (collect_messages _) _ h' in
    let a = collect_system-texts _ texts own in
    let b = collect_messages-texts _ more others in
    let all : system_texts src ≡ texts ++ more = rw b (ap (λ x. x ++ more) a) in
    elim (Bool-cases (length (texts ++ more) == 0)) [
      | inl empty ↦ absurd (cc (rw empty at h''))
      | inr full ↦
          let there = rw full at h'' in
          (
            All-texts _ _ (texts_of_value-IsText (get "system" src))
                (texts_of_messages-IsText (or_none (as_array (get "messages" src)))),
            λ none_there. absurd (ground (arith, ap length (sym all ∙ none_there))),
            rw all (cc),
          )
    ]
