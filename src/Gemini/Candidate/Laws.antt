-- ===== src/Gemini/Candidate/Laws.antt =====
-- What the check of a candidate in pkg/adapter/gemini.go guarantees.
use aadapter.Base.{
  ◌≡◌, ◌≢◌, ◌⊎◌, refl, inl, inr, Option-cases, Option, none, some, List, [], ◌∷◌, arith, eq_iff,
  All,
}
use aadapter.Base.Maps.{get}
use aadapter.Base.Outcome.{ok, split_chain}
use aadapter.Json.{Value, Object, as_object, as_array, string_or_empty}
use aadapter.Gemini.Candidate.{
  check_call, check_function_call, check_text, validate_parts, validate_content, validate_candidate,
}

-- A part without a call, or with one that has a name.
abbrev pub IsNamed : Value → Type 0
IsNamed raw =
    (part : Object) × (as_object (some raw) ≡ some part)
    × ((get "functionCall" part ≡ none)
        ⊎ ((call : Object) × (as_object (get "functionCall" part) ≡ some call)
            × (string_or_empty (get "name" call) ≢ "")))

check_function_call-named :
    (value : Option Value)
    → check_function_call value ≡ ok tt
    → (value ≡ none)
      ⊎ ((call : Object) × (as_object value ≡ some call) × (string_or_empty (get "name" call) ≢ ""))
unfolding check_function_call check_call
check_function_call-named none h = inl refl
check_function_call-named (some value) h = elim (Option-cases (as_object (some value))) [
  | inl other ↦ absurd (cc (rw (other, check_function_call) at h))
  | inr (call, is) ↦
      let checked = rw (is, check_function_call) at h in
      inr (call, is, λ e. ground (arith, eq_iff (string_or_empty (get "name" call)) ""))
]

validate_parts-IsNamed : (parts : List Value) → validate_parts parts ≡ ok tt → All IsNamed parts
unfolding validate_parts
validate_parts-IsNamed [] h = tt
validate_parts-IsNamed (raw ∷ rest) h = elim (Option-cases (as_object (some raw))) [
  | inl other ↦ absurd (cc (rw (other, validate_parts) at h))
  | inr (part, is) ↦
      let (_, _, h1) =
        split_chain (check_text (get "text" part)) _ (rw (is, validate_parts) at h) in
      let (_, checked, h2) = split_chain (check_function_call (get "functionCall" part)) _ h1 in
      (
        (part, is, check_function_call-named (get "functionCall" part) checked),
        validate_parts-IsNamed rest h2,
      )
]

validate_content-IsNamed :
    (content : Object) (parts : List Value)
    → validate_content content ≡ ok tt
    → as_array (get "parts" content) ≡ some parts
    → All IsNamed parts
unfolding validate_content
validate_content-IsNamed content parts h there = elim (Option-cases (get "parts" content)) [
  | inl missing ↦ absurd (cc (rw missing at there))
  | inr (raw, given) ↦
      let there' = rw given at there in
      validate_parts-IsNamed parts (rw (given, there', validate_content) at h)
]

-- Every part of a candidate that passes the check is an object, and every call of a function in
-- it has a name that is not empty.
pub validate_candidate-IsNamed :
    (candidate content : Object) (parts : List Value)
    → validate_candidate candidate ≡ ok tt
    → as_object (get "content" candidate) ≡ some content
    → as_array (get "parts" content) ≡ some parts
    → All IsNamed parts
unfolding validate_candidate
validate_candidate-IsNamed candidate content parts h is there =
    elim (Option-cases (get "content" candidate)) [
      | inl missing ↦ absurd (cc (rw missing at is))
      | inr (raw, given) ↦
          let is' = rw given at is in
          validate_content-IsNamed content parts (rw (given, is', validate_candidate) at h) there
    ]
