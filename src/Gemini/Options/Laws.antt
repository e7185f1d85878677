-- ===== src/Gemini/Options/Laws.antt =====
-- What the generation config of pkg/adapter/gemini.go holds for each model.
use aadapter.Base.{
  String, ◌≡◌, refl, inl, inr, Bool, ◌||◌, Option-cases, Option, none, some, [], ◌∷◌, arith, str_eq,
  if◌then◌else◌,
}
use aadapter.Base.Maps.{get, get-put}
use aadapter.Base.Outcome.{Outcome}
use aadapter.Json.{Value, Object, object, str, copy_field}

-- The value of the first option that has one.
abbrev pub or_else {ℓ} : {A : Type ℓ} → Option A → Option A → Option A
or_else (some a) o = some a
or_else none o = o

get-copy_field :
    (src dst : Object) (from to j : String)
    → get j (copy_field src dst from to)
      ≡ (if str_eq to j then or_else (get from src) (get j dst) else get j dst)
unfolding copy_field
get-copy_field src dst from to j = elim (Option-cases (get from src)) [
  | inl missing ↦ rw (missing, copy_field) (ground arith)
  | inr (v, there) ↦ rw (there, copy_field, get-put) (ground arith)
]

-- A read from the config that the request gets, if it gets one.
abbrev pub read : Option Object → String → Option Value
read none key = none
read (some cfg) key = get key cfg

pub or_else-none {ℓ} : {A : Type ℓ} (o : Option A) → or_else o none ≡ o
or_else-none none = refl
or_else-none (some a) = refl

-- What the config holds under each key, by the tests for 3.6 and 3.5.
pub record CopiesFor (src : Object) (is_36 is_35 : Bool) (out : String → Option Value)
    : Type 0 where
  pub max_tokens : out "maxOutputTokens" ≡ get "max_tokens" src
  pub temperature : out "temperature" ≡ (if is_36 then none else get "temperature" src)
  pub top_p : out "topP" ≡ (if is_36 then none else get "top_p" src)
  pub top_k : out "topK" ≡ (if is_35 || is_36 then none else get "top_k" src)
  pub stop_sequences :
      out "stopSequences" ≡ (if is_35 || is_36 then none else get "stop_sequences" src)

get-nil : (k : String) → get {V = Value} k [] ≡ none
unfolding get
get-nil k = refl

ruleset copies = (get-copy_field, or_else-none, get-put, get-nil)

level_is : Option String → Option Value
level_is none = none
level_is (some level) = some (object (("thinkingLevel", str level) ∷ []))
