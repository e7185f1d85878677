-- ===== src/Gemini/Contents/Laws.antt =====
-- The turns that `buildGeminiContents` of pkg/adapter/gemini.go makes.
use aadapter.Base.{
  ◌<◌, String, ◌≡◌, ◌≢◌, refl, ◌⊎◌, inl, inr, ◌∙◌, not, Bool-cases, Option-cases, Option, none,
  some, List, [], ◌∷◌, ◌++◌, arith, eq_iff, str_eq, if◌then◌else◌, length, ◌==◌, length-append, ap,
  ◌&&◌,
}
use aadapter.Base.Maps.{Map, get}
use aadapter.Base.Outcome.{Outcome, ok, ◌>>=◌, split_chain}
use aadapter.Json.{Value, Object, as_object, as_array, string_or_empty}
use aadapter.Platform.{Platform}
use aadapter.Gemini.Fold.{fold_supplements}
use aadapter.Gemini.Fold.Laws.{fold_supplements-shape}
use aadapter.Gemini.Contents.{
  Content, note_messages, merge_content, add_content, gemini_role, add_message, add_messages,
  build_contents, convert_content,
}

-- A turn of the user or the model, with at least one part.
abbrev pub IsTurn : Content → Type 0
IsTurn c = ((c.role ≡ "user") ⊎ (c.role ≡ "model")) × (0 < length c.parts)

-- Turns, no two neighbours of which are of one role.
abbrev pub Alternates : List Content → Type 0
Alternates [] = Unit
Alternates (c ∷ []) = IsTurn c
Alternates (c ∷ d ∷ rest) = IsTurn c × (c.role ≢ d.role) × Alternates (d ∷ rest)

abbrev head_role : List Content → Option String
head_role [] = none
head_role (c ∷ cs) = some c.role

abbrev first_role : String → List Content → String
first_role role [] = role
first_role role (c ∷ cs) = c.role

module _ (p : Platform) where
  merge_content-IsTurn :
      (previous c : Content) (parts : List Object)
      → merge_content p previous parts ≡ ok c
      → IsTurn previous
      → 0 < length parts
      → IsTurn c × (c.role ≡ previous.role)
  unfolding merge_content
  merge_content-IsTurn previous c parts h (role, some_parts) more =
      elim (Bool-cases (str_eq previous.role "user")) [
        | inr model ↦
            let e : record previous { parts = previous.parts ++ parts } ≡ c = ground arith in
            rw (← e) ((role, omega (arith, length-append {0} previous.parts parts)), refl)
        | inl user ↦
            let (folded, made, rest) =
              split_chain (fold_supplements p (previous.parts ++ parts)) _
                (rw (user, merge_content) at h) in
            let e : record previous { parts = folded } ≡ c = cc in
            let many : 0 < length folded = elim (fold_supplements-shape p _ folded made) [
              | inl (same, _) ↦ rw same (omega (arith, length-append {0} previous.parts parts))
              | inr (_, _, pos) ↦ pos
            ] in
            rw (← e) ((role, many), refl)
      ]

  cons-Alternates :
      (c : Content) (r : String) (rest : List Content)
      → IsTurn c
      → c.role ≢ r
      → head_role rest ≡ some r
      → Alternates rest
      → Alternates (c ∷ rest)
  cons-Alternates c r [] turn ne h a = turn
  cons-Alternates c r (d ∷ rest) turn ne h a =
      let e : d.role ≡ r = cc in (turn, λ same. ne (same ∙ e), a)

  add_content-Alternates :
      (role : String) (parts : List Object) (cs out : List Content)
      → add_content p role parts cs ≡ ok out
      → (role ≡ "user") ⊎ (role ≡ "model")
      → 0 < length parts
      → Alternates cs
      → Alternates out × (head_role out ≡ some (first_role role cs))
  unfolding add_content
  add_content-Alternates role parts [] out h r pos a =
      let new : Content = record { role = role; parts = parts } in
      let e : new ∷ [] ≡ out = cc in rw (← e) ((r, pos), refl)
  add_content-Alternates role parts (c ∷ []) out h r pos a =
      elim (Bool-cases (str_eq c.role role)) [
        | inl same ↦
            let (c', merged, rest) =
              split_chain (merge_content p c parts) _ (rw (same, add_content) at h) in
            let (turn, keeps) = merge_content-IsTurn c c' parts merged a pos in
            let e : c' ∷ [] ≡ out = cc in rw (← e) (turn, ap some keeps)
        | inr differs ↦
            let new : Content = record { role = role; parts = parts } in
            let e : c ∷ new ∷ [] ≡ out = ground arith in
            rw (← e) ((a, ground (arith, eq_iff c.role role), (r, pos)), refl)
      ]
  add_content-Alternates role parts (c ∷ d ∷ rest) out h r pos (turn, ne, a) =
      let (rest', added, e) = split_chain (add_content p role parts (d ∷ rest)) _ h in
      let (a', first) = add_content-Alternates role parts (d ∷ rest) rest' added r pos a in
      let e' : c ∷ rest' ≡ out = cc in
      rw (← e') (cons-Alternates c d.role rest' turn ne first a', refl)

  gemini_role_cases :
      (role : String) → (gemini_role p role ≡ "user") ⊎ (gemini_role p role ≡ "model")
  gemini_role_cases role = elim (Bool-cases (str_eq role "assistant")) [
    | inl model ↦ inr (rw model refl)
    | inr user ↦ inl (rw user refl)
  ]

  add_parts-Alternates :
      (role : String) (names names' : Map String) (parts : List Object) (cs out : List Content)
      → ◌≡◌ {A = Outcome (Map String × List Content)}
          (if length parts == 0
            then ok (names, cs)
            else add_content p (gemini_role p role) parts cs >>= λ cs'. ok (names, cs'))
          (ok (names', out))
      → Alternates cs
      → Alternates out
  add_parts-Alternates role names names' parts cs out h a = elim (Bool-cases (length parts == 0)) [
    | inl none_new ↦ let e : cs ≡ out = ground arith in rw (← e) a
    | inr some_new ↦
        let (cs', added, e) =
          split_chain (add_content p (gemini_role p role) parts cs) _ (rw some_new at h) in
        let e' : cs' ≡ out = cc in
        rw (← e')
          (add_content-Alternates (gemini_role p role) parts cs cs' added (gemini_role_cases role)
            (ground arith) a).0
  ]

  add_message-Alternates :
      (signatures : Map String) (message : Object) (names names' : Map String)
      (cs out : List Content)
      → add_message p signatures message names cs ≡ ok (names', out)
      → Alternates cs
      → Alternates out
  unfolding add_message
  add_message-Alternates signatures message names names' cs out h a =
      let role = string_or_empty (get "role" message) in
      elim (Bool-cases (str_eq role "system")) [
        | inl system ↦ let e : cs ≡ out = ground arith in rw (← e) a
        | inr other ↦
            elim (Bool-cases (not (str_eq role "assistant") && not (str_eq role "user"))) [
              | inl bad ↦ absurd (ground arith)
              | inr good ↦
                  let ((names1, parts), converted, h1) =
                    split_chain (convert_content p (get "content" message) role names signatures) _
                      (rw (other, good, add_message) at h) in
                  add_parts-Alternates role names1 names' parts cs out h1 a
            ]
      ]

  add_messages-Alternates :
      (signatures : Map String) (messages : List Value) (names : Map String) (cs out : List Content)
      → add_messages p signatures messages names cs ≡ ok out
      → Alternates cs
      → Alternates out
  unfolding add_messages
  add_messages-Alternates signatures [] names cs out h a = let e : cs ≡ out = cc in rw (← e) a
  add_messages-Alternates signatures (raw ∷ rest) names cs out h a =
      elim (Option-cases (as_object (some raw))) [
        | inl other ↦ absurd (cc (rw (other, add_messages) at h))
        | inr (message, is) ↦
            let ((names', cs'), one, later) =
              split_chain (add_message p signatures message names cs) _
                (rw (is, add_messages) at h) in
            add_messages-Alternates signatures rest names' cs' out later
              (add_message-Alternates signatures message names names' cs cs' one a)
      ]

  -- The contents of a request alternate between the roles `user` and `model`, each with at least
  -- one part, whatever sequence of messages they are made from.
  pub build_contents-Alternates :
      (src : Object) (signatures : Map String) (out : List Content)
      → build_contents p src signatures ≡ ok out
      → Alternates out
  unfolding build_contents
  build_contents-Alternates src signatures out h =
      elim (Option-cases (as_array (get "messages" src))) [
        | inl other ↦ absurd (cc (rw (other, build_contents) at h))
        | inr (messages, is) ↦
            let ((names, merged), noted, rest) =
              split_chain (note_messages p messages ([], signatures)) _
                (rw (is, build_contents) at h) in
            add_messages-Alternates merged messages names [] out rest tt
      ]
