-- ===== src/Gemini/Fold/Laws.antt =====
-- The shape of what `foldGeminiFunctionResponseSupplements` of pkg/adapter/gemini.go returns.
use mathlib.Core.List.{append-nil, append_assoc}
use aadapter.Base.{
  ℕ, ◌+◌, ◌<◌, ◌≡◌, refl, ◌⊎◌, inl, inr, ◌∙◌, Bool, true, false, Option-cases, none, some, List, [],
  ◌∷◌, ◌++◌, arith, if◌then◌else◌, length, All, ltb, length-append, sym,
}
use aadapter.Base.Maps.{get, put, get-put}
use aadapter.Base.Outcome.{ok, split_chain}
use aadapter.Json.{Value, Object, object, as_object}
use aadapter.Platform.{Platform}
use aadapter.Gemini.Fold.{
  Folding, no_parts, closed, result, fold_response, supplement, fold_other, fold_part, fold_from,
  fold_supplements,
}

abbrev pub is_response : Object → Bool
is_response part = elim (get "functionResponse" part) [ some _ ↦ true | none ↦ false ]

-- How many of the parts are tool results.
abbrev pub count_responses : List Object → ℕ
count_responses [] = 0
count_responses (part ∷ rest) = (if is_response part then 1 else 0) + count_responses rest

count-append :
    (xs ys : List Object) → count_responses (xs ++ ys) ≡ count_responses xs + count_responses ys
count-append [] ys = omega arith
count-append (x ∷ xs) ys = omega (arith, count-append xs ys)

abbrev IsResponse : Object → Type 0
IsResponse part = is_response part ≡ true

All-append :
    (xs ys : List Object) → All IsResponse xs → All IsResponse ys → All IsResponse (xs ++ ys)
All-append [] ys a b = b
All-append (x ∷ xs) ys a b = (a.0, All-append xs ys a.1 b)

-- What holds of the loop once the parts of `done` are behind it.
abbrev Folded : List Object → Folding → Type 0
Folded done f =
    ((f.last ≡ none) × (f.folded ≡ done) × (count_responses done ≡ 0))
    ⊎ ((l : Object × Object) × (f.last ≡ some l)
        × All IsResponse f.folded
        × (length f.folded + 1 ≡ count_responses done))

is_response-put : (v : Value) (part : Object) → is_response (put "functionResponse" v part) ≡ true
is_response-put v part = ground (arith, get-put "functionResponse" "functionResponse" v part)

closed-IsResponse : (l : Object × Object) → All IsResponse (closed (some l))
closed-IsResponse (part, response) = (is_response-put (object response) part, tt)

count-snoc :
    (done : List Object) (part : Object) (b : Bool)
    → is_response part ≡ b
    → count_responses (done ++ part ∷ []) ≡ count_responses done + (if b then 1 else 0)
count-snoc done part b e = rw (count-append, e) (omega arith)

empty_of_length : (l : List Object) → ltb 0 (length l) ≡ false → l ≡ []
empty_of_length [] h = refl
empty_of_length (x ∷ l) h = absurd (ground arith)

fold_response-first :
    (done : List Object) (part : Object) (raw : Value) (f f' : Folding)
    → is_response part ≡ true
    → fold_response part raw f ≡ ok f'
    → f.last ≡ none
    → f.folded ≡ done
    → Folded (done ++ part ∷ []) f'
unfolding fold_response
fold_response-first done part raw f f' is h fresh same =
    elim (Option-cases (as_object (some raw))) [
      | inl other ↦ absurd (ground arith)
      | inr (response, o) ↦
          let empty : f.folded ≡ [] = empty_of_length f.folded (ground arith) in
          let e : record f { last = some (part, response) } ≡ f' = ground arith in
          let none_done : done ≡ [] = sym same ∙ empty in
          rw (← e)
            (inr ((part, response), refl, rw empty tt, rw (empty, none_done, is) (omega arith)))
    ]

fold_response-next :
    (done : List Object) (part : Object) (raw : Value) (f f' : Folding) (l : Object × Object)
    → is_response part ≡ true
    → fold_response part raw f ≡ ok f'
    → f.last ≡ some l
    → All IsResponse f.folded
    → length f.folded + 1 ≡ count_responses done
    → Folded (done ++ part ∷ []) f'
unfolding fold_response
fold_response-next done part raw f f' l is h there responses many =
    elim (Option-cases (as_object (some raw))) [
      | inl other ↦ absurd (ground arith)
      | inr (response, o) ↦
          let e : record f { folded = result f; last = some (part, response) } ≡ f' =
            ground arith in
          rw (← e) (
            inr (
              (part, response),
              refl,
              rw there (All-append f.folded (closed (some l)) responses (closed-IsResponse l)),
              rw (there, count-snoc done part true is)
                  (omega (arith, length-append {0} f.folded (closed (some l)))),
            ))
    ]

module _ (p : Platform) where
  fold_other-Folded :
      (done : List Object) (part : Object) (f f' : Folding)
      → is_response part ≡ false
      → fold_other p part f ≡ ok f'
      → Folded done f
      → Folded (done ++ part ∷ []) f'
  unfolding fold_other
  fold_other-Folded done part f f' isnt h (inl (fresh, same, zero_so_far)) =
      let e : record f { folded = f.folded ++ part ∷ [] } ≡ f' = ground arith in
      rw (← e) (inl (fresh, rw same, rw (count-snoc done part false isnt) (omega arith)))
  fold_other-Folded done part f f' isnt h (inr ((last, response), there, responses, many)) =
      let (response', supplemented, rest) =
        split_chain (supplement p part response) _ (rw (there, fold_other) at h) in
      let e : record f { last = some (last, response'); seen_supplement = true } ≡ f' =
        ground arith in
      rw (← e) (
        inr
          ((last, response'), refl, responses, rw (count-snoc done part false isnt) (omega arith)))

  fold_part-Folded :
      (done : List Object) (part : Object) (f f' : Folding)
      → fold_part p part f ≡ ok f'
      → Folded done f
      → Folded (done ++ part ∷ []) f'
  unfolding fold_part
  fold_part-Folded done part f f' h inv = elim (Option-cases (get "functionResponse" part)) [
    | inl isnt ↦ fold_other-Folded done part f f' (ground arith) (rw (isnt, fold_part) at h) inv
    | inr (raw, is) ↦ elim inv [
      | inl (fresh, same, _) ↦
          fold_response-first done part raw f f' (ground arith) (rw (is, fold_part) at h) fresh same
      | inr (l, there, responses, many) ↦
          fold_response-next done part raw f f' l (ground arith) (rw (is, fold_part) at h) there
            responses many
    ]
  ]

  fold_from-Folded :
      (done parts : List Object) (f f' : Folding)
      → fold_from p parts f ≡ ok f'
      → Folded done f
      → Folded (done ++ parts) f'
  unfolding fold_from
  fold_from-Folded done [] f f' h inv = let e : f ≡ f' = ground arith in rw (append-nil, ← e) inv
  fold_from-Folded done (part ∷ parts) f f' h inv =
      let (g, one, rest) = split_chain (fold_part p part f) _ h in
      rw (append_assoc done (part ∷ []) parts) at (
        fold_from-Folded (done ++ part ∷ []) parts g f' rest
          (fold_part-Folded done part f g one inv))

  -- What is folded is either the parts as they were, with no tool result among them, or tool
  -- results alone, as many as there were and at least one: nothing follows or separates them.
  pub fold_supplements-shape :
      (parts out : List Object)
      → fold_supplements p parts ≡ ok out
      → ((out ≡ parts) × (count_responses parts ≡ 0))
        ⊎ (All (λ part. is_response part ≡ true) out
            × (length out ≡ count_responses parts)
            × (0 < length out))
  unfolding fold_supplements
  fold_supplements-shape parts out h =
      let (f, folded, e) = split_chain (fold_from p parts no_parts) _ h in
      let e' : result f ≡ out = cc in
      elim (fold_from-Folded [] parts no_parts f folded (inl (refl, refl, refl))) [
        | inl (fresh, same, nothing) ↦ inl (sym e' ∙ rw (fresh, same) (append-nil parts), nothing)
        | inr (l, there, responses, many) ↦
            rw (← e', there)
              (inr (
                All-append f.folded (closed (some l)) responses (closed-IsResponse l),
                omega (arith, length-append {0} f.folded (closed (some l))),
                omega (arith, length-append {0} f.folded (closed (some l))),
              ))
      ]
