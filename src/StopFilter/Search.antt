-- ===== src/StopFilter/Search.antt =====
-- `strings.HasPrefix` and `strings.Index` on a text in two parts, as `Feed` of
-- pkg/adapter/gemini.go sees it: what was shown before, and what it still holds.
use aadapter.Base.{
  ℕ, suc, ◌+◌, ◌≡◌, refl, ◌≢◌, ◌⊎◌, inl, inr, Bool, true, false, Option, none, some, List, [], ◌∷◌,
  ◌++◌, arith, Bool-cases, Option-cases, length, All, ltb, sym, ◌∙◌,
}
use mathlib.Core.Option
use aadapter.StopFilter.{starts_with, index, closer, earliest_from, earliest_stop, is_empty}

-- No `s` begins in `shown`, whatever comes after `held`.
abbrev pub Clean {ℓ} : {A : Type ℓ} → (A → A → Bool) → List A → List A → List A → Type ℓ
Clean same s [] held = Unit
Clean {A} same s (x ∷ shown) held =
    ((t : List A) → starts_with same (x ∷ shown ++ (held ++ t)) s ≡ false) × Clean same s shown held

abbrev pub CleanOf {ℓ} : {A : Type ℓ} → (A → A → Bool) → List A → List A → List A → Type ℓ
CleanOf same shown held s = (is_empty s ≡ true) ⊎ Clean same s shown held

-- The index in the whole text, and the match, from those in the last part of it.
abbrev pub shift {ℓ} : {A : Type ℓ} → ℕ → Option (ℕ × List A) → Option (ℕ × List A)
shift n none = none
shift n (some (i, matched)) = some (n + i, matched)

map-zero_add : (o : Option ℕ) → o ≡ Option.map (λ i. 0 + i) o
map-zero_add o = ground arith

map-suc :
    (n : ℕ) (o : Option ℕ)
    → Option.map suc (Option.map (λ i. n + i) o) ≡ Option.map (λ i. suc n + i) o
map-suc n o = ground arith

module _ {ℓ} {A : Type ℓ} (same : A → A → Bool) where
  index-Clean :
      (s shown held t : List A)
      → Clean same s shown held
      → index same (shown ++ (held ++ t)) s
        ≡ Option.map (λ i. length shown + i) (index same (held ++ t) s)
  unfolding index
  index-Clean s [] held t c = map-zero_add (index same (held ++ t) s)
  index-Clean s (x ∷ shown) held t c =
      rw (c.0 t, index-Clean s shown held t c.1) (map-suc (length shown) (index same (held ++ t) s))

  closer-shift :
      (n : ℕ) (s : List A) (i : Option ℕ) (best : Option (ℕ × List A))
      → closer s (Option.map (λ k. n + k) i) (shift n best) ≡ shift n (closer s i best)
  unfolding closer
  closer-shift n s i best = ground arith

  earliest_from-Clean :
      (sequences : List (List A)) (shown held t : List A) (best : Option (ℕ × List A))
      → All (CleanOf same shown held) sequences
      → earliest_from same (shown ++ (held ++ t)) (shift (length shown) best) sequences
        ≡ shift (length shown) (earliest_from same (held ++ t) best sequences)
  unfolding earliest_from
  earliest_from-Clean [] shown held t best c = refl
  earliest_from-Clean (s ∷ rest) shown held t best (c, cs) = elim (Bool-cases (is_empty s)) [
    | inl empty ↦ rw empty (earliest_from-Clean rest shown held t best cs)
    | inr full ↦ elim c [
      | inl empty ↦ absurd (both (sym full ∙ empty))
      | inr clean ↦
          rw (full, index-Clean s shown held t clean, closer-shift)
            (earliest_from-Clean rest shown held t _ cs)
    ]
  ]
    where
      both : ¬ (◌≡◌ {A = Bool} false true)
      both e = cc

  -- Where nothing can begin in what was shown, the search in the whole text is the search in the
  -- rest of it.
  pub earliest_stop-Clean :
      (sequences : List (List A)) (shown held t : List A)
      → All (CleanOf same shown held) sequences
      → earliest_stop same (shown ++ (held ++ t)) sequences
        ≡ shift (length shown) (earliest_stop same (held ++ t) sequences)
  unfolding earliest_stop
  earliest_stop-Clean sequences shown held t c = earliest_from-Clean sequences shown held t none c

  -- A search without a match meets no match anywhere.
  pub index-none :
      (s before rest : List A)
      → index same (before ++ rest) s ≡ none
      → starts_with same rest s ≡ false
  unfolding index
  index-none s [] [] h = ground arith
  index-none s [] (x ∷ rest) h = ground arith
  index-none s (x ∷ before) rest h = index-none s before rest (ground arith)

  closer-some :
      (s : List A) (i : Option ℕ) (b : ℕ × List A)
      → (c : ℕ × List A) × (closer s i (some b) ≡ some c)
  unfolding closer
  closer-some s none b = (b, refl)
  closer-some s (some i) (best, matched) = elim (Bool-cases (ltb i best)) [
    | inl less ↦ ((i, s), rw less)
    | inr more ↦ ((best, matched), rw more)
  ]

  earliest_from-some :
      (sequences : List (List A)) (text : List A) (b : ℕ × List A)
      → earliest_from same text (some b) sequences ≢ none
  unfolding earliest_from
  earliest_from-some [] text b h = cc
  earliest_from-some (s ∷ rest) text b h = elim (Bool-cases (is_empty s)) [
    | inl empty ↦ earliest_from-some rest text b (rw empty at h)
    | inr full ↦
        let (c, e) = closer-some s (index same text s) b in
        earliest_from-some rest text c (rw (full, e) at h)
  ]

  -- Without a match every sequence that is not empty is absent.
  pub earliest_from-none :
      (sequences : List (List A)) (text : List A)
      → earliest_from same text none sequences ≡ none
      → All (λ s. (is_empty s ≡ true) ⊎ (index same text s ≡ none)) sequences
  unfolding earliest_from closer
  earliest_from-none [] text h = tt
  earliest_from-none (s ∷ rest) text h = elim (Bool-cases (is_empty s)) [
    | inl empty ↦ (inl empty, earliest_from-none rest text (rw empty at h))
    | inr full ↦ elim (Option-cases (index same text s)) [
      | inl absent ↦ (inr absent, earliest_from-none rest text (rw (full, absent) at h))
      | inr (i, found) ↦ absurd (earliest_from-some rest text (i, s) (rw (full, found) at h))
    ]
  ]
