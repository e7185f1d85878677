-- ===== src/StopFilter/Keep.antt =====
-- What `Feed` of pkg/adapter/gemini.go holds back: the longest end of the text with which a stop
-- sequence could begin.
use aadapter.Base.{
  ℕ, suc, zero, ◌+◌, ◌-◌, ◌<◌, ◌≤◌, ◌≡◌, refl, ◌↔◌, ◌⊎◌, inl, inr, Bool, true, false, ◌&&◌, none,
  List, [], ◌∷◌, ◌++◌, arith, Bool-cases, if◌then◌else◌, length, take, drop, ap, All, ltb, leb, sym,
  ◌∙◌, length-take, length-append, take-append-drop, length-drop, min,
}
use mathlib.Core.List.{append_assoc}
use aadapter.StopFilter.{starts_with, index, has_suffix, keep_lengths, keep_sequences, is_empty}
use aadapter.StopFilter.Search.{Clean, CleanOf, index-none}

module _ {ℓ} {A : Type ℓ} where
  drop-append : (xs ys : List A) → drop (length xs) (xs ++ ys) ≡ ys
  drop-append [] ys = refl
  drop-append (x ∷ xs) ys = drop-append xs ys

  take-le : (n : ℕ) (xs : List A) → n ≤ length xs → length (take n xs) ≡ n
  take-le n xs h = omega (arith, length-take {ℓ} n xs)

module _ {ℓ} {A : Type ℓ} (same : A → A → Bool)
    (same_iff : (a b : A) → (same a b ≡ true) ↔ (a ≡ b)) where
  starts_with_refl : (s : List A) → starts_with same s s ≡ true
  unfolding starts_with
  starts_with_refl [] = refl
  starts_with_refl (x ∷ s) = rw ((same_iff x x).1 refl) (starts_with_refl s)

  has_suffix-append : (xs ys : List A) → has_suffix same (xs ++ ys) ys ≡ true
  unfolding has_suffix
  has_suffix-append xs ys =
      let e : length (xs ++ ys) - length ys ≡ length xs = omega (arith, length-append {ℓ} xs ys) in
      let l : leb (length ys) (length (xs ++ ys)) ≡ true = ground (arith, length-append xs ys) in
      rw (l, e, drop-append, starts_with_refl)

  -- A match that goes on past `d` begins in it with a proper part of `s`.
  starts_with-append_cases :
      (d t s : List A)
      → starts_with same (d ++ t) s ≡ true
      → (starts_with same d s ≡ true) ⊎ ((length d < length s) × (take (length d) s ≡ d))
  unfolding starts_with
  starts_with-append_cases [] t [] h = inl refl
  starts_with-append_cases [] t (p ∷ s) h = inr (omega arith, refl)
  starts_with-append_cases (x ∷ d) t [] h = inl refl
  starts_with-append_cases (x ∷ d) t (p ∷ s) h =
      let e : same x p ≡ true = ground arith in
      elim (starts_with-append_cases d t s (ground arith)) [
        | inl all ↦ inl (rw (e, all))
        | inr (short, part) ↦ inr (omega arith, cc ((same_iff x p).0 e, part))
      ]

  keep_here :
      (len : ℕ) (c s : List A) (keep l : ℕ)
      → l ≡ len
      → has_suffix same c (take l s) ≡ true
      → l ≤ (if has_suffix same c (take len s) && ltb keep len then len else keep)
  keep_here len c s keep l e h =
      let h' : has_suffix same c (take len s) ≡ true = rw (← e) h in rw (h', e) (ground arith)

  keep_lengths_max :
      (rounds len : ℕ) (c s : List A) (keep : ℕ)
      → (keep ≤ keep_lengths same rounds len c s keep)
        × ((l : ℕ)
            → len ≤ l
            → l < len + rounds
            → has_suffix same c (take l s) ≡ true
            → l ≤ keep_lengths same rounds len c s keep)
  unfolding keep_lengths
  keep_lengths_max zero len c s keep = (omega arith, λ l a b h. absurd (omega arith))
  keep_lengths_max (suc rounds) len c s keep =
      let next : ℕ = if has_suffix same c (take len s) && ltb keep len then len else keep in
      let (grows, most) = keep_lengths_max rounds (suc len) c s next in
      let step : keep ≤ next = ground arith in
      (
        omega arith,
        λ l a b h. elim (Bool-cases (leb l len)) [
          | inl here ↦
              let e : l ≡ len = ground arith in
              let now : l ≤ next = keep_here len c s keep l e h in omega arith
          | inr later ↦ most l (ground arith) (omega arith) h
        ],
      )

  keep_lengths_le :
      (rounds len : ℕ) (c s : List A) (keep : ℕ)
      → keep ≤ length c
      → len + rounds ≤ length c + 1
      → keep_lengths same rounds len c s keep ≤ length c
  unfolding keep_lengths
  keep_lengths_le zero len c s keep h b = h
  keep_lengths_le (suc rounds) len c s keep h b =
      keep_lengths_le rounds (suc len) c s _ (ground arith) (omega arith)

  -- No end of `c` that a proper beginning of `s` matches is longer than `k`.
  abbrev pub Covers : List A → ℕ → List A → Type 0
  Covers c k s =
      (l : ℕ) → 1 ≤ l → l < length s → l ≤ length c → has_suffix same c (take l s) ≡ true → l ≤ k

  pub keep_sequences_max :
      (c : List A) (sequences : List (List A)) (keep : ℕ)
      → keep ≤ length c
      → (keep ≤ keep_sequences same c sequences keep)
        × (keep_sequences same c sequences keep ≤ length c)
        × All (Covers c (keep_sequences same c sequences keep)) sequences
  unfolding keep_sequences
  keep_sequences_max c [] keep h = (omega arith, h, tt)
  keep_sequences_max c (s ∷ rest) keep h =
      let rounds = min (length s - 1) (length c) in
      let next = keep_lengths same rounds 1 c s keep in
      let (grows, most) = keep_lengths_max rounds 1 c s keep in
      let fits = keep_lengths_le rounds 1 c s keep h (omega arith) in
      let (grows', fits', covers) = keep_sequences_max c rest next fits in
      (
        omega arith,
        fits',
        (λ l a b d e. let covered = most l a (omega arith) e in omega arith, covers),
      )

  no_start :
      (c s : List A) (k : ℕ)
      → index same c s ≡ none
      → Covers c k s
      → (b d : List A) → b ++ d ≡ c
      → k < length d
      → (t : List A) → starts_with same (d ++ t) s ≡ false
  no_start c s k absent covers b d e longer t = elim (Bool-cases (starts_with same (d ++ t) s)) [
    | inr no_match ↦ no_match
    | inl starts ↦ elim (starts_with-append_cases d t s starts) [
      | inl all ↦ absurd (both (sym all ∙ index-none same s b d (rw e absent)))
      | inr (short, part) ↦
          let ends : has_suffix same c (take (length d) s) ≡ true =
            rw (part, ← e) (has_suffix-append b d) in
          let sum = length-append b d in
          absurd (
            omega
              (arith, covers (length d) (omega arith) short (omega (arith, sum, ap length e)) ends))
    ]
  ]
    where
      both : ¬ (◌≡◌ {A = Bool} true false)
      both e = cc

  Clean-split :
      (s o p : List A)
      → ((b d : List A)
          → b ++ d ≡ o ++ p
          → length p < length d
          → (t : List A) → starts_with same (d ++ t) s ≡ false)
      → Clean same s o p
  Clean-split s [] p h = tt
  Clean-split s (x ∷ o) p h = (
    λ t. rw (← append_assoc) (h [] (x ∷ o ++ p) refl (omega (arith, length-append o p)) t),
    Clean-split s o p (λ b d e. h (x ∷ b) d (ap (◌∷◌ x) e)),
  )

  Clean-append :
      (s shown o p : List A)
      → Clean same s shown (o ++ p)
      → Clean same s o p
      → Clean same s (shown ++ o) p
  Clean-append s [] o p c d = d
  Clean-append s (x ∷ shown) o p (c, cs) d =
      (λ t. simp append_assoc (simp append_assoc at (c t)), Clean-append s shown o p cs d)

  Clean-more : (s shown held t : List A) → Clean same s shown held → Clean same s shown (held ++ t)
  Clean-more s [] held t c = tt
  Clean-more s (x ∷ shown) held t (c, cs) =
      (λ u. simp append_assoc (c (t ++ u)), Clean-more s shown held t cs)

  -- After the search has found nothing, no sequence begins in what `Feed` shows.
  pub feed-CleanOf :
      (sequences : List (List A)) (shown held t : List A) (k : ℕ)
      → k ≤ length (held ++ t)
      → All (CleanOf same shown held) sequences
      → All (λ s. (is_empty s ≡ true) ⊎ (index same (held ++ t) s ≡ none)) sequences
      → All (Covers (held ++ t) k) sequences
      → All
          (CleanOf same
            (shown ++ take (length (held ++ t) - k) (held ++ t))
            (drop (length (held ++ t) - k) (held ++ t)))
          sequences
  feed-CleanOf [] shown held t k fits clean absent covers = tt
  feed-CleanOf (s ∷ rest) shown held t k fits (c, cs) (a, as') (v, vs) =
      (one c a, feed-CleanOf rest shown held t k fits cs as' vs)
    where
      one :
          CleanOf same shown held s
          → (is_empty s ≡ true) ⊎ (index same (held ++ t) s ≡ none)
          → CleanOf same
              (shown ++ take (length (held ++ t) - k) (held ++ t))
              (drop (length (held ++ t) - k) (held ++ t))
              s
      one (inl empty) a = inl empty
      one (inr clean) (inl empty) = inl empty
      one (inr clean) (inr absent) =
          let c = held ++ t in
          let n = length c - k in
          let whole = take-append-drop n c in
          let rest_length : length (drop n c) ≡ k = omega (arith, length-drop n c) in
          inr (
            Clean-append s shown (take n c) (drop n c) (rw whole (Clean-more s shown held t clean))
              (Clean-split s (take n c) (drop n c) (λ b d e longer u.
                no_start c s k absent v b d (e ∙ whole) (rw rest_length at longer) u)))
