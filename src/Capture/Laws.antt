-- ===== src/Capture/Laws.antt =====
-- What pkg/adapter reads of a body, and what it keeps of a stream that it copies.
use mathlib.Core.List.{append_assoc, append-nil}
use aadapter.Base.{
  ℕ, zero, suc, ◌+◌, ◌-◌, ◌%◌, ◌^◌, ◌≤◌, ◌<◌, String, ◌≡◌, refl, ◌∙◌, true, false, Bool-cases,
  Option-cases, Option, none, some, List, [], ◌∷◌, ◌++◌, ltb, leb, length, take, length-append,
  length-take, arith, if◌then◌else◌, ◌==◌, inl, inr, ap, sym, All,
}
use aadapter.Base.Outcome.{ok, fail}
use aadapter.Capture.{
  Body, CappedBuffer, Round, Copy, too_large, read_limited, check_length, read_response_body, write,
  round_end, copy_round, copy_rounds, stream_copy,
}

module _ {ℓ} {A : Type ℓ} where
  read_below :
      (limit : ℕ) (body : Body A)
      → check_length limit (read_limited (limit + 1) body) ≡ (
          if leb (length body.bytes) limit
          then (elim body.error [ none ↦ ok body.bytes | some message ↦ fail message ])
          else fail too_large)
  unfolding read_limited check_length
  read_below limit body = elim (Bool-cases (leb (length body.bytes) limit)) [
    | inl fits ↦
        let under : ltb (length body.bytes) (limit + 1) ≡ true = ground arith in
        let whole : ltb limit (length body.bytes) ≡ false = ground arith in
        elim (Option-cases body.error) [
          | inl clean ↦ rw (fits, under, clean, read_limited, check_length, whole) refl
          | inr (message, e) ↦ rw (fits, under, e, read_limited, check_length) refl
        ]
    | inr long ↦
        let over : ltb (length body.bytes) (limit + 1) ≡ false = ground arith in
        let cut : ltb limit (length (take (limit + 1) body.bytes)) ≡ true =
          ground (arith, length-take (limit + 1) body.bytes) in
        rw (long, over, read_limited, check_length, cut) refl
  ]

  -- Reading with a limit, an int64 that is not negative, is reading all of the body and refusing
  -- what is longer than the limit: a body that is too long is refused even if it would end with an
  -- error, one that is not comes whole, or with its error. But with the largest int64 as the limit,
  -- every body reads as empty, without an error.
  pub read_response_body-lem :
      (limit : ℕ) (body : Body A)
      → limit < 2 ^ 63
      → read_response_body limit body ≡ (
          if limit + 1 == 2 ^ 63
          then ok []
          else if leb (length body.bytes) limit
          then (elim body.error [ none ↦ ok body.bytes | some message ↦ fail message ])
          else fail too_large)
  unfolding read_response_body check_length
  read_response_body-lem limit body bound = elim (Bool-cases (limit + 1 == 2 ^ 63)) [
    | inl largest ↦
        let wraps : ltb ((limit + 1) % 2 ^ 64) (2 ^ 63) ≡ false = ground arith in
        let short : ltb limit 0 ≡ false = ground arith in
        rw (largest, wraps, read_response_body, check_length, short) refl
    | inr below ↦
        let same : (limit + 1) % 2 ^ 64 ≡ limit + 1 = ground arith in
        let fits : ltb (limit + 1) (2 ^ 63) ≡ true = ground arith in
        rw (below, same, read_response_body, fits) (read_below limit body)
  ]

  take-zero : (n : ℕ) (xs : List A) → n ≡ 0 → take n xs ≡ []
  take-zero zero xs e = refl
  take-zero (suc n) xs e = absurd (omega (arith, e))

  take-none : (n : ℕ) → take {A = A} n [] ≡ []
  take-none zero = refl
  take-none (suc n) = refl

  take-append : (n : ℕ) (xs ys : List A) → take n (xs ++ ys) ≡ take n xs ++ take (n - length xs) ys
  take-append n [] ys = rw (take-none n) (ap (λ m. take m ys) (omega arith))
  take-append zero (x ∷ xs) ys = sym (take-zero (0 - suc (length xs)) ys (omega arith))
  take-append (suc n) (x ∷ xs) ys =
      let e : n - length xs ≡ suc n - suc (length xs) = omega arith in
      ap (◌∷◌ x) (take-append n xs ys ∙ ap (λ m. take n xs ++ take m ys) e)

  take-all : (n : ℕ) (xs : List A) → length xs ≤ n → take n xs ≡ xs
  take-all zero [] h = refl
  take-all zero (x ∷ xs) h = absurd (omega (arith, h))
  take-all (suc n) [] h = refl
  take-all (suc n) (x ∷ xs) h = ap (◌∷◌ x) (take-all n xs (omega (arith, h)))

  -- The buffer holds the first `limit` bytes of those written.
  abbrev pub Captures : ℕ → List A → CappedBuffer A → Type ℓ
  Captures limit all b =
      (b.buf ≡ take limit all)
      × (b.remaining ≡ limit - length all)
      × (b.truncated ≡ ltb limit (length all))

  write-Captures :
      (limit : ℕ) (all p : List A) (b : CappedBuffer A)
      → Captures limit all b
      → Captures limit (all ++ p) (write p b)
  unfolding write
  write-Captures limit all p b (buf, remaining, truncated) =
      elim (Bool-cases (ltb b.remaining (length p))) [
        | inl over ↦ rw over (
            (
              rw (buf, remaining) (sym (take-append limit all p)),
              ground (arith, length-append all p, length-take b.remaining p),
              ground (arith, length-append all p),
            ))
        | inr within ↦ rw within (
            (
              rw buf (
                  ap (λ q. take limit all ++ q)
                    (sym (take-all (limit - length all) p (ground arith)))
                  ∙ sym (take-append limit all p)),
              ground (arith, length-append all p),
              ground (arith, length-append all p),
            ))
      ]

  copy_round-Captures :
      (limit : ℕ) (all : List A) (r : Round A) (c : Copy A)
      → r.written ≤ length r.chunk
      → Captures limit all c.captured
      → c.copied ≡ length all
      → Captures limit (all ++ take r.written r.chunk) (copy_round r c).captured
        × ((copy_round r c).copied ≡ length (all ++ take r.written r.chunk))
  unfolding copy_round
  copy_round-Captures limit all r c most captures counted =
      elim (Bool-cases (length r.chunk == 0)) [
        | inl empty ↦
            let nothing : take r.written r.chunk ≡ [] =
              take-zero r.written r.chunk (ground arith) in
            rw (empty, nothing, append-nil) (captures, counted)
        | inr some_bytes ↦ rw some_bytes (
          write-Captures limit all _ c.captured captures,
          omega (
            arith,
            counted,
            most,
            length-append all (take r.written r.chunk),
            length-take r.written r.chunk,
          ),
        )
      ]

  -- What reaches the client: of every round up to the one that ends the loop, what was written.
  abbrev pub relayed : List (Round A) → List A
  relayed [] = []
  relayed (r ∷ rs) =
      take r.written r.chunk ++ (elim (round_end r) [ some e ↦ [] | none ↦ relayed rs ])

  copy_round-ended : (r : Round A) (c : Copy A) → (copy_round r c).ended ≡ round_end r
  unfolding copy_round
  copy_round-ended r c = refl

  copy_rounds-ended :
      (rs : List (Round A)) (c : Copy A) (e : Option String)
      → c.ended ≡ some e
      → copy_rounds rs c ≡ c
  unfolding copy_rounds
  copy_rounds-ended [] c e h = refl
  copy_rounds-ended (r ∷ rs) c e h = simp (h, copy_rounds)

  copy_rounds-Captures :
      (limit : ℕ) (all : List A) (rs : List (Round A)) (c : Copy A)
      → All (λ r. r.written ≤ length r.chunk) rs
      → c.ended ≡ none
      → Captures limit all c.captured
      → c.copied ≡ length all
      → Captures limit (all ++ relayed rs) (copy_rounds rs c).captured
        × ((copy_rounds rs c).copied ≡ length (all ++ relayed rs))
  unfolding copy_rounds
  copy_rounds-Captures limit all [] c most going captures counted =
      rw (append-nil all) (captures, counted)
  copy_rounds-Captures limit all (r ∷ rs) c (one, most) going captures counted =
      let sent = take r.written r.chunk in
      let c' = copy_round r c in
      let (captures', counted') = copy_round-Captures limit all r c one captures counted in
      elim (Option-cases (round_end r)) [
        | inl goes_on ↦
            rw (going, goes_on, copy_rounds, ← append_assoc all sent (relayed rs))
              (copy_rounds-Captures limit (all ++ sent) rs c' most (copy_round-ended r c ∙ goes_on)
                captures' counted')
        | inr (e, ends) ↦
            rw
              (
                going,
                ends,
                copy_rounds,
                append-nil sent,
                copy_rounds-ended rs c' e (copy_round-ended r c ∙ ends),
              )
              (captures', counted')
      ]

  -- However the rounds of a copy go, what the debug capture holds is the beginning of what
  -- reached the client, at most `limit` bytes, marked as cut if and only if more than that was
  -- written; and the count is that of the bytes written. A write takes at most what it is given.
  pub stream_copy-Captures :
      (limit : ℕ) (rounds : List (Round A))
      → All (λ r. r.written ≤ length r.chunk) rounds
      → Captures limit (relayed rounds) (stream_copy limit rounds).captured
        × ((stream_copy limit rounds).copied ≡ length (relayed rounds))
  unfolding stream_copy
  stream_copy-Captures limit rounds most =
      copy_rounds-Captures limit [] rounds _ most refl
        (sym (take-none limit), omega arith, ground arith) refl
