-- ===== src/Tokens/Laws.antt =====
-- Which tokens the calls of pkg/adapter/token_provider.go return.
use aadapter.Base.{
  ap, sym, ◌∙◌, ℕ, zero, suc, ◌≤◌, ◌<◌, String, ◌++ₛ◌, ◌≡◌, ◌≢◌, refl, ◌⊎◌, inl, inr, Option-cases,
  Option, none, some, List, [], ◌∷◌, ◌++◌, arith, eq_iff, All,
}
use aadapter.Base.Outcome.{Outcome, ok, fail, split_chain, Outcome-cases}
use aadapter.Tokens.{
  TokenProvider, AuthResponse, Answer, Pool, new_pool, Event, get_call, reject_call, ask, receive,
  cancel, finish, Returns, all_return, only, nth, check_bearer, select_result, step, run, is_fresh,
  get_bearer_token, refresh_after_rejection, check_status, check_id_token, refresh, refreshed,
}

-- The token of an answer that was accepted: a 2xx status, and an id token that is not empty.
abbrev pub Issues : String → Event → Type 0
Issues t (finish now (ok answer)) =
    (200 ≤ answer.status)
    × (answer.status < 300)
    × (parsed : AuthResponse) × (answer.body ≡ ok parsed)
    × (parsed.id_token ≢ "")
    × (t ≡ "Bearer " ++ₛ parsed.id_token)
Issues t _ = ⊥

abbrev pub Exists {ℓ} : {A : Type ℓ} → (A → Type 0) → List A → Type 0
Exists Holds [] = ⊥
Exists Holds (a ∷ l) = Holds a ⊎ Exists Holds l

-- What a call returned is a token with the property, or an error.
abbrev pub ReturnsToken : (String → Type 0) → Outcome String → Type 0
ReturnsToken Holds (ok t) = Holds t
ReturnsToken Holds (fail message) = Unit

-- The token of the provider, if it has one, and those of the results have the property.
abbrev Clean : (String → Type 0) → Pool → Type 0
Clean Holds pool =
    ((pool.provider.bearer ≡ "") ⊎ Holds pool.provider.bearer)
    × All (ReturnsToken Holds) pool.results

abbrev Keeps : (String → Type 0) → Pool × Returns → Type 0
Keeps Holds (pool, returns) = Clean Holds pool × All (λ r. ReturnsToken Holds r.1) returns

abbrev bearer_of : Outcome (TokenProvider × String) → String
bearer_of (ok (p, token)) = p.bearer
bearer_of (fail message) = message

abbrev token_of : Outcome (TokenProvider × String) → String
token_of (ok (p, token)) = token
token_of (fail message) = message

module _ (decimal : ℕ → String) where
  refresh-Issues :
      (now : ℕ) (answered : Outcome Answer) (p : TokenProvider) (token : String)
      → refresh decimal now answered ≡ ok (p, token)
      → (p.bearer ≡ token) × Issues token (finish now answered)
  unfolding refresh check_status check_id_token
  refresh-Issues now (fail message) p token h = absurd (cc)
  refresh-Issues now (ok answer) p token h =
      let (_, status, h1) = split_chain (check_status decimal answer.status) _ h in
      let (parsed, body, h2) = split_chain answer.body _ h1 in
      let (_, id_token, h3) = split_chain (check_id_token parsed) _ h2 in
      let e : p.bearer ≡ "Bearer " ++ₛ parsed.id_token = sym (ap bearer_of h3) in
      let e' : token ≡ "Bearer " ++ₛ parsed.id_token = sym (ap token_of h3) in
      (
        e ∙ sym e',
        (
          ground arith,
          ground arith,
          parsed,
          body,
          λ empty. ground (arith, eq_iff parsed.id_token ""),
          e',
        ),
      )

  module _ (Holds : String → Type 0) where
    all_return-ReturnsToken :
        (r : Outcome String) (ids : List ℕ)
        → ReturnsToken Holds r
        → All (λ s. ReturnsToken Holds s.1) (all_return r ids)
    all_return-ReturnsToken r [] h = tt
    all_return-ReturnsToken r (i ∷ ids) h = (h, all_return-ReturnsToken r ids h)

    append-ReturnsToken :
        (rs ss : Returns)
        → All (λ r. ReturnsToken Holds r.1) rs
        → All (λ r. ReturnsToken Holds r.1) ss
        → All (λ r. ReturnsToken Holds r.1) (rs ++ ss)
    append-ReturnsToken [] ss a b = b
    append-ReturnsToken (r ∷ rs) ss (h, a) b = (h, append-ReturnsToken rs ss a b)

    check_bearer-Keeps :
        (id : ℕ) (token : Option String) (pool : Pool)
        → ((t : String) → token ≡ some t → (t ≡ pool.provider.bearer) × (t ≢ ""))
        → Clean Holds pool
        → Keeps Holds (check_bearer id token pool)
    unfolding check_bearer
    check_bearer-Keeps id none pool own k = (k, tt)
    check_bearer-Keeps id (some t) pool own k =
        let (same, full) = own t refl in
        let h : Holds t = elim k.0 [
          | inl empty ↦ absurd (full (same ∙ empty))
          | inr h ↦ rw same h
        ] in
        (k, (h, tt))

    select_result-Keeps :
        (id : ℕ) (result : Outcome String) (pool : Pool)
        → ReturnsToken Holds result
        → Clean Holds pool
        → Keeps Holds (select_result id result pool)
    unfolding select_result
    select_result-Keeps id result pool h k =
        (k, all_return-ReturnsToken result (only id pool.waiting) h)

    nth-ReturnsToken :
        (n : ℕ) (results : List (Outcome String)) (r : Outcome String)
        → All (ReturnsToken Holds) results
        → nth n results ≡ some r
        → ReturnsToken Holds r
    nth-ReturnsToken n [] r a e = absurd (cc)
    nth-ReturnsToken zero (x ∷ results) r (h, a) e = let same : x ≡ r = cc in rw (← same) h
    nth-ReturnsToken (suc n) (x ∷ results) r (h, a) e = nth-ReturnsToken n results r a e

    snoc-ReturnsToken :
        (results : List (Outcome String)) (r : Outcome String)
        → All (ReturnsToken Holds) results
        → ReturnsToken Holds r
        → All (ReturnsToken Holds) (results ++ r ∷ [])
    snoc-ReturnsToken [] r a h = (h, tt)
    snoc-ReturnsToken (x ∷ results) r (first, a) h = (first, snoc-ReturnsToken results r a h)

    get_bearer_token-own :
        (skew now : ℕ) (p : TokenProvider) (t : String)
        → get_bearer_token skew now p ≡ some t
        → (t ≡ p.bearer) × (t ≢ "")
    unfolding get_bearer_token is_fresh
    get_bearer_token-own skew now p t h = (ground arith, λ e. ground (arith, eq_iff p.bearer ""))

    refresh_after_rejection-own :
        (rejected : String) (p : TokenProvider) (t : String)
        → refresh_after_rejection rejected p ≡ some t
        → (t ≡ p.bearer) × (t ≢ "")
    unfolding refresh_after_rejection
    refresh_after_rejection-own rejected p t h =
        (ground arith, λ e. ground (arith, eq_iff p.bearer ""))

    refreshed-Keeps :
        (now : ℕ) (answered : Outcome Answer) (p : TokenProvider)
        → ((t : String) → Issues t (finish now answered) → Holds t)
        → (p.bearer ≡ "") ⊎ Holds p.bearer
        → (((refreshed decimal now answered p).0.bearer ≡ "")
            ⊎ Holds (refreshed decimal now answered p).0.bearer)
          × ReturnsToken Holds (refreshed decimal now answered p).1
    unfolding refreshed
    refreshed-Keeps now answered p gives k = elim (Outcome-cases (refresh decimal now answered)) [
      | inl (m, failed) ↦ rw (failed, refreshed) (k, tt)
      | inr ((p', token), done) ↦
          let (same, issued) = refresh-Issues now answered p' token done in
          let h = gives token issued in rw (done, refreshed) (inr (rw same h), h)
    ]

    step-Keeps :
        (skew : ℕ) (e : Event) (pool : Pool)
        → ((t : String) → Issues t e → Holds t)
        → Clean Holds pool
        → Keeps Holds (step decimal skew e pool)
    unfolding step
    step-Keeps skew (get_call i now) pool gives k =
        check_bearer-Keeps i _ pool (get_bearer_token-own skew now pool.provider) k
    step-Keeps skew (reject_call i rejected) pool gives k =
        check_bearer-Keeps i _ pool (refresh_after_rejection-own rejected pool.provider) k
    step-Keeps skew (ask i) pool gives k = (k, tt)
    step-Keeps skew (receive i n) pool gives k = elim (Option-cases (nth n pool.results)) [
      | inl none_yet ↦ rw (none_yet, step) (k, tt)
      | inr (result, is) ↦
          let h = nth-ReturnsToken n pool.results result k.1 is in
          rw (is, step) (select_result-Keeps i result pool h k)
    ]
    step-Keeps skew (cancel i message) pool gives k = select_result-Keeps i (fail message) pool tt k
    step-Keeps skew (finish now answered) pool gives k =
        let (k', r) = refreshed-Keeps now answered pool.provider gives k.0 in
        ((k', snoc-ReturnsToken pool.results _ k.1 r), tt)

    run-Keeps :
        (skew : ℕ) (es : List Event) (pool : Pool)
        → ((t : String) → Exists (Issues t) es → Holds t)
        → Clean Holds pool
        → Keeps Holds (run decimal skew es pool)
    unfolding run
    run-Keeps skew [] pool gives k = (k, tt)
    run-Keeps skew (e ∷ es) pool gives k =
        let (k', rs) = step-Keeps skew e pool (λ t i. gives t (inl i)) k in
        let (k'', ss) =
          run-Keeps skew es (step decimal skew e pool).0 (λ t i. gives t (inr i)) k' in
        (k'', append-ReturnsToken _ _ rs ss)

  -- Every token that a call returns is `Bearer` and the id token, not empty, of an answer with a
  -- 2xx status that the auth server gave in the run: no call returns an empty token, one of a
  -- refused answer, or one that was never issued.
  pub run-Issues :
      (skew : ℕ) (es : List Event)
      → All (λ r. ReturnsToken (λ t. Exists (Issues t) es) r.1) (run decimal skew es new_pool).1
  run-Issues skew es =
      (run-Keeps (λ t. Exists (Issues t) es) skew es new_pool (λ t i. i) (inl refl, tt)).1
