-- ===== src/Tokens/Fresh.antt =====
-- How long a token that pkg/adapter/token_provider.go keeps is returned without another refresh.
use mathlib.Core.Path.{subst}
use aadapter.Base.{
  ap, sym, ℕ, ◌+◌, ◌*◌, ◌≤◌, ◌<◌, String, ◌++ₛ◌, ◌≡◌, refl, ◌⊎◌, inl, inr, false, Option-cases,
  Option, some, List, [], ◌∷◌, arith, eq_iff, str_eq, if◌then◌else◌, ◌==◌,
}
use aadapter.Base.Outcome.{Outcome, ok, fail, split_chain, Outcome-cases}
use aadapter.Tokens.{
  TokenProvider, AuthResponse, Answer, Pool, new_pool, Event, get_call, reject_call, ask, receive,
  cancel, finish, nth, check_bearer, select_result, step, run, is_fresh, get_bearer_token,
  check_status, check_id_token, refresh, refreshed, lifetime, add_duration,
}
use aadapter.Tokens.Laws.{Exists}

-- The end of a token's lifetime, 300 seconds if none was given, when it was decoded at some time.
abbrev pub lasts_until : ℕ → AuthResponse → ℕ
lasts_until at parsed =
    at + (if parsed.expires_in == 0 then 300 else parsed.expires_in) * 1000000000

-- An event that gave the token, which lasts beyond a time.
abbrev pub Covers : String → ℕ → Event → Type 0
Covers t time (finish at (ok answer)) =
    (parsed : AuthResponse) × (answer.body ≡ ok parsed)
    × (t ≡ "Bearer " ++ₛ parsed.id_token)
    × (time < lasts_until at parsed)
Covers t time _ = ⊥

-- An event that gave what the provider holds.
abbrev Gave : TokenProvider → Event → Type 0
Gave p (finish at (ok answer)) =
    (parsed : AuthResponse) × (answer.body ≡ ok parsed)
    × (p.bearer ≡ "Bearer " ++ₛ parsed.id_token)
    × (p.expires_at ≤ lasts_until at parsed)
Gave p _ = ⊥

add_duration_le : (now d : ℕ) → add_duration now d ≤ now + d
unfolding add_duration
add_duration_le now d = ground arith

lasts :
    (at : ℕ) (parsed : AuthResponse)
    → add_duration at (lifetime parsed * 1000000000) ≤ lasts_until at parsed
unfolding lifetime
lasts at parsed = add_duration_le at (lifetime parsed * 1000000000)

Gave-Covers :
    (p : TokenProvider) (time : ℕ) (e : Event)
    → time < p.expires_at
    → Gave p e
    → Covers p.bearer time e
Gave-Covers p time (finish at (ok answer)) h (parsed, body, token, until) =
    (parsed, body, token, omega (arith, h, until))
Gave-Covers p time (finish at (fail message)) h g = absurd (g)
Gave-Covers p time (get_call i now) h g = absurd (g)
Gave-Covers p time (reject_call i rejected) h g = absurd (g)
Gave-Covers p time (ask i) h g = absurd (g)
Gave-Covers p time (receive i n) h g = absurd (g)
Gave-Covers p time (cancel i message) h g = absurd (g)

Exists-map :
    (P Q : Event → Type 0) (es : List Event) → ((e : Event) → P e → Q e) → Exists P es → Exists Q es
Exists-map P Q [] k x = x
Exists-map P Q (e ∷ es) k (inl h) = inl (k e h)
Exists-map P Q (e ∷ es) k (inr x) = inr (Exists-map P Q es k x)

abbrev provider_of : Outcome (TokenProvider × String) → TokenProvider
provider_of (ok (p, token)) = p
provider_of (fail message) = record { bearer = message; expires_at = 0 }

module _ (decimal : ℕ → String) where
  refresh-Gave :
      (now : ℕ) (answered : Outcome Answer) (p : TokenProvider) (token : String)
      → refresh decimal now answered ≡ ok (p, token)
      → Gave p (finish now answered)
  unfolding refresh
  refresh-Gave now (fail message) p token h = absurd (cc)
  refresh-Gave now (ok answer) p token h =
      let (_, status, h1) = split_chain (check_status decimal answer.status) _ h in
      let (parsed, body, h2) = split_chain answer.body _ h1 in
      let (_, id_token, h3) = split_chain (check_id_token parsed) _ h2 in
      let same = ap provider_of h3 in
      (
        parsed,
        body,
        sym (ap (λ (x : TokenProvider). x.bearer) same),
        rw (← ap (λ (x : TokenProvider). x.expires_at) same) (lasts now parsed),
      )

  refreshed-Gave :
      (now : ℕ) (answered : Outcome Answer) (p : TokenProvider)
      → ((refreshed decimal now answered p).0 ≡ p)
        ⊎ Gave (refreshed decimal now answered p).0 (finish now answered)
  unfolding refreshed
  refreshed-Gave now answered p = elim (Outcome-cases (refresh decimal now answered)) [
    | inl (m, failed) ↦ rw (failed, refreshed) (inl refl)
    | inr ((p', token), worked) ↦
        let e : (refreshed decimal now answered p).0 ≡ p' = rw (worked, refreshed) refl in
        inr (
          subst (λ q. Gave q (finish now answered)) (sym e)
            (refresh-Gave now answered p' token worked))
  ]

  module _ (Good : TokenProvider → Type 0) where
    abbrev Held : Pool → Type 0
    Held pool = (pool.provider.bearer ≡ "") ⊎ Good pool.provider

    check_bearer-Held :
        (id : ℕ) (token : Option String) (pool : Pool)
        → Held pool
        → Held (check_bearer id token pool).0
    unfolding check_bearer
    check_bearer-Held id token pool h = ground arith

    step-Held :
        (skew : ℕ) (e : Event) (pool : Pool)
        → ((p : TokenProvider) → Gave p e → Good p)
        → Held pool
        → Held (step decimal skew e pool).0
    unfolding step select_result
    step-Held skew (get_call i now) pool gives h = check_bearer-Held i _ pool h
    step-Held skew (reject_call i rejected) pool gives h = check_bearer-Held i _ pool h
    step-Held skew (ask i) pool gives h = h
    step-Held skew (receive i n) pool gives h = elim (Option-cases (nth n pool.results)) [
      | inl none_yet ↦ rw (none_yet, step) h
      | inr (result, is) ↦ rw (is, step, select_result) h
    ]
    step-Held skew (cancel i message) pool gives h = h
    step-Held skew (finish now answered) pool gives h =
        elim (refreshed-Gave now answered pool.provider) [
          | inl same ↦ rw same h
          | inr gave ↦ inr (gives _ gave)
        ]

    run-Held :
        (skew : ℕ) (es : List Event) (pool : Pool)
        → ((p : TokenProvider) → Exists (Gave p) es → Good p)
        → Held pool
        → Held (run decimal skew es pool).0
    unfolding run
    run-Held skew [] pool gives h = h
    run-Held skew (e ∷ es) pool gives h =
        run-Held skew es (step decimal skew e pool).0 (λ p x. gives p (inr x))
          (step-Held skew e pool (λ p g. gives p (inl g)) h)

  kept-fresh :
      (skew now : ℕ) (p : TokenProvider) (t : String)
      → get_bearer_token skew now p ≡ some t
      → (t ≡ p.bearer) × (str_eq p.bearer "" ≡ false) × (now + skew < p.expires_at)
  unfolding get_bearer_token is_fresh
  kept-fresh skew now p t h = (ground arith, ground arith, ground arith)

  -- A token that GetBearerToken returns without a refresh, after any steps of any calls, is the one
  -- of an answer that a refresh of those steps decoded, and its lifetime, counted from then, 300
  -- seconds where none was given, goes on beyond the skew.
  pub run-Covers :
      (skew now : ℕ) (es : List Event) (t : String)
      → get_bearer_token skew now (run decimal skew es new_pool).0.provider ≡ some t
      → Exists (Covers t (now + skew)) es
  run-Covers skew now es t h =
      let p = (run decimal skew es new_pool).0.provider in
      let (same, full, fresh) = kept-fresh skew now p t h in
      elim (run-Held (λ q. Exists (Gave q) es) skew es new_pool (λ q x. x) (inl refl)) [
        | inl empty ↦ absurd (cc ((eq_iff p.bearer "").1 empty, full))
        | inr gave ↦ rw same (
            Exists-map (Gave p) (Covers p.bearer (now + skew)) es
              (λ e g. Gave-Covers p (now + skew) e fresh g) gave)
      ]
