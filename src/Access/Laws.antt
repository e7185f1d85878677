-- ===== src/Access/Laws.antt =====
-- Who passes the middleware of pkg/adapter/server.go, and what its log says of the headers.
use text.Mathlib.TextLemmas.{nil-append, cons-append}
use aadapter.Base.{
  String, ◌++ₛ◌, ◌≡◌, ◌≢◌, ◌⊎◌, refl, sym, ap, ◌∙◌, inl, inr, true, Bool-cases, Option-cases, some,
  List, [], ◌∷◌, arith, eq_iff, str_eq, same_char, same_char_iff,
}
use aadapter.Base.Maps.{Map}
use aadapter.Gemini.Options.{among}
use aadapter.Gemini.Media.{join}
use aadapter.Gemini.Carrier.{cut_prefix}
use aadapter.Access.{
  Request, provided_key, is_admitted, trim_prefix, is_sensitive_header, format_header, format_parts,
  format_headers,
}

cut_prefix-some : (s t rest : String) → cut_prefix s t ≡ some rest → s ≡ t ++ₛ rest
unfolding cut_prefix
cut_prefix-some s String.[] rest h = let e : s ≡ rest = cc in e ∙ sym (nil-append rest)
cut_prefix-some String.[] (String.◌∷◌ c t) rest h = absurd (cc)
cut_prefix-some (String.◌∷◌ d s) (String.◌∷◌ c t) rest h = elim (Bool-cases (same_char d c)) [
  | inl same ↦
      let e = (same_char_iff d c).0 same in
      let e' = cut_prefix-some s t rest (rw (same, cut_prefix) at h) in rw (e, e', cons-append) refl
  | inr other ↦ absurd (cc (rw (other, cut_prefix) at h))
]

trimmed : (s key : String) → trim_prefix s "Bearer " ≡ key → (s ≡ key) ⊎ (s ≡ "Bearer " ++ₛ key)
trimmed s key h = elim (Option-cases (cut_prefix s "Bearer ")) [
  | inl none_there ↦ inl (rw (none_there, trim_prefix) at h)
  | inr (rest, cut) ↦
      let e : rest ≡ key = rw (cut, trim_prefix) at h in
      inr (cut_prefix-some s "Bearer " rest cut ∙ ap (λ r. "Bearer " ++ₛ r) e)
]

provided :
    (api_key : String) (r : Request)
    → is_admitted api_key r ≡ true
    → api_key ≢ ""
    → r.path ≢ "/healthz"
    → provided_key r ≡ api_key
unfolding is_admitted
provided api_key r h set other =
    ground (arith, eq_iff api_key "", eq_iff r.path "/healthz", eq_iff (provided_key r) api_key)

-- A request that goes on although a key is set and it does not ask for the health of the adapter
-- gave the key: in `x-api-key`, or, with no such header, in `Authorization`, plain or as a bearer.
pub is_admitted-key :
    (api_key : String) (r : Request)
    → is_admitted api_key r ≡ true
    → api_key ≢ ""
    → r.path ≢ "/healthz"
    → (r.api_key ≡ api_key)
      ⊎ ((r.api_key ≡ "")
          × ((r.authorization ≡ api_key) ⊎ (r.authorization ≡ "Bearer " ++ₛ api_key)))
unfolding is_admitted provided_key
is_admitted-key api_key r h set other =
    let given : provided_key r ≡ api_key = provided api_key r h set other in
    elim (Bool-cases (str_eq r.api_key "")) [
      | inr present ↦ inl (rw (present, provided_key) at given)
      | inl absent ↦ inr (
        ground (arith, eq_iff r.api_key ""),
        trimmed r.authorization api_key (rw (absent, provided_key) at given),
      )
    ]

module _ (to_lower : String → String) where
  -- The headers that carry a secret, however they are spelled.
  abbrev pub IsSecret : String → Type 0
  IsSecret k =
      (to_lower k ≡ "authorization")
      ⊎ ((to_lower k ≡ "proxy-authorization")
          ⊎ ((to_lower k ≡ "x-api-key") ⊎ ((to_lower k ≡ "cookie") ⊎ (to_lower k ≡ "set-cookie"))))

  IsSecret-hidden : (k : String) → IsSecret k → is_sensitive_header to_lower k ≡ true
  unfolding is_sensitive_header among
  IsSecret-hidden k (inl e) = rw e refl
  IsSecret-hidden k (inr (inl e)) = rw e refl
  IsSecret-hidden k (inr (inr (inl e))) = rw e refl
  IsSecret-hidden k (inr (inr (inr (inl e)))) = rw e refl
  IsSecret-hidden k (inr (inr (inr (inr e)))) = rw e refl

  -- Headers that differ in the values of secret ones.
  abbrev pub SameBut : Map (List String) → Map (List String) → Type 0
  SameBut [] [] = Unit
  SameBut ((k, vs) ∷ h) ((k', vs') ∷ h') = (k ≡ k') × (IsSecret k ⊎ (vs ≡ vs')) × SameBut h h'
  SameBut _ _ = ⊥

  format_header-same :
      (k : String) (vs vs' : List String)
      → IsSecret k ⊎ (vs ≡ vs')
      → format_header to_lower k vs ≡ format_header to_lower k vs'
  unfolding format_header
  format_header-same k vs vs' (inl secret) = rw (IsSecret-hidden k secret, format_header) refl
  format_header-same k vs vs' (inr same) = ap (format_header to_lower k) same

  format_parts-same :
      (h h' : Map (List String)) → SameBut h h' → format_parts to_lower h ≡ format_parts to_lower h'
  unfolding format_parts
  format_parts-same [] [] s = refl
  format_parts-same [] (e ∷ h') s = absurd (s)
  format_parts-same (e ∷ h) [] s = absurd (s)
  format_parts-same ((k, vs) ∷ h) ((k', vs') ∷ h') (e, v, s) =
      rw (← e, format_parts-same h h' s)
        (ap (λ x. x ∷ format_parts to_lower h') (format_header-same k vs vs' v))

  -- What is logged of the headers says nothing of the values of Authorization, Proxy-Authorization,
  -- X-Api-Key, Cookie and Set-Cookie, however they are spelled: headers that differ in no more than
  -- those are logged as the same text.
  pub format_headers-same :
      (h h' : Map (List String))
      → SameBut h h'
      → format_headers to_lower h ≡ format_headers to_lower h'
  unfolding format_headers
  format_headers-same h h' s = ap (join " | ") (format_parts-same h h' s)
