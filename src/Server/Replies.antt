-- ===== src/Server/Replies.antt =====
-- The headers of the replies of pkg/adapter/server.go: what `copyHeaders` passes on.
use mathlib.Core.Path.{subst}
use mathlib.Core.List.{append_assoc, append-nil}
use aadapter.Base.{
  String, ◌≡◌, refl, sym, ap, ◌∙◌, inl, inr, Bool, true, false, Bool-cases, Option, none, some,
  List, [], ◌∷◌, ◌++◌, if◌then◌else◌, str_eq, eq_iff, eq_refl, All,
}
use aadapter.Base.Maps.{Map, get, put, get-put, Distinct}
use aadapter.Gemini.Options.{among}
use aadapter.Server.{World, or_no_values, values_of, add_values, copy_headers}

chosen :
    (b : Bool) (vs : List String) (o : Option (List String))
    → or_no_values (if b then some vs else o) ≡ (if b then vs else or_no_values o)
chosen true vs o = refl
chosen false vs o = refl

values_of-put :
    (k j : String) (vs : List String) (h : Map (List String))
    → values_of k (put j vs h) ≡ (if str_eq j k then vs else values_of k h)
values_of-put k j vs h = ap or_no_values (get-put j k vs h) ∙ chosen (str_eq j k) vs (get k h)

add_values-cons :
    (canonical : String → String) (k v : String) (vs : List String) (dst : Map (List String))
    → canonical k ≡ k
    → add_values canonical k (v ∷ vs) dst
      ≡ add_values canonical k vs (put k (values_of k dst ++ v ∷ []) dst)
unfolding add_values
add_values-cons canonical k v vs dst e =
    ap (λ key. add_values canonical k vs (put key (values_of key dst ++ v ∷ []) dst)) e

values_of-add_ne :
    (canonical : String → String) (k j : String) (vs : List String) (dst : Map (List String))
    → canonical j ≡ j
    → str_eq j k ≡ false
    → values_of k (add_values canonical j vs dst) ≡ values_of k dst
unfolding add_values
values_of-add_ne canonical k j [] dst c other = refl
values_of-add_ne canonical k j (v ∷ vs) dst c other =
    ap (values_of k) (add_values-cons canonical j v vs dst c)
    ∙ values_of-add_ne canonical k j vs (put j (values_of j dst ++ v ∷ []) dst) c other
    ∙ values_of-put k j (values_of j dst ++ v ∷ []) dst
    ∙ rw other refl

values_of-add :
    (canonical : String → String) (k : String) (vs : List String) (dst : Map (List String))
    → canonical k ≡ k
    → values_of k (add_values canonical k vs dst) ≡ values_of k dst ++ vs
unfolding add_values
values_of-add canonical k [] dst c = sym (append-nil (values_of k dst))
values_of-add canonical k (v ∷ vs) dst c =
    ap (values_of k) (add_values-cons canonical k v vs dst c)
    ∙ values_of-add canonical k vs (put k (values_of k dst ++ v ∷ []) dst) c
    ∙ ap (λ x. x ++ vs) (values_of-put k k (values_of k dst ++ v ∷ []) dst ∙ rw (eq_refl k) refl)
    ∙ append_assoc (values_of k dst) (v ∷ []) vs

values_of-cons :
    (k j : String) (vs : List String) (src : Map (List String))
    → values_of k ((j, vs) ∷ src) ≡ (if str_eq j k then vs else values_of k src)
unfolding get
values_of-cons k j vs src = chosen (str_eq j k) vs (get k src)

module _ (w : World) where
  -- The headers that are about one connection, or about the bytes of one body.
  abbrev pub not_passed : List String
  not_passed =
      "content-length" ∷ "connection" ∷ "transfer-encoding" ∷ "content-md5" ∷ "digest" ∷ "etag"
      ∷ "keep-alive" ∷ "proxy-authenticate" ∷ "proxy-authorization" ∷ "te" ∷ "trailer" ∷ "upgrade"
      ∷ []

  abbrev pub is_hop : String → Bool
  is_hop k = among (w.platform.to_lower k) not_passed

  -- Every key is in its canonical form.
  abbrev pub IsCanonical : Map (List String) → Type 0
  IsCanonical src = All (λ e. w.canonical e.0 ≡ e.0) src

  -- What is left of the headers, from one on, for a key.
  abbrev passed : String → List String → List String
  passed k vs = if is_hop k then [] else vs

  abbrev taken : String → List String → Map (List String) → Map (List String)
  taken j vs dst = if is_hop j then dst else add_values w.canonical j vs dst

  taken-same :
      (k : String) (vs : List String) (src dst : Map (List String))
      → w.canonical k ≡ k
      → get k src ≡ none
      → values_of k (taken k vs dst) ++ passed k (values_of k src) ≡ values_of k dst ++ passed k vs
  taken-same k vs src dst c fresh = elim (Bool-cases (is_hop k)) [
    | inl hop ↦ rw hop refl
    | inr other ↦ rw other (
        ap (λ x. values_of k (add_values w.canonical k vs dst) ++ or_no_values x) fresh
        ∙ append-nil (values_of k (add_values w.canonical k vs dst))
        ∙ values_of-add w.canonical k vs dst c)
  ]

  taken-other :
      (k j : String) (vs : List String) (dst : Map (List String))
      → w.canonical j ≡ j
      → str_eq j k ≡ false
      → values_of k (taken j vs dst) ≡ values_of k dst
  taken-other k j vs dst c other = elim (Bool-cases (is_hop j)) [
    | inl hop ↦ rw hop refl
    | inr kept ↦ rw kept (values_of-add_ne w.canonical k j vs dst c other)
  ]

  copy_headers-from :
      (k : String) (src dst : Map (List String))
      → Distinct src
      → IsCanonical src
      → values_of k (copy_headers w src dst) ≡ values_of k dst ++ passed k (values_of k src)
  unfolding copy_headers get
  copy_headers-from k [] dst distinct canonical = elim (Bool-cases (is_hop k)) [
    | inl hop ↦ rw hop (sym (append-nil (values_of k dst)))
    | inr other ↦ rw other (sym (append-nil (values_of k dst)))
  ]
  copy_headers-from k ((j, vs) ∷ src) dst (fresh, distinct) (c, canonical) =
      copy_headers-from k src (taken j vs dst) distinct canonical
      ∙ (elim (Bool-cases (str_eq j k)) [
        | inl same ↦
            let e : j ≡ k = (eq_iff j k).0 same in
            subst
              (λ (x : String).
                w.canonical x ≡ x
                → get x src ≡ none
                → values_of k (taken x vs dst) ++ passed k (values_of k src)
                  ≡ values_of k dst ++ passed k vs)
              (sym e) (taken-same k vs src dst) c fresh
            ∙ ap (λ x. values_of k dst ++ passed k x)
                (sym (values_of-cons k j vs src ∙ rw same refl))
        | inr other ↦
            ap (λ x. x ++ passed k (values_of k src)) (taken-other k j vs dst c other)
            ∙ ap (λ x. values_of k dst ++ passed k x)
                (sym (values_of-cons k j vs src ∙ rw other refl))
      ])

  -- A header that an upstream answer has, each once and under its canonical key, as net/http gives
  -- them, is passed on with all of its values in their order, and no other is, but not
  -- Content-Length, Connection, Transfer-Encoding, Content-MD5, Digest, ETag, Keep-Alive,
  -- Proxy-Authenticate, Proxy-Authorization, TE, Trailer and Upgrade.
  pub copy_headers-values :
      (k : String) (src : Map (List String))
      → Distinct src
      → IsCanonical src
      → values_of k (copy_headers w src []) ≡ (if is_hop k then [] else values_of k src)
  unfolding get
  copy_headers-values k src distinct canonical = copy_headers-from k src [] distinct canonical
