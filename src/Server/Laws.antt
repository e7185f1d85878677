-- ===== src/Server/Laws.antt =====
-- What the handlers of pkg/adapter/server.go send upstream.
use mathlib.Core.List.{append_assoc, append-nil}
use aadapter.Base.{
  ℕ, String, ◌≡◌, refl, sym, ap, ◌∙◌, ◌⊎◌, inl, inr, Bool, true, false, ◌&&◌, Bool-cases, List, [],
  ◌∷◌, ◌++◌, if◌then◌else◌, length,
}
use aadapter.Base.Outcome.{Outcome, Outcome-cases, ok, fail}
use aadapter.Config.{Config}
use aadapter.Config.Laws.{and_split}
use aadapter.Config.Segments.{VertexOperation}
use aadapter.Server.{
  UpstreamRequest, UpstreamResponse, Reply, Exchange, World, Step, halt, next, Handling, proceed,
  attempt, bad_gateway,
}
use aadapter.Server.Upstream.{
  is_rejection, target_url, request_for, sent, forward, retry, call_upstream,
}

-- How a handler ends: with a reply, in a state that satisfies the first predicate, or going on.
abbrev pub Ends :
    {A : Type 0} → (Exchange → Type 0) → (A → Exchange → Type 0) → Exchange × Step A → Type 0
Ends Halted Good (x, halt reply) = Halted x
Ends Halted Good (x, next a) = Good a x

pub bind_rule :
    {A B : Type 0} (Halted : Exchange → Type 0) (Mid : A → Exchange → Type 0)
    (Good : B → Exchange → Type 0) (r : Exchange × Step A) (more : A → Handling B)
    → Ends Halted Mid r
    → ((a : A) (x : Exchange) → Mid a x → Ends Halted Good (more a x))
    → Ends Halted Good (proceed r more)
bind_rule Halted Mid Good (x, next a) more h k = k a x h
bind_rule Halted Mid Good (x, halt reply) more h k = h

pub weaken_rule :
    {A : Type 0} (Halted Halted' : Exchange → Type 0) (Good Good' : A → Exchange → Type 0)
    (r : Exchange × Step A)
    → Ends Halted Good r
    → ((x : Exchange) → Halted x → Halted' x)
    → ((a : A) (x : Exchange) → Good a x → Good' a x)
    → Ends Halted' Good' r
weaken_rule Halted Halted' Good Good' (x, next a) h k g = g a x h
weaken_rule Halted Halted' Good Good' (x, halt reply) h k g = k x h

pub attempt_rule :
    {A : Type 0} (Halted : Exchange → Type 0) (Good : A → Exchange → Type 0) (outcome : Outcome A)
    (reply : String → Reply) (x : Exchange)
    → Halted x
    → ((a : A) → outcome ≡ ok a → Good a x)
    → Ends Halted Good (attempt outcome reply x)
attempt_rule Halted Good (ok a) reply x h k = k a refl
attempt_rule Halted Good (fail message) reply x h k = h

pub if_rule :
    {A : Type 0} (Halted : Exchange → Type 0) (Good : A → Exchange → Type 0) (b : Bool)
    (r r' : Exchange × Step A)
    → Ends Halted Good r
    → Ends Halted Good r'
    → Ends Halted Good (if b then r else r')
if_rule Halted Good true r r' h h' = h
if_rule Halted Good false r r' h h' = h'

module _ (w : World) (cfg : Config) where
  -- The requests for one answer, after `n` others: none; one, with the provider's token; or two,
  -- when the first was answered that the token is rejected, the second with the fresh token that
  -- the provider gave for the rejected one. Both have the url and the body of the operation.
  abbrev pub Attempts : ℕ → VertexOperation → String → String → List UpstreamRequest → Type 0
  Attempts n op model body new =
      (new ≡ [])
      ⊎ ((bearer url : String) × (w.bearer_token ≡ ok bearer)
          × (w.normalize_url (target_url w cfg op model) ≡ ok url)
          × ((new ≡ request_for w cfg url op body bearer ∷ [])
              ⊎ ((fresh : String) × (response : UpstreamResponse) × (w.send n
                      (request_for w cfg url op body bearer)
                    ≡ ok response)
                  × (cfg.force_refresh_on_4x ≡ true)
                  × (is_rejection response.status ≡ true)
                  × (w.refreshed_token bearer ≡ ok fresh)
                  × (new
                      ≡ request_for w cfg url op body bearer
                        ∷ request_for w cfg url op body fresh
                        ∷ []))))

  -- The requests in a state, after those that there were.
  abbrev pub Sent : Exchange → VertexOperation → String → String → Exchange → Type 0
  Sent x0 op model body x =
      (new : List UpstreamRequest) × (x.requests ≡ x0.requests ++ new)
      × Attempts (length x0.requests) op model body new

  forward_rule :
      (Halted : Exchange → Type 0) (Good : UpstreamResponse → Exchange → Type 0)
      (op : VertexOperation) (model body bearer prefix : String) (x : Exchange)
      → Halted x
      → ((url : String)
          → w.normalize_url (target_url w cfg op model) ≡ ok url
          → Halted (sent w cfg (request_for w cfg url op body bearer) x))
      → ((url : String) (response : UpstreamResponse)
          → w.normalize_url (target_url w cfg op model) ≡ ok url
          → w.send (length x.requests) (request_for w cfg url op body bearer) ≡ ok response
          → Good response (sent w cfg (request_for w cfg url op body bearer) x))
      → Ends Halted Good (forward w cfg op model body bearer prefix x)
  unfolding forward
  forward_rule Halted Good op model body bearer prefix x h k g =
      elim (Outcome-cases (w.normalize_url (target_url w cfg op model))) [
        | inl (message, fails) ↦ rw (fails, forward) h
        | inr (url, is) ↦
            let r = request_for w cfg url op body bearer in
            rw (is, forward)
              (attempt_rule Halted Good (w.send (length x.requests) r) (bad_gateway w prefix)
                (sent w cfg r x) (k url is) (λ response e. g url response is e))
      ]

  -- The first request is out, and was answered.
  abbrev Asked :
      Exchange → VertexOperation → String → String → String → UpstreamResponse → Exchange → Type 0
  Asked x0 op model body bearer response x =
      (url : String) × (w.normalize_url (target_url w cfg op model) ≡ ok url)
      × (w.send (length x0.requests) (request_for w cfg url op body bearer) ≡ ok response)
      × (x.requests ≡ x0.requests ++ request_for w cfg url op body bearer ∷ [])

  retry-Sent :
      (x0 : Exchange) (op : VertexOperation) (model body bearer : String)
      (response : UpstreamResponse) (x : Exchange)
      → w.bearer_token ≡ ok bearer
      → Asked x0 op model body bearer response x
      → Ends
          (Sent x0 op model body)
          (λ _. Sent x0 op model body)
          (retry w cfg op model body bearer response x)
  unfolding retry
  retry-Sent x0 op model body bearer response x token (url, is, answered, asked) =
      let Good = (λ (a : UpstreamResponse). Sent x0 op model body) in
      let r = request_for w cfg url op body bearer in
      let once : Sent x0 op model body x =
        (r ∷ [], asked, inr (bearer, url, token, is, inl refl)) in
      elim (Bool-cases (cfg.force_refresh_on_4x && is_rejection response.status)) [
        | inr kept ↦ rw (kept, retry) once
        | inl rejected ↦ elim (Outcome-cases (w.refreshed_token bearer)) [
          | inl (message, fails) ↦ rw (rejected, fails, retry) once
          | inr (fresh, given) ↦
              let (force, status) =
                and_split cfg.force_refresh_on_4x (is_rejection response.status) rejected in
              let again = request_for w cfg url op body fresh in
              let twice : (x.requests ++ again ∷ []) ≡ x0.requests ++ r ∷ again ∷ [] =
                ap (λ y. y ++ again ∷ []) asked ∙ append_assoc x0.requests (r ∷ []) (again ∷ []) in
              let second : (url' : String)
                  → w.normalize_url (target_url w cfg op model) ≡ ok url'
                  → Sent x0 op model body (sent w cfg (request_for w cfg url' op body fresh) x) =
                λ url' is'.
                  let same : url' ≡ url = cc in
                  (
                    r ∷ again ∷ [],
                    ap (λ u. x.requests ++ request_for w cfg u op body fresh ∷ []) same ∙ twice,
                    inr (
                      bearer,
                      url,
                      token,
                      is,
                      inr (fresh, response, answered, force, status, given, refl),
                    ),
                  ) in
              rw (rejected, given, retry)
                (forward_rule (Sent x0 op model body) Good op model body fresh
                  "retry upstream failed: " x once second
                  (λ url' response' is' answered'. second url' is'))
        ]
      ]

  pub call_upstream-Sent :
      (x0 : Exchange) (op : VertexOperation) (model body : String) (x : Exchange)
      → x.requests ≡ x0.requests
      → Ends
          (Sent x0 op model body)
          (λ _. Sent x0 op model body)
          (call_upstream w cfg op model body x)
  unfolding call_upstream
  call_upstream-Sent x0 op model body x same =
      let Halted = Sent x0 op model body in
      let Good = (λ (a : UpstreamResponse). Sent x0 op model body) in
      let none_yet : Sent x0 op model body x =
        ([], same ∙ sym (append-nil x0.requests), inl refl) in
      bind_rule Halted (λ bearer x'. (w.bearer_token ≡ ok bearer) × (x'.requests ≡ x0.requests))
        Good (attempt w.bearer_token (bad_gateway w "get token failed: ") x) _
        (attempt_rule Halted
          (λ bearer x'. (w.bearer_token ≡ ok bearer) × (x'.requests ≡ x0.requests)) w.bearer_token
          (bad_gateway w "get token failed: ") x none_yet (λ bearer token. (token, same)))
        (λ bearer x1 (token, same1).
          bind_rule Halted (Asked x0 op model body bearer) Good
            (forward w cfg op model body bearer "upstream failed: " x1) _
            (forward_rule Halted (Asked x0 op model body bearer) op model body bearer
              "upstream failed: " x1 ([], same1 ∙ sym (append-nil x0.requests), inl refl)
              (λ url is. (
                request_for w cfg url op body bearer ∷ [],
                ap (λ y. y ++ request_for w cfg url op body bearer ∷ []) same1,
                inr (bearer, url, token, is, inl refl),
              ))
              (λ url response is answered. (
                url,
                is,
                ap (λ y. w.send (length y) (request_for w cfg url op body bearer)) (sym same1)
                    ∙ answered,
                ap (λ y. y ++ request_for w cfg url op body bearer ∷ []) same1,
              )))
            (λ response x2 asked. retry-Sent x0 op model body bearer response x2 token asked))
