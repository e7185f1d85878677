-- ===== src/Server/Sends.antt =====
-- The handlers of pkg/adapter/server.go send nothing upstream but the requests for one answer.
use aadapter.Base.{ℕ, String, ◌≡◌, refl, ◌⊎◌, inl, inr, Bool-cases, List, str_eq}
use aadapter.Base.Outcome.{Outcome, ok}
use aadapter.Capture.{Body}
use aadapter.Config.{Config}
use aadapter.Config.Segments.{VertexOperation, validate_vertex_resource_segment}
use aadapter.Server.Counts.{check_format, rewrite_count}
use aadapter.Server.{
  MessagesRequest, UpstreamResponse, Reply, Exchange, World, done, attempt, natural, Reading, whole,
  oversize, unreadable, read_request_body, bad_request,
}
use aadapter.Server.Upstream.{
  Rewritten, is_gemini, target_model, take_snapshot, convert, check_model, check_gemini_model,
  gemini_rewritten, rewrite_gemini, rewrite_anthropic, rewrite_payload, rewrite_request_for_vertex,
  call_upstream,
}
use aadapter.Server.Handlers.{
  check_method, take_request_id, read_inbound, parse_inbound, read_upstream,
}
use aadapter.Server.Laws.{
  Ends, weaken_rule, bind_rule, attempt_rule, if_rule, Sent, call_upstream-Sent,
}

Reading-cases :
    (r : Reading)
    → ((bytes : List ℕ) × (r ≡ whole bytes))
      ⊎ ((r ≡ oversize) ⊎ ((m : String) × (r ≡ unreadable m)))
Reading-cases (whole bytes) = inl (bytes, refl)
Reading-cases oversize = inr (inl refl)
Reading-cases (unreadable m) = inr (inr (m, refl))

module _ (w : World) (cfg : Config) (x0 : Exchange) where
  abbrev pub Quiet : Exchange → Type 0
  Quiet x = x.requests ≡ x0.requests

  -- Nothing was sent, or the requests for one answer on a model that passes the check.
  abbrev pub Handled : Exchange → Type 0
  Handled x =
      (x.requests ≡ x0.requests)
      ⊎ ((op : VertexOperation) × (model body : String) × (validate_vertex_resource_segment "model"
              model
            ≡ ok tt)
          × Sent w cfg x0 op model body x)

  pub check_method-Quiet :
      (method : String) (x : Exchange)
      → Quiet x
      → Ends Handled (λ _. Quiet) (check_method w cfg method x)
  unfolding check_method
  check_method-Quiet method x h = if_rule Handled (λ _. Quiet) (str_eq method "POST") _ _ h (inl h)

  pub read_inbound-Quiet :
      (body : Body ℕ) (x : Exchange)
      → Quiet x
      → Ends Handled (λ _. Quiet) (read_inbound w cfg body x)
  unfolding read_inbound
  read_inbound-Quiet body x h =
      elim (Reading-cases (read_request_body (natural cfg.max_request_body_bytes) body)) [
        | inl (bytes, is) ↦ rw (is, read_inbound) h
        | inr (inl is) ↦ rw (is, read_inbound) (inl h)
        | inr (inr (m, is)) ↦ rw (is, read_inbound) (inl h)
      ]

  -- A step that may fail and leaves the state as it is.
  pub attempt-Quiet :
      {A : Type 0} (outcome : Outcome A) (reply : String → Reply) (x : Exchange)
      → Quiet x
      → Ends Handled (λ _. Quiet) (attempt outcome reply x)
  attempt-Quiet outcome reply x h =
      attempt_rule Handled (λ _. Quiet) outcome reply x (inl h) (λ a e. h)

  pub take_request_id-Quiet :
      (x : Exchange) → Quiet x → Ends Handled (λ _. Quiet) (take_request_id w cfg x)
  unfolding take_request_id
  take_request_id-Quiet x h = h

  pub check_format-Quiet :
      (x : Exchange) → Quiet x → Ends Handled (λ _. Quiet) (check_format w cfg x)
  unfolding check_format
  check_format-Quiet x h = if_rule Handled (λ _. Quiet) (is_gemini w cfg) _ _ h (inl h)

  pub parse_inbound-Quiet :
      (body : String) (x : Exchange)
      → Quiet x
      → Ends Handled (λ _. Quiet) (parse_inbound w cfg body x)
  unfolding parse_inbound
  parse_inbound-Quiet body x h = attempt-Quiet _ _ x h

  pub read_upstream-Handled :
      (response : UpstreamResponse) (prefix : String) (x : Exchange)
      → Handled x
      → Ends Handled (λ _. Handled) (read_upstream w cfg response prefix x)
  unfolding read_upstream
  read_upstream-Handled response prefix x h = attempt_rule Handled (λ _. Handled) _ _ x h (λ a e. h)

  -- A request that is rewritten names a model that passes the check.
  abbrev pub Checked : Rewritten → Exchange → Type 0
  Checked r x = (validate_vertex_resource_segment "model" r.model ≡ ok tt) × Quiet x

  take_snapshot-Quiet :
      (session_id : String) (x : Exchange)
      → Quiet x
      → Ends Handled (λ _. Quiet) (take_snapshot w cfg session_id x)
  unfolding take_snapshot
  take_snapshot-Quiet session_id x h = h

  rewrite_gemini-Checked :
      (body : String) (parsed : MessagesRequest) (session_id : String) (x : Exchange)
      → validate_vertex_resource_segment "model" (target_model w cfg parsed) ≡ ok tt
      → Quiet x
      → Ends Handled Checked (rewrite_gemini w cfg body parsed session_id x)
  unfolding rewrite_gemini
  rewrite_gemini-Checked body parsed session_id x valid h =
      let model = target_model w cfg parsed in
      bind_rule Handled (λ _. Quiet) Checked (check_gemini_model w cfg model x) _
        (attempt-Quiet _ _ x h)
        (λ u x1 h1.
          bind_rule Handled (λ _. Quiet) Checked (take_snapshot w cfg session_id x1) _
            (take_snapshot-Quiet session_id x1 h1)
            (λ signatures x2 h2.
              bind_rule Handled (λ _. Quiet) Checked (convert w cfg body model signatures x2)
                (λ rewritten. done (gemini_rewritten w cfg parsed rewritten))
                (attempt-Quiet _ _ x2 h2) (λ rewritten x3 h3. (valid, h3))))

  pub rewrite-Checked :
      (body : String) (parsed : MessagesRequest) (session_id : String) (x : Exchange)
      → Quiet x
      → Ends Handled Checked (rewrite_request_for_vertex w cfg body parsed session_id x)
  unfolding rewrite_request_for_vertex rewrite_anthropic
  rewrite-Checked body parsed session_id x h =
      let model = target_model w cfg parsed in
      let Valid = (λ (u : Unit {0}).
        λ (x : Exchange). (validate_vertex_resource_segment "model" model ≡ ok tt) × Quiet x) in
      bind_rule Handled (λ _. Quiet) Checked
        (attempt (w.platform.unmarshal_object body) (bad_request w) x) _ (attempt-Quiet _ _ x h)
        (λ payload x1 h1.
          bind_rule Handled Valid Checked (check_model w cfg model x1) _
            (attempt_rule Handled Valid (validate_vertex_resource_segment "model" model)
              (bad_request w) x1 (inl h1) (λ u e. (e, h1)))
            (λ u x2 (valid, h2). elim (Bool-cases (is_gemini w cfg)) [
              | inl gemini ↦
                  rw (gemini, rewrite_payload)
                    (rewrite_gemini-Checked body parsed session_id x2 valid h2)
              | inr other ↦ elim (Bool-cases (w.is_null body)) [
                | inl null ↦ rw (other, null, rewrite_payload) (inl h2)
                | inr given ↦ rw (other, given, rewrite_payload) (valid, h2)
              ]
            ]))

  pub rewrite_count-Quiet :
      (body : String) (parsed : MessagesRequest) (session_id : String) (x : Exchange)
      → Quiet x
      → Ends Handled
          (λ _ x'.
            (validate_vertex_resource_segment "model" (target_model w cfg parsed) ≡ ok tt)
            × Quiet x')
          (rewrite_count w cfg body parsed session_id x)
  unfolding rewrite_count
  rewrite_count-Quiet body parsed session_id x h =
      let model = target_model w cfg parsed in
      let Good = (λ (u : String).
        λ (x : Exchange). (validate_vertex_resource_segment "model" model ≡ ok tt) × Quiet x) in
      let Valid = (λ (u : Unit {0}).
        λ (x : Exchange). (validate_vertex_resource_segment "model" model ≡ ok tt) × Quiet x) in
      bind_rule Handled Valid Good (check_model w cfg model x) _
        (attempt_rule Handled Valid (validate_vertex_resource_segment "model" model) (bad_request w)
          x (inl h) (λ u e. (e, h)))
        (λ u x1 (valid, h1).
          bind_rule Handled (λ _. Quiet) Good (check_gemini_model w cfg model x1) _
            (attempt-Quiet _ _ x1 h1)
            (λ u x2 h2.
              bind_rule Handled (λ _. Quiet) Good (take_snapshot w cfg session_id x2) _
                (take_snapshot-Quiet session_id x2 h2)
                (λ signatures x3 h3.
                  attempt_rule Handled Good _ (bad_request w) x3 (inl h3) (λ a e. (valid, h3)))))

  pub call-Handled :
      (op : VertexOperation) (model body : String) (x : Exchange)
      → validate_vertex_resource_segment "model" model ≡ ok tt
      → Quiet x
      → Ends Handled (λ _. Handled) (call_upstream w cfg op model body x)
  call-Handled op model body x valid h =
      weaken_rule (Sent w cfg x0 op model body) Handled (λ _. Sent w cfg x0 op model body)
        (λ _. Handled) (call_upstream w cfg op model body x)
        (call_upstream-Sent w cfg x0 op model body x h) (λ x' s. inr (op, model, body, valid, s))
        (λ a x' s. inr (op, model, body, valid, s))
