-- ===== src/Server/Requests.antt =====
-- What `messages` and `countTokens` of pkg/adapter/server.go send upstream in all.
use aadapter.Base.{String, ◌≡◌, refl, ◌⊎◌, List, ◌++◌, length}
use aadapter.Base.Outcome.{ok}
use aadapter.Config.{Config}
use aadapter.Config.Segments.{VertexOperation, count_tokens, validate_vertex_resource_segment}
use aadapter.Server.Counts.{
  check_format, rewrite_count, count_parsed, count_steps, count_tokens_handler,
}
use aadapter.Server.{
  MessagesRequest, Inbound, UpstreamRequest, Reply, Exchange, World, Step, halt, next,
}
use aadapter.Server.Upstream.{target_model, rewrite_request_for_vertex, call_upstream}
use aadapter.Server.Handlers.{
  reply_of, check_method, take_request_id, read_inbound, parse_inbound, read_upstream,
  messages_steps, messages,
}
use aadapter.Server.Laws.{Ends, bind_rule, Attempts}
use aadapter.Server.Sends.{
  Quiet, Handled, Checked, check_method-Quiet, read_inbound-Quiet, take_request_id-Quiet,
  check_format-Quiet, parse_inbound-Quiet, read_upstream-Handled, rewrite-Checked,
  rewrite_count-Quiet, call-Handled,
}
use aadapter.Server.Answers.{answer_messages-Handled, answer_count-Handled}

module _ (w : World) (cfg : Config) where
  messages_steps-Handled :
      (r : Inbound) (x0 : Exchange)
      → Ends (Handled w cfg x0) (λ _. Handled w cfg x0) (messages_steps w cfg r x0)
  unfolding messages_steps
  messages_steps-Handled r x0 =
      let H = Handled w cfg x0 in
      let Q = Quiet w cfg x0 in
      let G = (λ (reply : Reply). H) in
      bind_rule H (λ _. Q) G (check_method w cfg r.method x0) _
        (check_method-Quiet w cfg x0 r.method x0 refl)
        (λ u x1 h1.
          bind_rule H (λ _. Q) G (take_request_id w cfg x1) _ (take_request_id-Quiet w cfg x0 x1 h1)
            (λ u x2 h2.
              bind_rule H (λ _. Q) G (read_inbound w cfg r.body x2) _
                (read_inbound-Quiet w cfg x0 r.body x2 h2)
                (λ body x3 h3.
                  bind_rule H (λ _. Q) G (parse_inbound w cfg body x3) _
                    (parse_inbound-Quiet w cfg x0 body x3 h3)
                    (λ parsed x4 h4.
                      bind_rule H (Checked w cfg x0) G
                        (rewrite_request_for_vertex w cfg body parsed r.session_id x4) _
                        (rewrite-Checked w cfg x0 body parsed r.session_id x4 h4)
                        (λ rewritten x5 (valid, h5).
                          bind_rule H (λ _. H) G
                            (call_upstream w cfg rewritten.op rewritten.model rewritten.body x5) _
                            (call-Handled w cfg x0 rewritten.op rewritten.model rewritten.body x5
                              valid h5)
                            (λ response x6 h6.
                              answer_messages-Handled w cfg x0 response r.session_id parsed
                                rewritten.model x6 h6))))))

  -- The steps of `countTokens` once a request is decoded.
  count_rest :
      (r : Inbound) (x0 : Exchange) (body : String) (parsed : MessagesRequest) (x : Exchange)
      → Quiet w cfg x0 x
      → Ends
          (Handled w cfg x0)
          (λ _. Handled w cfg x0)
          (count_parsed w cfg body parsed r.session_id x)
  unfolding count_parsed
  count_rest r x0 body parsed x h =
      let H = Handled w cfg x0 in
      let G = (λ (reply : Reply). H) in
      let model = target_model w cfg parsed in
      let V = (λ (u : String). λ (x : Exchange).
        (validate_vertex_resource_segment "model" model ≡ ok tt) × Quiet w cfg x0 x) in
      bind_rule H V G (rewrite_count w cfg body parsed r.session_id x) _
        (rewrite_count-Quiet w cfg x0 body parsed r.session_id x h)
        (λ rewritten x1 (valid, h1).
          bind_rule H (λ _. H) G (call_upstream w cfg count_tokens model rewritten x1) _
            (call-Handled w cfg x0 count_tokens model rewritten x1 valid h1)
            (λ response x2 h2.
              bind_rule H (λ _. H) G
                (read_upstream w cfg response "failed to read upstream response: " x2) _
                (read_upstream-Handled w cfg x0 response "failed to read upstream response: " x2 h2)
                (λ answer x3 h3. answer_count-Handled w cfg x0 response answer x3 h3)))

  count_steps-Handled :
      (r : Inbound) (x0 : Exchange)
      → Ends (Handled w cfg x0) (λ _. Handled w cfg x0) (count_steps w cfg r x0)
  unfolding count_steps
  count_steps-Handled r x0 =
      let H = Handled w cfg x0 in
      let Q = Quiet w cfg x0 in
      let G = (λ (reply : Reply). H) in
      bind_rule H (λ _. Q) G (check_method w cfg r.method x0) _
        (check_method-Quiet w cfg x0 r.method x0 refl)
        (λ u x1 h1.
          bind_rule H (λ _. Q) G (take_request_id w cfg x1) _ (take_request_id-Quiet w cfg x0 x1 h1)
            (λ u x2 h2.
              bind_rule H (λ _. Q) G (check_format w cfg x2) _ (check_format-Quiet w cfg x0 x2 h2)
                (λ u x3 h3.
                  bind_rule H (λ _. Q) G (read_inbound w cfg r.body x3) _
                    (read_inbound-Quiet w cfg x0 r.body x3 h3)
                    (λ body x4 h4.
                      bind_rule H (λ _. Q) G (parse_inbound w cfg body x4) _
                        (parse_inbound-Quiet w cfg x0 body x4 h4)
                        (λ parsed x5 h5. count_rest r x0 body parsed x5 h5)))))

-- A handler that ends with a reply ends in a state that is handled.
reply_of-Handled :
    (Halted : Exchange → Type 0) (r : Exchange × Step Reply)
    → Ends Halted (λ _. Halted) r
    → Halted (reply_of r).0
reply_of-Handled Halted (x, halt reply) h = h
reply_of-Handled Halted (x, next reply) h = h

-- Whatever the client sends, the messages handler sends nothing upstream, or the requests for one
-- answer of a model whose name passes the check: one request with the token that the provider gave,
-- or two, with the same url and body, if the first was answered 401 or 403 and a refresh after a
-- rejection is wanted and gave a token, which the second one carries.
pub messages-sends :
    (w : World) (cfg : Config) (r : Inbound) (x : Exchange)
    → ((messages w cfg r x).0.requests ≡ x.requests)
      ⊎ ((op : VertexOperation) × (model body : String) × (validate_vertex_resource_segment "model"
              model
            ≡ ok tt)
          × ((new : List UpstreamRequest) × ((messages w cfg r x).0.requests ≡ x.requests ++ new)
              × Attempts w cfg (length x.requests) op model body new))
unfolding messages
messages-sends w cfg r x =
    reply_of-Handled (Handled w cfg x) (messages_steps w cfg r x) (messages_steps-Handled w cfg r x)

-- Whatever the client sends, the handler that counts tokens sends nothing upstream, or the requests
-- for one answer of a model whose name passes the check: one request with the token that the
-- provider gave, or two, with the same url and body, if the first was answered 401 or 403 and a
-- refresh after a rejection is wanted and gave a token, which the second one carries.
pub count-sends :
    (w : World) (cfg : Config) (r : Inbound) (x : Exchange)
    → ((count_tokens_handler w cfg r x).0.requests ≡ x.requests)
      ⊎ ((op : VertexOperation) × (model body : String) × (validate_vertex_resource_segment "model"
              model
            ≡ ok tt)
          × ((new : List UpstreamRequest) × ((count_tokens_handler w cfg r x).0.requests
                ≡ x.requests ++ new)
              × Attempts w cfg (length x.requests) op model body new))
unfolding count_tokens_handler
count-sends w cfg r x =
    reply_of-Handled (Handled w cfg x) (count_steps w cfg r x) (count_steps-Handled w cfg r x)
