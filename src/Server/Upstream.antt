-- ===== src/Server/Upstream.antt =====
-- pkg/adapter/server.go: `rewriteRequestForVertex`, `forward`, and the steps by which both handlers
-- get a token, forward a request and try once more when the token is rejected.
use aadapter.Base.{
  ℕ, ◌+◌, String, ◌++ₛ◌, Bool, true, false, ◌&&◌, ◌||◌, none, some, [], ◌∷◌, ◌++◌, length, ◌==◌,
  if◌then◌else◌, str_eq,
}
use aadapter.Base.Maps.{Map, put, delete}
use aadapter.Base.Outcome.{ok, fail}
use aadapter.Json.{str, Object, object}
use aadapter.Signatures.{snapshot}
use aadapter.Config.{Config}
use aadapter.Config.Segments.{
  VertexOperation, raw_predict, stream_raw_predict, generate_content, stream_generate_content,
  target_path, validate_vertex_resource_segment, validate_gemini_model,
}
use aadapter.Gemini.Request.{messages_to_gemini}
use aadapter.Server.{
  MessagesRequest, UpstreamRequest, UpstreamResponse, Exchange, World, halt, next, Handling, ◌>>=◌,
  ◌>>◌, done, stop, panicked, attempt, bad_request, bad_gateway,
}

-- What `rewriteRequestForVertex` gives, with the field of the request that comes with it.
pub record Rewritten : Type 0 where
  pub body : String
  pub model : String
  pub op : VertexOperation

abbrev pub is_streaming : VertexOperation → Bool
is_streaming stream_raw_predict = true
is_streaming stream_generate_content = true
is_streaming _ = false

abbrev pub asks_for_events : VertexOperation → Bool
asks_for_events stream_generate_content = true
asks_for_events _ = false

abbrev pub is_rejection : ℕ → Bool
is_rejection status = status == 401 || status == 403

module _ (w : World) (cfg : Config) where
  abbrev pub is_gemini : Bool
  is_gemini = str_eq cfg.vertex_api_format "gemini"

  abbrev pub target_model : MessagesRequest → String
  target_model parsed =
      if str_eq parsed.model "" || cfg.model_override then cfg.model else parsed.model

  -- `s.signatures.snapshot`, where a nil map has no entries.
  unfoldable pub take_snapshot : String → Handling (Map String)
  take_snapshot session_id x =
      let (store, found) =
        snapshot w.platform.sha256_hex (w.store_clock x.reads) session_id x.signatures in
      (
        record x { signatures = store; reads = x.reads + 1 },
        next (elim found [ some m ↦ m | none ↦ [] ]),
      )

  abbrev pub convert : String → String → Map String → Handling String
  convert body model signatures =
      attempt (messages_to_gemini w.platform body signatures model) (bad_request w)

  abbrev pub check_model : String → Handling (Unit {0})
  check_model model = attempt (validate_vertex_resource_segment "model" model) (bad_request w)

  abbrev pub check_gemini_model : String → Handling (Unit {0})
  check_gemini_model model = attempt (validate_gemini_model w.platform.quote model) (bad_request w)

  abbrev pub gemini_rewritten : MessagesRequest → String → Rewritten
  gemini_rewritten parsed rewritten = record {
    body = rewritten;
    model = target_model parsed;
    op = if parsed.stream then stream_generate_content else generate_content;
  }

  unfoldable pub rewrite_gemini : String → MessagesRequest → String → Handling Rewritten
  rewrite_gemini body parsed session_id = do
    check_gemini_model (target_model parsed)
    signatures ← take_snapshot session_id
    rewritten ← convert body (target_model parsed) signatures
    done (gemini_rewritten parsed rewritten)

  unfoldable pub rewrite_anthropic : Object → MessagesRequest → Rewritten
  rewrite_anthropic payload parsed = record {
    body =
        w.platform.marshal
          (object (put "anthropic_version" (str cfg.anthropic_version) (delete "model" payload)));
    model = target_model parsed;
    op = if parsed.stream then stream_raw_predict else raw_predict;
  }

  -- An assignment to the nil map that null decodes to panics.
  abbrev pub rewrite_payload : Object → String → MessagesRequest → String → Handling Rewritten
  rewrite_payload payload body parsed session_id =
      if is_gemini
      then rewrite_gemini body parsed session_id
      else if w.is_null body
      then stop panicked
      else done (rewrite_anthropic payload parsed)

  unfoldable pub rewrite_request_for_vertex : String → MessagesRequest → String → Handling Rewritten
  rewrite_request_for_vertex body parsed session_id = do
    payload ← attempt (w.platform.unmarshal_object body) (bad_request w)
    check_model (target_model parsed)
    rewrite_payload payload body parsed session_id

  abbrev pub target_url : VertexOperation → String → String
  target_url op model =
      cfg.gateway_base_url
      ++ₛ (target_path cfg.project cfg.location cfg.publisher op model
          ++ₛ (if asks_for_events op then "?alt=sse" else ""))

  abbrev pub request_for : String → VertexOperation → String → String → UpstreamRequest
  request_for url op body bearer = record {
    url = url;
    authorization = bearer;
    accept = if is_streaming op then "text/event-stream" else "application/json";
    streaming = is_streaming op;
    body = body;
  }

  abbrev pub sent : UpstreamRequest → Exchange → Exchange
  sent r x = record x { requests = x.requests ++ r ∷ [] }

  unfoldable pub forward :
      VertexOperation → String → String → String → String → Handling UpstreamResponse
  forward op model body bearer prefix x = elim (w.normalize_url (target_url op model)) [
    | fail message ↦ (x, halt (bad_gateway w prefix message))
    | ok url ↦
        attempt (w.send (length x.requests) (request_for url op body bearer)) (bad_gateway w prefix)
          (sent (request_for url op body bearer) x)
  ]

  -- A rejected token is replaced once, if that is wanted and works.
  unfoldable pub retry :
      VertexOperation → String → String → String → UpstreamResponse → Handling UpstreamResponse
  retry op model body bearer response =
      if cfg.force_refresh_on_4x && is_rejection response.status
      then (elim (w.refreshed_token bearer) [
        | fail message ↦ done response
        | ok fresh ↦ forward op model body fresh "retry upstream failed: "
      ])
      else done response

  unfoldable pub call_upstream : VertexOperation → String → String → Handling UpstreamResponse
  call_upstream op model body = do
    bearer ← attempt w.bearer_token (bad_gateway w "get token failed: ")
    response ← forward op model body bearer "upstream failed: "
    retry op model body bearer response
