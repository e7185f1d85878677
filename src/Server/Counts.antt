-- ===== src/Server/Counts.antt =====
-- pkg/adapter/server.go: `countTokens`. The lines that are logged are left out.
use aadapter.Base.{String, ◌++ₛ◌, not, [], if◌then◌else◌}
use aadapter.Base.Outcome.{ok, fail}
use aadapter.Config.{Config}
use aadapter.Config.Segments.{count_tokens}
use aadapter.Gemini.Answer.{count_tokens_to_anthropic}
use aadapter.Server.{
  MessagesRequest, Inbound, UpstreamResponse, text, Reply, Exchange, World, halt, next, Handling,
  ◌>>=◌, ◌>>◌, done, copy_headers, error_reply, error_over, upstream_error, is_success,
}
use aadapter.Server.Upstream.{
  is_gemini, target_model, take_snapshot, convert, check_model, check_gemini_model, call_upstream,
}
use aadapter.Server.Handlers.{
  check_method, take_request_id, read_inbound, parse_inbound, read_upstream, json_type, reply_of,
}

module _ (w : World) (cfg : Config) where
  unfoldable pub check_format : Handling (Unit {0})
  check_format x = if is_gemini w cfg then (x, next tt) else (
    x,
    halt (
        error_reply w 501 "invalid_request_error"
          "count_tokens is only implemented for VERTEX_API_FORMAT=gemini"),
  )

  unfoldable pub rewrite_count : String → MessagesRequest → String → Handling String
  rewrite_count body parsed session_id = do
    check_model w cfg (target_model w cfg parsed)
    check_gemini_model w cfg (target_model w cfg parsed)
    signatures ← take_snapshot w cfg session_id
    convert w cfg body (target_model w cfg parsed) signatures

  -- An answer that cannot be converted is reported over the headers that were copied.
  unfoldable pub answer_count : UpstreamResponse → String → Handling Reply
  answer_count response body =
      let headers = copy_headers w response.headers [] in
      if not (is_success response.status)
      then done (upstream_error w body response.status)
      else (elim (count_tokens_to_anthropic w.platform w.decimal w.clock w.out_of_range body) [
        | fail message ↦ done (
            error_over w headers 502 "api_error"
              ("invalid Gemini count_tokens response: " ++ₛ message))
        | ok converted ↦ done (record {
          status = response.status;
          headers = json_type w cfg headers;
          content = text converted;
        })
      ])

  -- The steps once a request is decoded.
  unfoldable pub count_parsed : String → MessagesRequest → String → Handling Reply
  count_parsed body parsed session_id = do
    rewritten ← rewrite_count body parsed session_id
    response ← call_upstream w cfg count_tokens (target_model w cfg parsed) rewritten
    answer ← read_upstream w cfg response "failed to read upstream response: "
    answer_count response answer

  unfoldable pub count_steps : Inbound → Handling Reply
  count_steps r = do
    check_method w cfg r.method
    take_request_id w cfg
    check_format
    body ← read_inbound w cfg r.body
    parsed ← parse_inbound w cfg body
    count_parsed body parsed r.session_id

  unfoldable pub count_tokens_handler : Inbound → Exchange → Exchange × Reply
  count_tokens_handler r x = reply_of (count_steps r x)
