-- ===== src/Server/Handlers.antt =====
-- pkg/adapter/server.go: `messages`, and the steps that `countTokens` shares with it. The lines that are logged are left out.
use aadapter.Base.{
  ℕ, ◌+◌, ◌%◌, ◌^◌, String, not, Option, none, some, List, [], ◌∷◌, ◌++◌, if◌then◌else◌, str_eq,
  take, map, chars,
}
use aadapter.Base.Maps.{Map, put}
use aadapter.Base.Outcome.{ok, fail}
use aadapter.Signatures.{remember}
use aadapter.Capture.{Body, Round, read_response_body, stream_copy}
use aadapter.Config.{Config}
use aadapter.Gemini.Answer.{Converted, response_to_anthropic}
use aadapter.Gemini.Stream.{Converter, Context, new_converter}
use aadapter.Gemini.Stream.Lines.{stream_gemini}
use aadapter.Server.{
  MessagesRequest, Inbound, UpstreamResponse, text, events, copied, Reply, Exchange, World, Step,
  halt, next, Handling, ◌>>=◌, ◌>>◌, done, attempt, natural, whole, oversize, unreadable,
  read_request_body, copy_headers, error_reply, bad_request, bad_gateway, upstream_error,
  is_success,
}
use aadapter.Server.Upstream.{is_gemini, rewrite_request_for_vertex, call_upstream}

-- The reply of a handler that has come to its end.
abbrev pub reply_of : Exchange × Step Reply → Exchange × Reply
reply_of (x, halt reply) = (x, reply)
reply_of (x, next reply) = (x, reply)

-- The bytes that reached the client in the rounds of a copy.
abbrev pub bytes_of : List (Round ℕ) → List ℕ
bytes_of [] = []
bytes_of (r ∷ rs) = take r.written r.chunk ++ bytes_of rs

abbrev pub error_of : Option (Option String) → Option String
error_of (some e) = e
error_of none = none

module _ (w : World) (cfg : Config) where
  unfoldable pub check_method : String → Handling (Unit {0})
  check_method method x =
      if str_eq method "POST"
      then (x, next tt)
      else (x, halt (error_reply w 405 "invalid_request_error" "method not allowed"))

  unfoldable pub take_request_id : Handling (Unit {0})
  take_request_id x = (record x { request_id = (x.request_id + 1) % 2 ^ 64 }, next tt)

  unfoldable pub read_inbound : Body ℕ → Handling String
  read_inbound body x = elim (read_request_body (natural cfg.max_request_body_bytes) body) [
    | whole bytes ↦ (x, next (w.of_bytes bytes))
    | oversize ↦
        (x, halt (error_reply w 413 "invalid_request_error" "body exceeds configured size limit"))
    | unreadable message ↦ (x, halt (bad_request w "failed to read body"))
  ]

  unfoldable pub parse_inbound : String → Handling MessagesRequest
  parse_inbound body =
      attempt (w.parse_messages_request body) (λ message. bad_request w "invalid JSON body")

  unfoldable pub read_upstream : UpstreamResponse → String → Handling String
  read_upstream response prefix =
      attempt
        (elim (read_response_body (natural cfg.max_response_body_bytes) response.body) [
          | ok bytes ↦ ok (w.of_bytes bytes)
          | fail message ↦ fail message
        ])
        (bad_gateway w prefix)

  abbrev pub json_type : Map (List String) → Map (List String)
  json_type headers = put "Content-Type" ("application/json" ∷ []) headers

  abbrev pub context_of : String → String → Context
  context_of session_id model = record {
    platform = w.platform;
    decimal = w.decimal;
    clock = w.clock;
    store_clock = w.store_clock;
    out_of_range = w.out_of_range;
    trim_space = w.trim_space;
    write_error = w.write_error;
    session_id = session_id;
    fallback_model = model;
    max_event_bytes = natural cfg.max_stream_event_bytes;
  }

  abbrev pub start_of : List String → Exchange → Converter
  start_of sequences x = record (new_converter (map chars sequences) x.signatures x.counter) {
    reads = x.reads;
  }

  unfoldable pub stream_events : UpstreamResponse → String → String → List String → Handling Reply
  stream_events response session_id model sequences x =
      let (lines, scan_error) = w.scan (natural cfg.max_stream_event_bytes) response.body in
      let s =
        (stream_gemini (context_of session_id model) lines scan_error (start_of sequences x)).0 in
      (
        record x { signatures = s.store; counter = s.counter; reads = s.reads },
        next (record {
          status = response.status;
          headers =
              put "Content-Type" ("text/event-stream" ∷ []) (copy_headers w response.headers []);
          content = events s.events;
        }),
      )

  unfoldable pub stream_bytes : UpstreamResponse → Handling Reply
  stream_bytes response =
      let rounds = w.copy_rounds response.body in
      let copy = stream_copy (natural cfg.max_debug_capture_bytes) rounds in
      done (record {
        status = response.status;
        headers = copy_headers w response.headers [];
        content = copied (take copy.copied (bytes_of rounds)) (error_of copy.ended);
      })

  -- `s.signatures.remember`
  unfoldable pub keep_signatures : String → Converted → Handling (Unit {0})
  keep_signatures session_id converted x = (
    record x {
      signatures =
          remember w.platform.sha256_hex (w.store_clock x.reads) session_id converted.signatures
            x.signatures;
      reads = x.reads + 1;
      counter = converted.counter;
    },
    next tt,
  )

  unfoldable pub answer_gemini :
      UpstreamResponse → String → String → List String → String → Handling Reply
  answer_gemini response session_id model sequences body x =
      (do
        converted ←
            attempt
              (response_to_anthropic w.platform w.decimal w.clock w.out_of_range body sequences
                model x.counter)
              (bad_gateway w "invalid Gemini response: ")
        keep_signatures session_id converted
        done (record {
          status = response.status;
          headers = json_type (copy_headers w response.headers []);
          content = text converted.body;
        }))
        x

  abbrev pub answer_plain : UpstreamResponse → String → Handling Reply
  answer_plain response body = done (record {
    status = response.status;
    headers = copy_headers w response.headers [];
    content = text body;
  })

  unfoldable pub answer_error : UpstreamResponse → String → Handling Reply
  answer_error response prefix = do
    body ← read_upstream response prefix
    done (upstream_error w body response.status)

  unfoldable pub answer_whole : UpstreamResponse → String → String → List String → Handling Reply
  answer_whole response session_id model sequences = do
    body ← read_upstream response "failed to read upstream response: "
    (if is_gemini w cfg
        then answer_gemini response session_id model sequences body
        else answer_plain response body)

  unfoldable pub answer_stream : UpstreamResponse → String → String → List String → Handling Reply
  answer_stream response session_id model sequences =
      if is_gemini w cfg
      then stream_events response session_id model sequences
      else stream_bytes response

  unfoldable pub answer_messages :
      UpstreamResponse → String → MessagesRequest → String → Handling Reply
  answer_messages response session_id parsed model =
      if not (is_success response.status)
      then answer_error response "failed to read upstream error: "
      else if parsed.stream
      then answer_stream response session_id model parsed.stop_sequences
      else answer_whole response session_id model parsed.stop_sequences

  unfoldable pub messages_steps : Inbound → Handling Reply
  messages_steps r = do
    check_method r.method
    take_request_id
    body ← read_inbound r.body
    parsed ← parse_inbound body
    rewritten ← rewrite_request_for_vertex w cfg body parsed r.session_id
    response ← call_upstream w cfg rewritten.op rewritten.model rewritten.body
    answer_messages response r.session_id parsed rewritten.model

  unfoldable pub messages : Inbound → Exchange → Exchange × Reply
  messages r x = reply_of (messages_steps r x)
