-- ===== src/Server/Tests.antt =====
-- Runs of the handlers of pkg/adapter/server.go at concrete requests.
use aadapter.Base.{
  ℕ, String, ◌≡◌, refl, ◌⊎◌, true, false, none, List, [], ◌∷◌, ◌++◌, ◌==◌, if◌then◌else◌, str_eq,
  length, inr, arith,
}
use aadapter.Base.Maps.{Map, get, put, delete, Distinct}
use aadapter.Base.Integers.{pos}
use aadapter.Base.Outcome.{ok, fail}
use aadapter.Json.{str, Object, object, array, string_or_empty}
use aadapter.Platform.Sample.{sample}
use aadapter.Capture.{read_limited, check_length, read_response_body}
use aadapter.Signatures.{new_signature_store}
use aadapter.Gemini.Options.{among}
use aadapter.Gemini.Carrier.{cut_prefix}
use aadapter.Config.{
  Config, Environment, env_or_default, duration_or_default, int64_or_default, int_or_default,
  bool_or_default,
}
use aadapter.Config.Segments.{
  VertexOperation, is_alphanumeric, is_segment_char, all_segment_chars, is_segment,
  validate_vertex_resource_segment, target_path,
}
use aadapter.Config.Load.{trim_slashes, read_config}
use aadapter.Server.Counts.{
  check_format, count_steps, count_tokens_handler, count_parsed, rewrite_count, answer_count,
}
use aadapter.Server.{
  MessagesRequest, Inbound, UpstreamRequest, UpstreamResponse, next, text, panicked, Exchange,
  World, read_request_body, values_of, add_values, error_type, copy_headers, error_body, error_over,
  upstream_message, upstream_error,
}
use aadapter.Server.Upstream.{
  rewrite_anthropic, rewrite_request_for_vertex, forward, retry, call_upstream,
}
use aadapter.Server.Handlers.{
  reply_of, check_method, take_request_id, read_inbound, parse_inbound, read_upstream, answer_error,
  answer_whole, answer_messages, messages_steps, messages,
}
use aadapter.Server.Laws.{Attempts}
use aadapter.Server.Requests.{messages-sends, count-sends}
use aadapter.Server.Errors.{Refusal, answer_messages-Refusal}
use aadapter.Server.Replies.{is_hop, copy_headers-values}
use aadapter.Json.{copy_field}
use aadapter.Gemini.Options.{
  only_fields, level_of_output_config, level_of_thinking, resolve_thinking_level, copied_for,
  build_generation_config, validate_top_level_fields,
}
use aadapter.Gemini.Tools.{build_tools_of, build_tools, tool_config_of, build_tool_config}
use aadapter.Gemini.Media.{join}
use aadapter.Gemini.Contents.{
  convert_content, note_messages, merge_content, add_content, add_message, add_messages,
  build_contents,
}
use aadapter.Gemini.Request.{
  collect_block, collect_blocks, collect_texts, collect_message, collect_messages, collect_system,
  build_system_instruction, check_contents, convert_request, messages_to_gemini,
}
use aadapter.Config.Segments.{validate_gemini_model}
use aadapter.Server.Upstream.{take_snapshot}
use aadapter.Signatures.{snapshot, signature_session_key, cleanup, cleanup_sessions}
use aadapter.Gemini.Answer.{count_tokens_to_anthropic}
use aadapter.Gemini.Response.{uint64_number}

program : Unit {0}
unfolding get put delete string_or_empty read_limited check_length read_response_body among
    cut_prefix env_or_default duration_or_default int64_or_default int_or_default bool_or_default
    is_alphanumeric is_segment_char all_segment_chars is_segment validate_vertex_resource_segment
    target_path trim_slashes read_config read_request_body add_values error_type copy_headers
    error_body error_over upstream_message upstream_error rewrite_anthropic
    rewrite_request_for_vertex forward retry call_upstream check_method take_request_id read_inbound
    parse_inbound read_upstream answer_error answer_whole answer_messages messages_steps messages
    check_format count_steps count_tokens_handler copy_field only_fields level_of_output_config
    level_of_thinking resolve_thinking_level copied_for build_generation_config
    validate_top_level_fields build_tools_of build_tools tool_config_of build_tool_config join
    convert_content note_messages merge_content add_content add_message add_messages build_contents
    collect_block collect_blocks collect_texts collect_message collect_messages collect_system
    build_system_instruction check_contents convert_request messages_to_gemini count_parsed
    rewrite_count validate_gemini_model take_snapshot snapshot signature_session_key cleanup
    answer_count count_tokens_to_anthropic cleanup_sessions uint64_number
program = tt

abbrev environment : Environment
environment = record {
  getenv = λ k. if str_eq k "VERTEX_MODEL" then "claude" else "";
  parse_bool = λ s. ok true;
  parse_duration = λ s. ok (pos 1);
  parse_int = λ bits s. ok (pos 1);
  int_size = 64;
  parse_request_uri = λ s. fail "";
  parse_url = λ s. fail "";
  split_host = λ s. ok s;
  is_loopback_ip = λ s. true;
  to_lower = λ s. s;
  quote = λ s. s;
}

abbrev cfg : Config
cfg = read_config environment

abbrev headers : Map (List String)
headers = ("Request-Id", "7" ∷ "8" ∷ []) ∷ ("Etag", "x" ∷ []) ∷ []

-- An upstream that rejects the first token, and knows no other status but 200 and that of `end`.
abbrev pub world : ℕ → World
world end = record {
  platform = record sample { to_lower = λ s. if str_eq s "Etag" then "etag" else s };
  decimal = λ n. "9";
  clock = λ n. 0;
  store_clock = λ n. 0;
  out_of_range = λ x. 0;
  trim_space = λ s. s;
  status_text = λ n. "";
  parse_messages_request =
      λ s. ok (record { model = "other"; stream = false; stop_sequences = [] });
  parse_upstream_error = λ s. fail "";
  normalize_url = λ s. ok s;
  is_null = λ s. str_eq s "null";
  canonical = λ s. if str_eq s "request-id" then "Request-Id" else s;
  of_bytes = λ s. "{}";
  scan = λ n b. ([], none);
  copy_rounds = λ b. [];
  write_error = λ n. none;
  bearer_token = ok "Bearer old";
  refreshed_token = λ t. ok "Bearer new";
  send = λ n r. ok (record {
    status = if n == 0 then 401 else end;
    headers = headers;
    body = record { bytes = []; error = none };
  });
}

abbrev pub inbound : Inbound
inbound = record { method = "POST"; session_id = "s"; body = record { bytes = []; error = none } }

abbrev pub start : Exchange
start = record {
  signatures = new_signature_store 1 1 1;
  counter = 0;
  reads = 0;
  request_id = 0;
  requests = [];
}

abbrev request : String → UpstreamRequest
request bearer = record {
  url = "/v1/projects//locations//publishers/anthropic/models/claude:rawPredict";
  authorization = bearer;
  accept = "application/json";
  streaming = false;
  body = "{}";
}

-- A rejected token is replaced once, and the answer to the second request is passed on.
retries :
    ((messages (world 200) cfg inbound start).0.requests
      ≡ request "Bearer old" ∷ request "Bearer new" ∷ [])
    × ((messages (world 200) cfg inbound start).1 ≡ record {
      status = 200;
      headers = ("Request-Id", "7" ∷ "8" ∷ []) ∷ [];
      content = text "{}";
    })
unfolding program
retries = (refl, refl)

-- A second rejection is reported, and so is a method that is not allowed.
gives_up :
    ((messages (world 403) cfg inbound start).1.status ≡ 403)
    × (length (messages (world 403) cfg inbound start).0.requests ≡ 2)
    × ((messages (world 200) cfg (record inbound { method = "GET" }) start).1.status ≡ 405)
    × ((count_tokens_handler (world 200) cfg inbound start).1.status ≡ 501)
unfolding program
gives_up = (refl, refl, refl, refl)

messages-sends_example :
    ((messages (world 200) cfg inbound start).0.requests ≡ [])
    ⊎ ((op : VertexOperation) × (model body : String) × (validate_vertex_resource_segment "model"
            model
          ≡ ok tt)
        × ((new : List UpstreamRequest) × ((messages (world 200) cfg inbound start).0.requests
              ≡ [] ++ new)
            × Attempts (world 200) cfg 0 op model body new))
messages-sends_example = messages-sends (world 200) cfg inbound start

-- A body that is null is taken for a request, and the assignment to its nil map panics.
panics : (messages (record (world 200) { of_bytes = λ s. "null" }) cfg inbound start).1 ≡ panicked
unfolding program
panics = refl

abbrev gemini_cfg : Config
gemini_cfg = record cfg { vertex_api_format = "gemini"; model = "gemini-2" }

abbrev conversation : Object
conversation =
    ("messages", array (object (("role", str "user") ∷ ("content", str "hi") ∷ []) ∷ [])) ∷ []

abbrev gemini_world : World
gemini_world = record (world 200) {
  platform = record sample { unmarshal_object = λ s. ok conversation };
}

count-sends_example :
    ((count_tokens_handler gemini_world gemini_cfg inbound start).0.requests ≡ [])
    ⊎ ((op : VertexOperation) × (model body : String) × (validate_vertex_resource_segment "model"
            model
          ≡ ok tt)
        × ((new : List UpstreamRequest) × ((count_tokens_handler gemini_world gemini_cfg inbound
                start).0.requests
              ≡ [] ++ new)
            × Attempts gemini_world gemini_cfg 0 op model body new))
count-sends_example = count-sends gemini_world gemini_cfg inbound start

counts : length (count_tokens_handler gemini_world gemini_cfg inbound start).0.requests ≡ 2
unfolding program
counts = refl

headers-Distinct : Distinct headers
unfolding program
headers-Distinct = (refl, (refl, tt))

copy_headers-values_example :
    values_of "Request-Id" (copy_headers (world 200) headers [])
    ≡ (if is_hop (world 200) "Request-Id" then [] else values_of "Request-Id" headers)
copy_headers-values_example =
    copy_headers-values (world 200) "Request-Id" headers headers-Distinct (refl, (refl, tt))

abbrev refused : UpstreamResponse
refused = record { status = 429; headers = headers; body = record { bytes = 1 ∷ []; error = none } }

abbrev streamed : MessagesRequest
streamed = record { model = ""; stream = true; stop_sequences = [] }

-- An error of the upstream without a message or a known status.
classifies :
    (answer_messages (world 200) cfg refused "s" streamed "claude" start).1
    ≡ next (error_over (world 200) [] 429 "rate_limit_error" "upstream returned HTTP 9")
unfolding program
classifies = refl

answer_messages-Refusal_example :
    Refusal
      (world 200)
      cfg
      refused
      start
      (reply_of (answer_messages (world 200) cfg refused "s" streamed "claude" start))
answer_messages-Refusal_example =
    answer_messages-Refusal (world 200) cfg refused "s" streamed "claude" start (inr (omega arith))
