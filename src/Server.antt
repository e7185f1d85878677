-- ===== src/Server.antt =====
-- pkg/adapter/server.go and pkg/adapter/http_helpers.go: what the handlers of the server read and
-- write, the state that they share, and how they report errors. net/http gives the request and
-- sends what goes upstream; a handler stops with a reply or goes on.
pub mod Upstream
pub mod Handlers
pub mod Counts
pub mod Laws
pub mod Sends
pub mod Answers
mod Requests
pub mod Replies
mod Tests
pub mod Errors
pub mod Serve
mod Exposure
use aadapter.Base.{
  ℕ, ◌+◌, ◌%◌, ◌^◌, String, ◌++ₛ◌, Bool, true, false, not, ◌&&◌, ◌||◌, Option, none, some, List, [],
  ◌∷◌, ◌++◌, length, ltb, leb, ◌==◌, if◌then◌else◌, str_eq,
}
use aadapter.Base.Maps.{Map, get, put}
use aadapter.Base.Integers.{ℤ, pos, negsuc}
use aadapter.Base.Outcome.{Outcome, ok, fail}
use aadapter.Json.{Float, Value, str, Object, object}
use aadapter.Platform.{Platform}
use aadapter.Capture.{Body, Round}
use aadapter.Signatures.{SignatureStore}
use aadapter.Gemini.Options.{among}
use aadapter.Gemini.Stream.{StreamEvent}

-- The fields of a decoded `messagesRequest` that are used.
pub record MessagesRequest : Type 0 where
  pub model : String
  pub stream : Bool
  pub stop_sequences : List String

-- What the handlers read of a request.
pub record Inbound : Type 0 where
  pub method : String
  pub session_id : String
  pub body : Body ℕ

-- A request as `forward` makes it; `streaming` tells which of the two clients sends it.
pub record UpstreamRequest : Type 0 where
  pub url : String
  pub authorization : String
  pub accept : String
  pub streaming : Bool
  pub body : String

pub record UpstreamResponse : Type 0 where
  pub status : ℕ
  pub headers : Map (List String)
  pub body : Body ℕ

-- What is written after the headers: a text, converted events, or the bytes that were copied, and
-- the error that is reported behind them. A handler that panics is cut off by net/http.
pub data Content : Type 0 where
  text : String → Content
  events : List StreamEvent → Content
  copied : List ℕ → Option String → Content
  aborted : Content

pub record Reply : Type 0 where
  pub status : ℕ
  pub headers : Map (List String)
  pub content : Content

-- What a client sees of a handler that panics.
abbrev pub panicked : Reply
panicked = record { status = 0; headers = []; content = aborted }

-- The state of the server, with how often the store read the clock, and what was sent upstream.
pub record Exchange : Type 0 where
  pub signatures : SignatureStore
  pub counter : ℕ
  pub reads : ℕ
  pub request_id : ℕ
  pub requests : List UpstreamRequest

-- What the handlers call: the standard library, with a test whether a text is the null of JSON and
-- the canonical form of a header's key, the clocks, the client's writes, the token provider's two
-- calls, and the n-th request that is sent.
pub record World : Type 0 where
  pub platform : Platform
  pub decimal : ℕ → String
  pub clock : ℕ → ℕ
  pub store_clock : ℕ → ℕ
  pub out_of_range : Float → ℕ
  pub trim_space : String → String
  pub status_text : ℕ → String
  pub parse_messages_request : String → Outcome MessagesRequest
  pub parse_upstream_error : String → Outcome String
  pub normalize_url : String → Outcome String
  pub is_null : String → Bool
  pub canonical : String → String
  pub of_bytes : List ℕ → String
  pub scan : ℕ → Body ℕ → List String × Option String
  pub copy_rounds : Body ℕ → List (Round ℕ)
  pub write_error : ℕ → Option String
  pub bearer_token : Outcome String
  pub refreshed_token : String → Outcome String
  pub send : ℕ → UpstreamRequest → Outcome UpstreamResponse

-- A handler goes on, or has replied.
pub data Step (A : Type 0) : Type 0 where
  halt : Reply → Step A
  next : A → Step A

abbrev pub Handling : Type 0 → Type 0
Handling A = Exchange → Exchange × Step A

abbrev pub proceed : {A B : Type 0} → Exchange × Step A → (A → Handling B) → Exchange × Step B
proceed (x, halt reply) more = (x, halt reply)
proceed (x, next a) more = more a x

infixl 5 ◌>>=◌
abbrev pub ◌>>=◌ : {A B : Type 0} → Handling A → (A → Handling B) → Handling B
◌>>=◌ first more x = proceed (first x) more

infixl 5 ◌>>◌
abbrev pub ◌>>◌ : {B : Type 0} → Handling (Unit {0}) → Handling B → Handling B
first >> more = first >>= λ _. more

abbrev pub done : {A : Type 0} → A → Handling A
done a x = (x, next a)

-- What may fail, with the reply to its error.
abbrev pub attempt : {A : Type 0} → Outcome A → (String → Reply) → Handling A
attempt (ok a) reply x = (x, next a)
attempt (fail message) reply x = (x, halt (reply message))

abbrev pub stop : {A : Type 0} → Reply → Handling A
stop reply x = (x, halt reply)

-- A size of a configuration that the server accepted, which is positive.
abbrev pub natural : ℤ → ℕ
natural (pos n) = n
natural (negsuc n) = 0

-- `http.MaxBytesReader` refuses what is longer than the limit.
pub data Reading : Type 0 where
  whole : List ℕ → Reading
  oversize : Reading
  unreadable : String → Reading

unfoldable pub read_request_body : ℕ → Body ℕ → Reading
read_request_body limit body =
    if ltb limit (length body.bytes)
    then oversize
    else (elim body.error [ none ↦ whole body.bytes | some message ↦ unreadable message ])

abbrev pub hop_headers : List String
hop_headers =
    "content-length" ∷ "connection" ∷ "transfer-encoding" ∷ "content-md5" ∷ "digest" ∷ "etag"
    ∷ "keep-alive" ∷ "proxy-authenticate" ∷ "proxy-authorization" ∷ "te" ∷ "trailer" ∷ "upgrade"
    ∷ []

abbrev pub or_no_values : Option (List String) → List String
or_no_values (some vs) = vs
or_no_values none = []

abbrev pub values_of : String → Map (List String) → List String
values_of k h = or_no_values (get k h)

-- `dst.Add(k, v)` for each of the values: the key is made canonical.
unfoldable pub add_values :
    (String → String) → String → List String → Map (List String) → Map (List String)
add_values canonical k [] dst = dst
add_values canonical k (v ∷ vs) dst =
    let key = canonical k in add_values canonical k vs (put key (values_of key dst ++ v ∷ []) dst)

-- The status with which an upstream error is classified.
unfoldable pub error_type : ℕ → String
error_type status =
    if status == 400 || status == 422
    then "invalid_request_error"
    else if status == 401
    then "authentication_error"
    else if status == 403
    then "permission_error"
    else if status == 404
    then "not_found_error"
    else if status == 429
    then "rate_limit_error"
    else "api_error"

abbrev pub is_success : ℕ → Bool
is_success status = not (ltb status 200 || leb 300 status)

module _ (w : World) where
  unfoldable pub copy_headers : Map (List String) → Map (List String) → Map (List String)
  copy_headers [] dst = dst
  copy_headers ((k, vs) ∷ src) dst =
      copy_headers src
        (if among (w.platform.to_lower k) hop_headers then dst else add_values w.canonical k vs dst)

  unfoldable pub error_body : String → String → String
  error_body kind message = w.platform.marshal (
      object (
        ("type", str "error")
        ∷ ("error", object (("type", str kind) ∷ ("message", str message) ∷ []))
        ∷ []))

  -- `writeAnthropicError`, over the headers that are set already.
  unfoldable pub error_over : Map (List String) → ℕ → String → String → Reply
  error_over headers status kind message = record {
    status = status;
    headers = put "Content-Type" ("application/json" ∷ []) headers;
    content = text (error_body kind message ++ₛ "\n");
  }

  abbrev pub error_reply : ℕ → String → String → Reply
  error_reply status kind message = error_over [] status kind message

  abbrev pub bad_request : String → Reply
  bad_request message = error_reply 400 "invalid_request_error" message

  abbrev pub bad_gateway : String → String → Reply
  bad_gateway prefix message = error_reply 502 "api_error" (prefix ++ₛ message)

  -- The message of `upstreamErrorToAnthropic`; its type is `error_type`.
  unfoldable pub upstream_message : String → ℕ → String
  upstream_message body status =
      let given : String = elim (w.parse_upstream_error body) [
        | ok message ↦ message
        | fail _ ↦ ""
      ] in
      let message = if str_eq given "" then w.status_text status else given in
      if str_eq message "" then "upstream returned HTTP " ++ₛ w.decimal status else message

  unfoldable pub upstream_error : String → ℕ → Reply
  upstream_error body status = error_reply status (error_type status) (upstream_message body status)
