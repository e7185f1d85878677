-- ===== src/Config.antt =====
-- pkg/adapter/config.go: `Config`, what it is read from, and its defaults. The environment and the
-- parsers of strconv, time, net and net/url are fields of a record.
pub mod Segments
pub mod Load
pub mod Laws
pub mod Given
pub mod Paths
pub mod Exposure
pub mod Tests
use aadapter.Base.{ℕ, ◌*◌, String, Bool, true, false, List, [], ◌∷◌, if◌then◌else◌, str_eq, not}
use aadapter.Base.Integers.{ℤ, pos, is_zero}
use aadapter.Base.Outcome.{Outcome, ok, fail}
use aadapter.Tokens.{second}

pub record Config : Type 0 where
  pub listen_addr : String
  pub verbose : Bool
  pub log_level : String
  pub adapter_api_key : String
  pub allow_unauthenticated : Bool
  pub gateway_base_url : String
  pub vertex_api_format : String
  pub project : String
  pub location : String
  pub publisher : String
  pub model : String
  pub model_override : Bool
  pub anthropic_version : String
  pub auth_url : String
  pub auth_user_id : String
  pub auth_password : String
  pub auth_otp : String
  pub auth_otp_type : String
  pub refresh_skew : ℤ
  pub gateway_timeout : ℤ
  pub auth_timeout : ℤ
  pub request_read_timeout : ℤ
  pub force_refresh_on_4x : Bool
  pub insecure_skip_tls_verify : Bool
  pub max_request_body_bytes : ℤ
  pub max_response_body_bytes : ℤ
  pub max_debug_capture_bytes : ℤ
  pub max_stream_event_bytes : ℤ
  pub signature_ttl : ℤ
  pub signature_max_sessions : ℤ
  pub signature_max_entries : ℤ

-- What the code reads of a `url.URL`.
pub record Url : Type 0 where
  pub scheme : String
  pub host : String
  pub raw_query : String
  pub fragment : String

-- `os.Getenv`, and the parsers with what their errors say: `strconv.ParseBool`,
-- `time.ParseDuration`, `strconv.ParseInt` of a decimal in so many bits, of which an `int` has
-- `int_size`, `url.ParseRequestURI`, `url.Parse`; the host of `net.SplitHostPort`; whether
-- `net.ParseIP` gives a loopback address; `strings.ToLower` and `%q`.
pub record Environment : Type 0 where
  pub getenv : String → String
  pub parse_bool : String → Outcome Bool
  pub parse_duration : String → Outcome ℤ
  pub parse_int : ℕ → String → Outcome ℤ
  pub int_size : ℕ
  pub parse_request_uri : String → Outcome Url
  pub parse_url : String → Outcome Url
  pub split_host : String → Outcome String
  pub is_loopback_ip : String → Bool
  pub to_lower : String → String
  pub quote : String → String

module _ (e : Environment) where
  unfoldable pub env_or_default : String → String → String
  env_or_default key default = if str_eq (e.getenv key) "" then default else e.getenv key

  abbrev pub parsed_or : {A : Type 0} → A → Outcome A → A
  parsed_or default (ok value) = value
  parsed_or default (fail message) = default

  unfoldable pub duration_or_default : String → ℤ → ℤ
  duration_or_default key default =
      if str_eq (e.getenv key) ""
      then default
      else parsed_or default (e.parse_duration (e.getenv key))

  unfoldable pub int64_or_default : String → ℤ → ℤ
  int64_or_default key default =
      if str_eq (e.getenv key) ""
      then default
      else parsed_or default (e.parse_int 64 (e.getenv key))

  -- `strconv.Atoi` is `strconv.ParseInt` in the bits of an `int`.
  unfoldable pub int_or_default : String → ℤ → ℤ
  int_or_default key default =
      if str_eq (e.getenv key) ""
      then default
      else parsed_or default (e.parse_int e.int_size (e.getenv key))

  unfoldable pub bool_or_default : String → Bool → Bool
  bool_or_default key default =
      if str_eq (e.getenv key) "" then default else parsed_or default (e.parse_bool (e.getenv key))

abbrev pub seconds : ℕ → ℤ
seconds n = pos (n * second)

abbrev pub mebibytes : ℕ → ℤ
mebibytes n = pos (n * 1048576)

abbrev pub if_zero : ℤ → ℤ → ℤ
if_zero default n = if is_zero n then default else n

unfoldable pub with_runtime_defaults : Config → Config
with_runtime_defaults c = record c {
  gateway_timeout = if_zero (seconds 120) c.gateway_timeout;
  auth_timeout = if_zero (seconds 10) c.auth_timeout;
  max_request_body_bytes = if_zero (mebibytes 32) c.max_request_body_bytes;
  max_response_body_bytes = if_zero (mebibytes 64) c.max_response_body_bytes;
  max_debug_capture_bytes = if_zero (mebibytes 1) c.max_debug_capture_bytes;
  max_stream_event_bytes = if_zero (mebibytes 10) c.max_stream_event_bytes;
  signature_ttl = if_zero (seconds 21600) c.signature_ttl;
  request_read_timeout = if_zero (seconds 30) c.request_read_timeout;
  signature_max_sessions = if_zero (pos 1024) c.signature_max_sessions;
  signature_max_entries = if_zero (pos 2048) c.signature_max_entries;
}
