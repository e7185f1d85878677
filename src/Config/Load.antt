-- ===== src/Config/Load.antt =====
-- pkg/adapter/config.go: `LoadConfigFromEnv`, which reads the environment and checks what it holds,
-- and `NewServer` of pkg/adapter/server.go as far as it checks a configuration.
use aadapter.Base.{
  ℕ, String, ◌++ₛ◌, Bool, true, false, not, ◌&&◌, ◌||◌, List, [], ◌∷◌, if◌then◌else◌, str_eq, chars,
  of_chars, ◌==◌,
}
use Prim.Native.Char.{Char, code}
use aadapter.Base.Integers.{pos, is_positive, is_negative}
use aadapter.Base.Outcome.{Outcome, ok, fail, ◌>>◌}
use aadapter.Gemini.Options.{among}
use aadapter.Config.{
  Config, Url, Environment, env_or_default, duration_or_default, int64_or_default, int_or_default,
  bool_or_default, seconds, mebibytes, with_runtime_defaults,
}
use aadapter.Config.Segments.{validate_vertex_resource_segment, validate_gemini_model}

abbrev pub require : Bool → String → Outcome (Unit {0})
require holds message = if holds then ok tt else fail message

-- The characters without the slashes at their end.
unfoldable pub trim_slashes : List Char → List Char
trim_slashes [] = []
trim_slashes (ch ∷ rest) = elim (trim_slashes rest) [
  | [] ↦ if code ch == 47 then [] else ch ∷ []
  | d ∷ kept ↦ ch ∷ d ∷ kept
]

-- `strings.TrimRight` of "/"
abbrev pub trim_right_slashes : String → String
trim_right_slashes s = of_chars (trim_slashes (chars s))

unfoldable pub is_valid_log_level : (String → String) → String → Bool
is_valid_log_level to_lower v = among (to_lower v) ("debug" ∷ "info" ∷ "warning" ∷ "error" ∷ [])

abbrev pub boolean_keys : List String
boolean_keys =
    "ADAPTER_VERBOSE" ∷ "MODEL_OVERRIDE" ∷ "FORCE_REFRESH_ON_401_403" ∷ "INSECURE_SKIP_TLS_VERIFY"
    ∷ "ALLOW_UNAUTHENTICATED" ∷ []

abbrev pub duration_keys : List String
duration_keys =
    "AUTH_REFRESH_SKEW" ∷ "AUTH_TIMEOUT" ∷ "GATEWAY_TIMEOUT" ∷ "REQUEST_READ_TIMEOUT"
    ∷ "SIGNATURE_TTL" ∷ []

abbrev pub integer_keys : List String
integer_keys =
    "MAX_REQUEST_BODY_BYTES" ∷ "MAX_RESPONSE_BODY_BYTES" ∷ "MAX_DEBUG_CAPTURE_BYTES"
    ∷ "MAX_STREAM_EVENT_BYTES" ∷ "SIGNATURE_MAX_SESSIONS" ∷ "SIGNATURE_MAX_ENTRIES_PER_SESSION" ∷ []

abbrev pub int_keys : List String
int_keys =
    "MAX_STREAM_EVENT_BYTES" ∷ "SIGNATURE_MAX_SESSIONS" ∷ "SIGNATURE_MAX_ENTRIES_PER_SESSION" ∷ []

-- The checks in turn, the first that fails.
unfoldable pub all_pass : (String → Outcome (Unit {0})) → List String → Outcome (Unit {0})
all_pass test [] = ok tt
all_pass test (key ∷ rest) = test key >> all_pass test rest

abbrev pub is_http : String → Bool
is_http scheme = str_eq scheme "http" || str_eq scheme "https"

unfoldable pub check_required : Config → Outcome (Unit {0})
check_required cfg = do
  require
      (not (
        str_eq cfg.gateway_base_url ""
        || (str_eq cfg.project "" || (str_eq cfg.location "" || str_eq cfg.model ""))))
      "GATEWAY_BASE_URL, VERTEX_PROJECT, VERTEX_LOCATION, VERTEX_MODEL are required"
  require
      (not (str_eq cfg.auth_url "" || (str_eq cfg.auth_user_id "" || str_eq cfg.auth_password "")))
      "AUTH_URL, AUTH_USER_ID, AUTH_PASSWORD are required"

-- The error of `url.Parse` is dropped: its result is nil then, and the program panics.
unfoldable pub check_gateway_parts : Outcome Url → Outcome (Unit {0})
check_gateway_parts (fail message) = fail "panic: invalid memory address or nil pointer dereference"
check_gateway_parts (ok url) = do
  require (not (not (is_http url.scheme) || str_eq url.host ""))
      "GATEWAY_BASE_URL must use http or https and include a host"
  require (str_eq url.raw_query "" && str_eq url.fragment "")
      "GATEWAY_BASE_URL must not contain a query or fragment"

abbrev pub has_size_limits : Config → Bool
has_size_limits cfg =
    is_positive cfg.max_request_body_bytes
    && (is_positive cfg.max_response_body_bytes
        && (is_positive cfg.max_debug_capture_bytes && is_positive cfg.max_stream_event_bytes))

abbrev pub has_signature_limits : Config → Bool
has_signature_limits cfg =
    is_positive cfg.signature_ttl
    && (is_positive cfg.signature_max_sessions && is_positive cfg.signature_max_entries)

abbrev pub has_timeouts : Config → Bool
has_timeouts cfg =
    is_positive cfg.auth_timeout
    && (is_positive cfg.gateway_timeout
        && (is_positive cfg.request_read_timeout && not (is_negative cfg.refresh_skew)))

unfoldable pub check_limits : Config → Outcome (Unit {0})
check_limits cfg = do
  require (has_size_limits cfg) "body, capture, and stream size limits must be positive"
  require (has_signature_limits cfg) "signature cache limits must be positive"
  require (has_timeouts cfg) "timeouts must be positive and AUTH_REFRESH_SKEW must not be negative"

module _ (e : Environment) where
  unfoldable pub check_boolean : String → Outcome (Unit {0})
  check_boolean key =
      if str_eq (e.getenv key) "" then ok tt else (elim (e.parse_bool (e.getenv key)) [
        | ok b ↦ ok tt
        | fail message ↦ fail (key ++ₛ (" must be a boolean: " ++ₛ message))
      ])

  unfoldable pub check_duration : String → Outcome (Unit {0})
  check_duration key =
      if str_eq (e.getenv key) "" then ok tt else (elim (e.parse_duration (e.getenv key)) [
        | ok d ↦ ok tt
        | fail message ↦ fail (key ++ₛ (" must be a duration: " ++ₛ message))
      ])

  abbrev pub bit_size : String → ℕ
  bit_size key = if among key int_keys then e.int_size else 64

  unfoldable pub check_integer : String → Outcome (Unit {0})
  check_integer key =
      if str_eq (e.getenv key) ""
      then ok tt
      else (elim (e.parse_int (bit_size key) (e.getenv key)) [
        | ok n ↦ require (is_positive n) (key ++ₛ " must be a positive integer")
        | fail message ↦ fail (key ++ₛ " must be a positive integer")
      ])

  unfoldable pub validate_optional_environment : Outcome (Unit {0})
  validate_optional_environment = do
    all_pass check_boolean boolean_keys
    all_pass check_duration duration_keys
    all_pass check_integer integer_keys

  abbrev pub api_format : String
  api_format = env_or_default e "VERTEX_API_FORMAT" "anthropic"

  abbrev pub publisher_default : String
  publisher_default = if str_eq api_format "gemini" then "google" else "anthropic"

  unfoldable pub read_config : Config
  read_config = record {
    listen_addr = env_or_default e "ADAPTER_LISTEN_ADDR" "127.0.0.1:8080";
    verbose = bool_or_default e "ADAPTER_VERBOSE" false;
    log_level = env_or_default e "ADAPTER_LOG_LEVEL" "info";
    adapter_api_key = e.getenv "ADAPTER_API_KEY";
    allow_unauthenticated = bool_or_default e "ALLOW_UNAUTHENTICATED" false;
    gateway_base_url = trim_right_slashes (e.getenv "GATEWAY_BASE_URL");
    vertex_api_format = api_format;
    project = e.getenv "VERTEX_PROJECT";
    location = e.getenv "VERTEX_LOCATION";
    publisher = env_or_default e "VERTEX_PUBLISHER" publisher_default;
    model = e.getenv "VERTEX_MODEL";
    model_override = bool_or_default e "MODEL_OVERRIDE" true;
    anthropic_version = env_or_default e "VERTEX_ANTHROPIC_VERSION" "vertex-2023-10-16";
    auth_url = e.getenv "AUTH_URL";
    auth_user_id = e.getenv "AUTH_USER_ID";
    auth_password = e.getenv "AUTH_PASSWORD";
    auth_otp = e.getenv "AUTH_OTP";
    auth_otp_type = env_or_default e "AUTH_OTP_TYPE" "TOTP";
    refresh_skew = duration_or_default e "AUTH_REFRESH_SKEW" (seconds 90);
    gateway_timeout = duration_or_default e "GATEWAY_TIMEOUT" (seconds 120);
    auth_timeout = duration_or_default e "AUTH_TIMEOUT" (seconds 10);
    request_read_timeout = duration_or_default e "REQUEST_READ_TIMEOUT" (seconds 30);
    force_refresh_on_4x = bool_or_default e "FORCE_REFRESH_ON_401_403" true;
    insecure_skip_tls_verify = bool_or_default e "INSECURE_SKIP_TLS_VERIFY" false;
    max_request_body_bytes = int64_or_default e "MAX_REQUEST_BODY_BYTES" (mebibytes 32);
    max_response_body_bytes = int64_or_default e "MAX_RESPONSE_BODY_BYTES" (mebibytes 64);
    max_debug_capture_bytes = int64_or_default e "MAX_DEBUG_CAPTURE_BYTES" (mebibytes 1);
    max_stream_event_bytes = int_or_default e "MAX_STREAM_EVENT_BYTES" (mebibytes 10);
    signature_ttl = duration_or_default e "SIGNATURE_TTL" (seconds 21600);
    signature_max_sessions = int_or_default e "SIGNATURE_MAX_SESSIONS" (pos 1024);
    signature_max_entries = int_or_default e "SIGNATURE_MAX_ENTRIES_PER_SESSION" (pos 2048);
  }

  unfoldable pub is_loopback_listen_address : String → Bool
  is_loopback_listen_address address = elim (e.split_host address) [
    | fail message ↦ false
    | ok host ↦ str_eq host "localhost" || e.is_loopback_ip host
  ]

  unfoldable pub check_auth_url : String → Outcome (Unit {0})
  check_auth_url auth_url = elim (e.parse_request_uri auth_url) [
    | fail message ↦ fail "AUTH_URL must be a valid absolute http or https URL"
    | ok url ↦
        require (not (str_eq url.host "" || not (is_http url.scheme)))
          "AUTH_URL must be a valid absolute http or https URL"
  ]

  unfoldable pub check_formats : Config → Outcome (Unit {0})
  check_formats cfg = do
    require (str_eq cfg.auth_otp_type "TOTP" || str_eq cfg.auth_otp_type "PUSH")
        "AUTH_OTP_TYPE must be TOTP or PUSH"
    require (is_valid_log_level e.to_lower cfg.log_level)
        "ADAPTER_LOG_LEVEL must be one of: debug, info, warning, error"
    require (str_eq cfg.vertex_api_format "anthropic" || str_eq cfg.vertex_api_format "gemini")
        "VERTEX_API_FORMAT must be anthropic or gemini"
    require (not (str_eq cfg.vertex_api_format "gemini" && not (str_eq cfg.publisher "google")))
        "VERTEX_PUBLISHER must be google when VERTEX_API_FORMAT=gemini"

  unfoldable pub check_gateway : String → Outcome (Unit {0})
  check_gateway gateway = elim (e.parse_request_uri gateway) [
    | fail message ↦ fail ("GATEWAY_BASE_URL must be a valid absolute URL: " ++ₛ message)
    | ok url ↦ check_gateway_parts (e.parse_url gateway)
  ]

  unfoldable pub check_segments : Config → Outcome (Unit {0})
  check_segments cfg = do
    validate_vertex_resource_segment "VERTEX_PROJECT" cfg.project
    validate_vertex_resource_segment "VERTEX_LOCATION" cfg.location
    validate_vertex_resource_segment "VERTEX_PUBLISHER" cfg.publisher
    validate_vertex_resource_segment "VERTEX_MODEL" cfg.model
    if str_eq cfg.vertex_api_format "gemini" then validate_gemini_model e.quote cfg.model else ok tt

  unfoldable pub check_access : Config → Outcome (Unit {0})
  check_access cfg =
      require
        (not (
          str_eq cfg.adapter_api_key ""
          && (not cfg.allow_unauthenticated && not (is_loopback_listen_address cfg.listen_addr))))
        "ADAPTER_API_KEY is required for a non-loopback ADAPTER_LISTEN_ADDR unless ALLOW_UNAUTHENTICATED=true is explicitly set"

  unfoldable pub check_config : Config → Outcome (Unit {0})
  check_config cfg = do
    check_required cfg
    check_auth_url cfg.auth_url
    check_formats cfg
    check_gateway cfg.gateway_base_url
    check_segments cfg
    check_limits cfg
    check_access cfg

  unfoldable pub load_config_from_env : Outcome Config
  load_config_from_env = do validate_optional_environment; check_config read_config; ok read_config

  -- What `NewServer` checks, once the defaults are in.
  unfoldable pub accept_checked : Config → Outcome Config
  accept_checked cfg = do
    require (is_valid_log_level e.to_lower cfg.log_level) ("invalid log level: " ++ₛ cfg.log_level)
    require (has_timeouts cfg) "invalid timeout configuration"
    require (has_size_limits cfg && has_signature_limits cfg) "invalid resource limit configuration"
    ok cfg

  -- What `NewServer` starts from: the configuration with its defaults, if it accepts it.
  unfoldable pub accept_config : Config → Outcome Config
  accept_config given = accept_checked (with_runtime_defaults given)
