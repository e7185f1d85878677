-- ===== src/Config/Tests.antt =====
-- Runs of the configuration of pkg/adapter/config.go at concrete environments.
use Prim.Native.Char.{Char}
use aadapter.Base.{String, ◌≡◌, refl, true, List, [], ◌∷◌, if◌then◌else◌, str_eq, chars}
use aadapter.Base.Integers.{pos, negsuc}
use aadapter.Base.Outcome.{ok, fail}
use aadapter.Gemini.Options.{among}
use aadapter.Gemini.Carrier.{cut_prefix}
use aadapter.Access.{Request, provided_key, is_admitted}
use aadapter.Config.{
  Config, Environment, env_or_default, duration_or_default, int64_or_default, int_or_default,
  bool_or_default, with_runtime_defaults,
}
use aadapter.Config.Segments.{
  is_alphanumeric, is_segment_char, all_segment_chars, is_segment, validate_vertex_resource_segment,
  validate_gemini_model, generate_content, operation_name, target_path,
}
use aadapter.Config.Load.{
  trim_slashes, is_valid_log_level, all_pass, check_boolean, check_duration, check_integer,
  validate_optional_environment, read_config, is_loopback_listen_address, check_required,
  check_auth_url, check_formats, check_gateway_parts, check_gateway, check_segments, check_limits,
  check_access, check_config, load_config_from_env, accept_checked, accept_config,
}
use aadapter.Config.Laws.{load-accepted}
use aadapter.Config.Given.{IsGiven, load-IsGiven}
use aadapter.Config.Paths.{split_on, target_path-segments}

program : Unit {0}
unfolding among cut_prefix provided_key is_admitted env_or_default duration_or_default
    int64_or_default int_or_default bool_or_default with_runtime_defaults is_alphanumeric
    is_segment_char all_segment_chars is_segment validate_vertex_resource_segment
    validate_gemini_model target_path trim_slashes is_valid_log_level all_pass check_boolean
    check_duration check_integer validate_optional_environment read_config
    is_loopback_listen_address check_required check_auth_url check_formats check_gateway_parts
    check_gateway check_segments check_limits check_access check_config load_config_from_env
    accept_checked accept_config
program = tt

abbrev value_of : String → List (String × String) → String
value_of key [] = ""
value_of key ((k, v) ∷ rest) = if str_eq k key then v else value_of key rest

abbrev variables : List (String × String)
variables =
    ("GATEWAY_BASE_URL", "https://gateway/")
    ∷ ("VERTEX_PROJECT", "p-1")
    ∷ ("VERTEX_LOCATION", "eu")
    ∷ ("VERTEX_MODEL", "gemini-3.6-flash")
    ∷ ("AUTH_URL", "https://auth")
    ∷ ("AUTH_USER_ID", "u")
    ∷ ("AUTH_PASSWORD", "w")
    ∷ ("VERTEX_API_FORMAT", "gemini")
    ∷ ("MAX_STREAM_EVENT_BYTES", "7")
    ∷ []

-- An environment of the variables above, one of which may be set otherwise.
abbrev pub environment : String → String → Environment
environment key value = record {
  getenv = λ k. if str_eq k key then value else value_of k variables;
  parse_bool = λ s. if str_eq s "true" then ok true else fail "invalid syntax";
  parse_duration = λ s. if str_eq s "1s" then ok (pos 1000000000) else fail "invalid duration";
  parse_int = λ bits s.
      if str_eq s "7" then ok (pos 7) else if str_eq s "-1" then ok (negsuc 0) else fail "invalid";
  int_size = 64;
  parse_request_uri =
      λ s. ok (record { scheme = "https"; host = "h"; raw_query = ""; fragment = "" });
  parse_url = λ s. ok (record { scheme = "https"; host = "h"; raw_query = ""; fragment = "" });
  split_host = λ s. ok s;
  is_loopback_ip = λ s. str_eq s "127.0.0.1:8080";
  to_lower = λ s. s;
  quote = λ s. s;
}

abbrev pub loaded : Config
loaded = read_config (environment "" "")

pub loads : load_config_from_env (environment "" "") ≡ ok loaded
unfolding program
loads = refl

reads :
    (loaded.gateway_base_url ≡ "https://gateway")
    × (loaded.publisher ≡ "google")
    × (loaded.max_stream_event_bytes ≡ pos 7)
    × (loaded.max_debug_capture_bytes ≡ pos 1048576)
unfolding program
reads = (refl, refl, refl, refl)

refuses :
    (load_config_from_env (environment "AUTH_TIMEOUT" "soon")
      ≡ fail "AUTH_TIMEOUT must be a duration: invalid duration")
    × (load_config_from_env (environment "SIGNATURE_MAX_SESSIONS" "-1")
        ≡ fail "SIGNATURE_MAX_SESSIONS must be a positive integer")
    × (load_config_from_env (environment "VERTEX_PROJECT" "a/../b")
        ≡ fail "VERTEX_PROJECT contains characters that are unsafe in a Vertex resource path")
    × (load_config_from_env (environment "VERTEX_PUBLISHER" "anthropic")
        ≡ fail "VERTEX_PUBLISHER must be google when VERTEX_API_FORMAT=gemini")
unfolding program
refuses = (refl, refl, refl, refl)

load-accepted_example : accept_config (environment "" "") loaded ≡ ok loaded
load-accepted_example = load-accepted (environment "" "") loaded loads

load-IsGiven_example : IsGiven (environment "" "") loaded
load-IsGiven_example = load-IsGiven (environment "" "") loaded loads

abbrev pub no_key : Request
no_key = record { path = "/v1/messages"; api_key = "guess"; authorization = "" }

model_is_valid : validate_vertex_resource_segment "model" "gemini-2" ≡ ok tt
unfolding program
model_is_valid = refl

target_path-segments_example :
    (last : List Char) × (split_on 47 [] (
        chars
          (target_path loaded.project loaded.location loaded.publisher generate_content "gemini-2"))
      ≡ []
        ∷ chars "v1"
        ∷ chars "projects"
        ∷ chars loaded.project
        ∷ chars "locations"
        ∷ chars loaded.location
        ∷ chars "publishers"
        ∷ chars loaded.publisher
        ∷ chars "models"
        ∷ last
        ∷ [])
    × (split_on 58 [] last ≡ chars "gemini-2" ∷ chars (operation_name generate_content) ∷ [])
target_path-segments_example =
    target_path-segments (environment "" "") loaded "model" "gemini-2" generate_content loads
      model_is_valid
