-- ===== src/Config/Laws.antt =====
-- What holds of a configuration that `LoadConfigFromEnv` of pkg/adapter/config.go returns.
use aadapter.Base.{zero, suc, String, ◌≡◌, refl, ◌∙◌, ap, Bool, true, false, ◌&&◌, ◌||◌, str_eq}
use aadapter.Base.Integers.{ℤ, pos, negsuc, is_positive}
use aadapter.Base.Outcome.{Outcome, ok, fail, ◌>>◌, split_chain}
use aadapter.Config.{Config, Environment, seconds, mebibytes, if_zero, with_runtime_defaults}
use aadapter.Config.Load.{
  require, is_valid_log_level, validate_optional_environment, read_config, check_required,
  check_auth_url, check_formats, check_gateway, check_segments, has_size_limits,
  has_signature_limits, has_timeouts, check_limits, check_access, check_config,
  load_config_from_env, accept_checked, accept_config,
}

pub require-ok : (b : Bool) (message : String) → require b message ≡ ok tt → b ≡ true
require-ok true message h = refl
require-ok false message h = absurd (cc)

-- Where a check and what follows it succeed, both do.
pub split_check :
    (first next : Outcome (Unit {0})) → (first >> next) ≡ ok tt → (first ≡ ok tt) × (next ≡ ok tt)
split_check (fail message) next h = cc
split_check (ok _) next h = (refl, h)

pub and_split : (a b : Bool) → (a && b) ≡ true → (a ≡ true) × (b ≡ true)
and_split true b h = (refl, h)
and_split false b h = absurd (cc)

-- What the checks of a loaded configuration were.
pub record IsChecked (e : Environment) (cfg : Config) : Type 0 where
  pub optional : validate_optional_environment e ≡ ok tt
  pub is_read : cfg ≡ read_config e
  pub required : check_required cfg ≡ ok tt
  pub auth_url : check_auth_url e cfg.auth_url ≡ ok tt
  pub formats : check_formats e cfg ≡ ok tt
  pub gateway : check_gateway e cfg.gateway_base_url ≡ ok tt
  pub segments : check_segments e cfg ≡ ok tt
  pub limits : check_limits cfg ≡ ok tt
  pub access : check_access e cfg ≡ ok tt

check_config-split :
    (e : Environment) (cfg : Config)
    → validate_optional_environment e ≡ ok tt
    → cfg ≡ read_config e
    → check_config e cfg ≡ ok tt
    → IsChecked e cfg
unfolding check_config
check_config-split e cfg optional is_read h =
    let (required, h1) = split_check (check_required cfg) _ h in
    let (auth_url, h2) = split_check (check_auth_url e cfg.auth_url) _ h1 in
    let (formats, h3) = split_check (check_formats e cfg) _ h2 in
    let (gateway, h4) = split_check (check_gateway e cfg.gateway_base_url) _ h3 in
    let (segments, h5) = split_check (check_segments e cfg) _ h4 in
    let (limits, access) = split_check (check_limits cfg) _ h5 in
    record {
      optional = optional;
      is_read = is_read;
      required = required;
      auth_url = auth_url;
      formats = formats;
      gateway = gateway;
      segments = segments;
      limits = limits;
      access = access;
    }

pub load-IsChecked :
    (e : Environment) (cfg : Config) → load_config_from_env e ≡ ok cfg → IsChecked e cfg
unfolding load_config_from_env
load-IsChecked e cfg h =
    let (_, optional, h1) = split_chain (validate_optional_environment e) _ h in
    let (_, checked, h2) = split_chain (check_config e (read_config e)) _ h1 in
    let is_read : read_config e ≡ cfg = cc in
    rw (← is_read) (check_config-split e (read_config e) optional refl checked)

if_zero-positive : (default n : ℤ) → is_positive n ≡ true → if_zero default n ≡ n
if_zero-positive default (pos zero) h = absurd (cc)
if_zero-positive default (pos (suc n)) h = refl
if_zero-positive default (negsuc n) h = refl

-- Within its limits a configuration needs no defaults.
with_runtime_defaults-same :
    (cfg : Config)
    → has_size_limits (cfg) ≡ true
    → has_signature_limits cfg ≡ true
    → has_timeouts cfg ≡ true
    → with_runtime_defaults cfg ≡ cfg
unfolding with_runtime_defaults
with_runtime_defaults-same cfg sizes signatures timeouts =
    let (request, s1) = and_split (is_positive cfg.max_request_body_bytes) _ sizes in
    let (response, s2) = and_split (is_positive cfg.max_response_body_bytes) _ s1 in
    let (capture, event) = and_split (is_positive cfg.max_debug_capture_bytes) _ s2 in
    let (ttl, s3) = and_split (is_positive cfg.signature_ttl) _ signatures in
    let (sessions, entries) = and_split (is_positive cfg.signature_max_sessions) _ s3 in
    let (auth, t1) = and_split (is_positive cfg.auth_timeout) _ timeouts in
    let (gateway, t2) = and_split (is_positive cfg.gateway_timeout) _ t1 in
    let (read, skew) = and_split (is_positive cfg.request_read_timeout) _ t2 in
    λ i. record cfg {
      gateway_timeout = if_zero-positive (seconds 120) cfg.gateway_timeout gateway i;
      auth_timeout = if_zero-positive (seconds 10) cfg.auth_timeout auth i;
      max_request_body_bytes = if_zero-positive (mebibytes 32) cfg.max_request_body_bytes request i;
      max_response_body_bytes =
          if_zero-positive (mebibytes 64) cfg.max_response_body_bytes response i;
      max_debug_capture_bytes =
          if_zero-positive (mebibytes 1) cfg.max_debug_capture_bytes capture i;
      max_stream_event_bytes = if_zero-positive (mebibytes 10) cfg.max_stream_event_bytes event i;
      signature_ttl = if_zero-positive (seconds 21600) cfg.signature_ttl ttl i;
      request_read_timeout = if_zero-positive (seconds 30) cfg.request_read_timeout read i;
      signature_max_sessions = if_zero-positive (pos 1024) cfg.signature_max_sessions sessions i;
      signature_max_entries = if_zero-positive (pos 2048) cfg.signature_max_entries entries i;
    }

check_limits-split :
    (cfg : Config)
    → check_limits cfg ≡ ok tt
    → (has_size_limits cfg ≡ true) × (has_signature_limits cfg ≡ true) × (has_timeouts cfg ≡ true)
unfolding check_limits
check_limits-split cfg h =
    let (sizes, h1) = split_check (require (has_size_limits cfg) _) _ h in
    let (signatures, timeouts) = split_check (require (has_signature_limits cfg) _) _ h1 in
    (
      require-ok (has_size_limits cfg) _ sizes,
      require-ok (has_signature_limits cfg) _ signatures,
      require-ok (has_timeouts cfg) _ timeouts,
    )

check_formats-level :
    (e : Environment) (cfg : Config)
    → check_formats e cfg ≡ ok tt
    → is_valid_log_level e.to_lower cfg.log_level ≡ true
unfolding check_formats
check_formats-level e cfg h =
    let (_, h1) =
      split_check (require (str_eq cfg.auth_otp_type "TOTP" || str_eq cfg.auth_otp_type "PUSH") _) _
        h in
    let (level, _) = split_check (require (is_valid_log_level e.to_lower cfg.log_level) _) _ h1 in
    require-ok (is_valid_log_level e.to_lower cfg.log_level) _ level

accept_config-same :
    (e : Environment) (cfg : Config)
    → is_valid_log_level e.to_lower cfg.log_level ≡ true
    → has_size_limits cfg ≡ true
    → has_signature_limits cfg ≡ true
    → has_timeouts cfg ≡ true
    → accept_config e cfg ≡ ok cfg
unfolding accept_config accept_checked
accept_config-same e cfg level sizes signatures timeouts =
    ap (accept_checked e) (with_runtime_defaults-same cfg sizes signatures timeouts)
    ∙ rw (level, timeouts, sizes, signatures, accept_checked) refl

-- A configuration that is loaded is one that the server accepts, and starts with unchanged: none
-- of its limits and timeouts is replaced by a default.
pub load-accepted :
    (e : Environment) (cfg : Config)
    → load_config_from_env e ≡ ok cfg
    → accept_config e cfg ≡ ok cfg
load-accepted e cfg h =
    let checked = load-IsChecked e cfg h in
    let (sizes, signatures, timeouts) = check_limits-split cfg checked.limits in
    accept_config-same e cfg (check_formats-level e cfg checked.formats) sizes signatures timeouts
