-- ===== src/Config/Given.antt =====
-- The settings that `LoadConfigFromEnv` of pkg/adapter/config.go reads with a default.
use aadapter.Base.{
  String, ◌≡◌, refl, inl, inr, Bool, true, false, List, [], ◌∷◌, All, if◌then◌else◌, str_eq,
}
use aadapter.Base.Integers.{ℤ, pos}
use aadapter.Base.Outcome.{Outcome, Outcome-cases, ok}
use aadapter.Gemini.Options.{among}
use aadapter.Config.{
  Config, Environment, duration_or_default, int64_or_default, int_or_default, bool_or_default,
  parsed_or, seconds, mebibytes,
}
use aadapter.Config.Load.{
  check_boolean, check_duration, check_integer, bit_size, all_pass, boolean_keys, duration_keys,
  integer_keys, validate_optional_environment, read_config, load_config_from_env,
}
use aadapter.Config.Laws.{split_check, load-IsChecked}

-- The default if the text is empty, and otherwise what the text says.
abbrev pub Given : {A : Type 0} → (String → Outcome A) → String → A → A → Type 0
Given parse text default value = if str_eq text "" then value ≡ default else parse text ≡ ok value

all_pass-All :
    (test : String → Outcome (Unit {0})) (keys : List String)
    → all_pass test keys ≡ ok tt
    → All (λ key. test key ≡ ok tt) keys
unfolding all_pass
all_pass-All test [] h = tt
all_pass-All test (key ∷ rest) h =
    let (here, later) = split_check (test key) (all_pass test rest) h in
    (here, all_pass-All test rest later)

module _ (e : Environment) where
  parsed-Given :
      {A : Type 0} (parse : String → Outcome A) (text : String) (default : A) (checked : Bool)
      → checked ≡ str_eq text ""
      → ((checked ≡ false) → (value : A) × (parse text ≡ ok value))
      → Given parse text default (if checked then default else parsed_or e default (parse text))
  parsed-Given parse text default true c h = rw (← c) refl
  parsed-Given parse text default false c h = let (value, is) = h refl in rw (← c, is) refl

  check_duration-parses :
      (key : String)
      → check_duration e key ≡ ok tt
      → str_eq (e.getenv key) "" ≡ false
      → (value : ℤ) × (e.parse_duration (e.getenv key) ≡ ok value)
  unfolding check_duration
  check_duration-parses key h given = elim (Outcome-cases (e.parse_duration (e.getenv key))) [
    | inl (message, fails) ↦ absurd (cc (rw (given, fails, check_duration) at h))
    | inr parsed ↦ parsed
  ]

  duration_or_default-Given :
      (key : String) (default : ℤ)
      → check_duration e key ≡ ok tt
      → Given e.parse_duration (e.getenv key) default (duration_or_default e key default)
  unfolding duration_or_default
  duration_or_default-Given key default h =
      parsed-Given e.parse_duration (e.getenv key) default (str_eq (e.getenv key) "") refl
        (check_duration-parses key h)

  check_boolean-parses :
      (key : String)
      → check_boolean e key ≡ ok tt
      → str_eq (e.getenv key) "" ≡ false
      → (value : Bool) × (e.parse_bool (e.getenv key) ≡ ok value)
  unfolding check_boolean
  check_boolean-parses key h given = elim (Outcome-cases (e.parse_bool (e.getenv key))) [
    | inl (message, fails) ↦ absurd (cc (rw (given, fails, check_boolean) at h))
    | inr parsed ↦ parsed
  ]

  bool_or_default-Given :
      (key : String) (default : Bool)
      → check_boolean e key ≡ ok tt
      → Given e.parse_bool (e.getenv key) default (bool_or_default e key default)
  unfolding bool_or_default
  bool_or_default-Given key default h =
      parsed-Given e.parse_bool (e.getenv key) default (str_eq (e.getenv key) "") refl
        (check_boolean-parses key h)

  check_integer-parses :
      (key : String)
      → check_integer e key ≡ ok tt
      → str_eq (e.getenv key) "" ≡ false
      → (value : ℤ) × (e.parse_int (bit_size e key) (e.getenv key) ≡ ok value)
  unfolding check_integer
  check_integer-parses key h given =
      elim (Outcome-cases (e.parse_int (bit_size e key) (e.getenv key))) [
        | inl (message, fails) ↦ absurd (cc (rw (given, fails, check_integer) at h))
        | inr parsed ↦ parsed
      ]

  int64_or_default-Given :
      (key : String) (default : ℤ)
      → bit_size e key ≡ 64
      → check_integer e key ≡ ok tt
      → Given (e.parse_int 64) (e.getenv key) default (int64_or_default e key default)
  unfolding int64_or_default
  int64_or_default-Given key default bits h =
      parsed-Given (e.parse_int 64) (e.getenv key) default (str_eq (e.getenv key) "") refl
        (rw bits at (check_integer-parses key h))

  int_or_default-Given :
      (key : String) (default : ℤ)
      → bit_size e key ≡ e.int_size
      → check_integer e key ≡ ok tt
      → Given (e.parse_int e.int_size) (e.getenv key) default (int_or_default e key default)
  unfolding int_or_default
  int_or_default-Given key default bits h =
      parsed-Given (e.parse_int e.int_size) (e.getenv key) default (str_eq (e.getenv key) "") refl
        (rw bits at (check_integer-parses key h))

  -- The settings of a configuration that are no texts, each with what it is read from.
  pub record IsGiven (cfg : Config) : Type 0 where
    pub verbose : Given e.parse_bool (e.getenv "ADAPTER_VERBOSE") false cfg.verbose
    pub allow :
        Given e.parse_bool (e.getenv "ALLOW_UNAUTHENTICATED") false cfg.allow_unauthenticated
    pub override : Given e.parse_bool (e.getenv "MODEL_OVERRIDE") true cfg.model_override
    pub force :
        Given e.parse_bool (e.getenv "FORCE_REFRESH_ON_401_403") true cfg.force_refresh_on_4x
    pub insecure :
        Given e.parse_bool (e.getenv "INSECURE_SKIP_TLS_VERIFY") false cfg.insecure_skip_tls_verify
    pub skew : Given e.parse_duration (e.getenv "AUTH_REFRESH_SKEW") (seconds 90) cfg.refresh_skew
    pub gateway :
        Given e.parse_duration (e.getenv "GATEWAY_TIMEOUT") (seconds 120) cfg.gateway_timeout
    pub auth : Given e.parse_duration (e.getenv "AUTH_TIMEOUT") (seconds 10) cfg.auth_timeout
    pub reading :
        Given e.parse_duration
          (e.getenv "REQUEST_READ_TIMEOUT")
          (seconds 30)
          cfg.request_read_timeout
    pub ttl : Given e.parse_duration (e.getenv "SIGNATURE_TTL") (seconds 21600) cfg.signature_ttl
    pub request :
        Given
          (e.parse_int 64)
          (e.getenv "MAX_REQUEST_BODY_BYTES")
          (mebibytes 32)
          cfg.max_request_body_bytes
    pub response :
        Given
          (e.parse_int 64)
          (e.getenv "MAX_RESPONSE_BODY_BYTES")
          (mebibytes 64)
          cfg.max_response_body_bytes
    pub capture :
        Given
          (e.parse_int 64)
          (e.getenv "MAX_DEBUG_CAPTURE_BYTES")
          (mebibytes 1)
          cfg.max_debug_capture_bytes
    pub event :
        Given
          (e.parse_int e.int_size)
          (e.getenv "MAX_STREAM_EVENT_BYTES")
          (mebibytes 10)
          cfg.max_stream_event_bytes
    pub sessions :
        Given
          (e.parse_int e.int_size)
          (e.getenv "SIGNATURE_MAX_SESSIONS")
          (pos 1024)
          cfg.signature_max_sessions
    pub entries :
        Given
          (e.parse_int e.int_size)
          (e.getenv "SIGNATURE_MAX_ENTRIES_PER_SESSION")
          (pos 2048)
          cfg.signature_max_entries

  read_config-IsGiven : validate_optional_environment e ≡ ok tt → IsGiven (read_config e)
  unfolding validate_optional_environment read_config among
  read_config-IsGiven h =
      let (h1, h2) = split_check (all_pass (check_boolean e) boolean_keys) _ h in
      let (h3, h4) = split_check (all_pass (check_duration e) duration_keys) _ h2 in
      let (verbose, (override, (force, (insecure, (allow, _))))) =
        all_pass-All (check_boolean e) boolean_keys h1 in
      let (skew, (auth, (gateway, (reading, (ttl, _))))) =
        all_pass-All (check_duration e) duration_keys h3 in
      let (request, (response, (capture, (event, (sessions, (entries, _)))))) =
        all_pass-All (check_integer e) integer_keys h4 in
      record {
        verbose = bool_or_default-Given "ADAPTER_VERBOSE" false verbose;
        allow = bool_or_default-Given "ALLOW_UNAUTHENTICATED" false allow;
        override = bool_or_default-Given "MODEL_OVERRIDE" true override;
        force = bool_or_default-Given "FORCE_REFRESH_ON_401_403" true force;
        insecure = bool_or_default-Given "INSECURE_SKIP_TLS_VERIFY" false insecure;
        skew = duration_or_default-Given "AUTH_REFRESH_SKEW" (seconds 90) skew;
        gateway = duration_or_default-Given "GATEWAY_TIMEOUT" (seconds 120) gateway;
        auth = duration_or_default-Given "AUTH_TIMEOUT" (seconds 10) auth;
        reading = duration_or_default-Given "REQUEST_READ_TIMEOUT" (seconds 30) reading;
        ttl = duration_or_default-Given "SIGNATURE_TTL" (seconds 21600) ttl;
        request = int64_or_default-Given "MAX_REQUEST_BODY_BYTES" (mebibytes 32) refl request;
        response = int64_or_default-Given "MAX_RESPONSE_BODY_BYTES" (mebibytes 64) refl response;
        capture = int64_or_default-Given "MAX_DEBUG_CAPTURE_BYTES" (mebibytes 1) refl capture;
        event = int_or_default-Given "MAX_STREAM_EVENT_BYTES" (mebibytes 10) refl event;
        sessions = int_or_default-Given "SIGNATURE_MAX_SESSIONS" (pos 1024) refl sessions;
        entries = int_or_default-Given "SIGNATURE_MAX_ENTRIES_PER_SESSION" (pos 2048) refl entries;
      }

-- No setting of a loaded configuration is silently replaced: every flag, timeout and limit is its
-- default if its variable is empty or not set, and otherwise what the variable says; an
-- environment with one that says nothing is refused.
pub load-IsGiven :
    (e : Environment) (cfg : Config) → load_config_from_env e ≡ ok cfg → IsGiven e cfg
load-IsGiven e cfg h =
    let checked = load-IsChecked e cfg h in
    rw checked.is_read (read_config-IsGiven e checked.optional)
