-- ===== src/Api/Config.antt =====
-- The configuration of the API service (services/api/internal/config/config.go). The environment
-- and the parsers of `time` and `strconv` are parameters.
pub mod Load
use payment_orchestrator.Base.{ℕ, ◌*◌, ◌%◌, String, Bool, Option, none, some, str_eq, if◌then◌else◌}
use payment_orchestrator.Base.Words.{two64}

-- A value, or the variable that could not be parsed.
pub data Loaded (A : Type 0) : Type 0 where
  loaded : A → Loaded A
  load_failed : String → Loaded A

abbrev pub bind_loaded : {A B : Type 0} → Loaded A → (A → Loaded B) → Loaded B
bind_loaded (loaded a) f = f a
bind_loaded (load_failed key) f = load_failed key

-- `os.Getenv`, which gives the empty text for a variable that is not set; `time.ParseDuration`,
-- in nanoseconds; `strconv.Atoi`; `strconv.ParseFloat` and `strconv.ParseInt`. Integers are 64-bit
-- patterns.
pub record Environment (F : Type 0) : Type 0 where
  pub getenv : String → String
  pub parse_duration : String → Option ℕ
  pub atoi : String → Option ℕ
  pub parse_float : String → Option F
  pub parse_int : String → Option ℕ

pub record Config (F : Type 0) : Type 0 where
  pub env : String
  pub http_addr : String
  pub log_level : String
  pub orchestrator_addr : String
  pub redis_addr : String
  pub redis_password : String
  pub rate_limit_enabled : Bool
  pub rate_limit_requests_per_second : F
  pub rate_limit_burst_size : ℕ
  pub read_timeout : ℕ
  pub read_header_timeout : ℕ
  pub write_timeout : ℕ
  pub idle_timeout : ℕ
  pub shutdown_timeout : ℕ

-- `time.Second`, in nanoseconds.
abbrev pub second : ℕ
second = 1000000000

module _ {F : Type 0} (e : Environment F) where
  unfoldable pub get_env : String → String → String
  get_env key fallback = if str_eq (e.getenv key) "" then fallback else e.getenv key

  abbrev pub seconds_of : String → Option ℕ → Loaded ℕ
  seconds_of key none = load_failed key
  seconds_of key (some seconds) = loaded ((seconds * second) % two64)

  abbrev pub duration_of : String → Option ℕ → Loaded ℕ
  duration_of key (some duration) = loaded duration
  duration_of key none = seconds_of key (e.atoi (e.getenv key))

  -- With the error that `Load` makes of a failure.
  unfoldable pub get_duration_env : String → ℕ → Loaded ℕ
  get_duration_env key fallback =
      if str_eq (e.getenv key) ""
      then loaded fallback
      else duration_of key (e.parse_duration (e.getenv key))

  abbrev pub or_fallback : {A : Type 0} → A → Option A → A
  or_fallback fallback none = fallback
  or_fallback fallback (some a) = a

  unfoldable pub get_float_env : String → F → F
  get_float_env key fallback =
      if str_eq (e.getenv key) ""
      then fallback
      else or_fallback fallback (e.parse_float (e.getenv key))

  unfoldable pub get_int64_env : String → ℕ → ℕ
  get_int64_env key fallback =
      if str_eq (e.getenv key) ""
      then fallback
      else or_fallback fallback (e.parse_int (e.getenv key))

  -- `ten` is the constant 10.0.
  unfoldable pub load : F → Loaded (Config F)
  unfolding get_env get_duration_env get_float_env get_int64_env
  load ten = bind_loaded (get_duration_env "API_READ_TIMEOUT" (5 * second)) (λ read_timeout.
      bind_loaded (get_duration_env "API_READ_HEADER_TIMEOUT" (2 * second)) (λ read_header_timeout.
        bind_loaded (get_duration_env "API_WRITE_TIMEOUT" (10 * second)) (λ write_timeout.
          bind_loaded (get_duration_env "API_IDLE_TIMEOUT" (30 * second)) (λ idle_timeout.
            bind_loaded (get_duration_env "API_SHUTDOWN_TIMEOUT" (10 * second)) (λ shutdown_timeout.
              loaded (record {
                env = get_env "API_ENV" "development";
                http_addr = get_env "API_HTTP_ADDR" ":8080";
                log_level = get_env "API_LOG_LEVEL" "info";
                orchestrator_addr = get_env "API_ORCHESTRATOR_ADDR" "localhost:50051";
                redis_addr = get_env "API_REDIS_ADDR" "localhost:6379";
                redis_password = get_env "API_REDIS_PASSWORD" "";
                rate_limit_enabled = str_eq (get_env "API_RATE_LIMIT_ENABLED" "false") "true";
                rate_limit_requests_per_second = get_float_env "API_RATE_LIMIT_RPS" ten;
                rate_limit_burst_size = get_int64_env "API_RATE_LIMIT_BURST" 20;
                read_timeout = read_timeout;
                read_header_timeout = read_header_timeout;
                write_timeout = write_timeout;
                idle_timeout = idle_timeout;
                shutdown_timeout = shutdown_timeout;
              }))))))
