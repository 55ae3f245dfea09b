-- ===== src/Api/RateLimit.antt =====
-- The token bucket (`Allow` of services/api/internal/http/middleware/ratelimit.go). Redis, the
-- floating-point numbers and the conversions of `strconv` and `fmt` are parameters.
pub mod Spend
pub mod Bound
pub mod Overlap
use Prim.Native.String.{◌++◌}
use payment_orchestrator.Base.{
  ℕ, suc, ◌+◌, String, Bool, true, false, Option, none, some, List, [], ◌∷◌, if◌then◌else◌,
}
use payment_orchestrator.Base.Words.{add64, sub64}

-- Numbers, `strconv.ParseFloat` with its error dropped, and `%.2f`.
pub record LimitFloat : Type 1 where
  pub F : Type 0
  pub of_int64 : ℕ → F
  pub zero : F
  pub one : F
  pub thousand : F
  pub add : F → F → F
  pub sub : F → F → F
  pub mul : F → F → F
  pub div : F → F → F
  pub lt : F → F → Bool
  pub le : F → F → Bool
  pub parse_float : String → F
  pub format_2f : F → String
  -- `strconv.ParseInt` with its error dropped, and `strconv.FormatInt`, to base 10.
  pub parse_int : String → ℕ
  pub format_int : ℕ → String

-- What HMGET of two fields gives: their values, where a missing one is nil; the nil reply, which
-- the code takes for no values; or another error.
pub data HmgetReply : Type 0 where
  values : List (Option String) → HmgetReply
  nil_reply : HmgetReply
  hmget_failed : HmgetReply

-- The Redis client, over the state of Redis. The test tells whether HMSET succeeded.
pub record RedisClient (R : Type 0) : Type 0 where
  pub hmget : String → R → HmgetReply × R
  pub hmset : String → String → String → R → Bool × R
  pub expire : String → ℕ → R → R

-- `RateLimitConfig`
pub record RateLimitConfig (fl : LimitFloat) : Type 0 where
  pub key_prefix : String
  pub requests_per_second : fl.F
  pub burst_size : ℕ

-- `DefaultRateLimitConfig`; `ten` is the constant 10.0.
abbrev pub default_rate_limit_config : (fl : LimitFloat) → fl.F → RateLimitConfig fl
default_rate_limit_config fl ten = record {
  key_prefix = "ratelimit:global";
  requests_per_second = ten;
  burst_size = 20;
}

-- The deprecated `Metrics`: 64-bit counters.
pub record Metrics : Type 0 where
  pub requests_total : ℕ
  pub requests_allowed : ℕ
  pub requests_rejected : ℕ
  pub bucket_refills : ℕ

-- Redis, the metrics of the limiter, and the counters of Prometheus.
pub record LimiterState (R : Type 0) : Type 0 where
  pub redis : R
  pub metrics : Metrics
  pub refills_total : ℕ
  pub allowed_total : ℕ
  pub rejected_total : ℕ

-- `GetMetrics`
abbrev pub get_metrics : {R : Type 0} → LimiterState R → Metrics
get_metrics s = s.metrics

-- The results of `Allow`: true, false, or an error.
pub data AllowResult : Type 0 where
  allowed rejected : AllowResult
  check_failed : String → AllowResult

pub record Bucket (F : Type 0) : Type 0 where
  pub tokens : F
  pub last_refill : ℕ

abbrev pub with_redis : {R : Type 0} → LimiterState R → R → LimiterState R
with_redis s redis = record s { redis = redis }

abbrev pub count_allowed : {R : Type 0} → LimiterState R → LimiterState R
count_allowed s = record s {
  allowed_total = suc s.allowed_total;
  metrics = record s.metrics {
    requests_allowed = add64 s.metrics.requests_allowed 1;
    requests_total = add64 s.metrics.requests_total 1;
  };
}

abbrev pub count_rejected : {R : Type 0} → LimiterState R → LimiterState R
count_rejected s = record s {
  rejected_total = suc s.rejected_total;
  metrics = record s.metrics {
    requests_rejected = add64 s.metrics.requests_rejected 1;
    requests_total = add64 s.metrics.requests_total 1;
  };
}

module _ (fl : LimitFloat) {R : Type 0} (client : RedisClient R) (config : RateLimitConfig fl) where
  abbrev pub tokens_of : Option String → fl.F
  tokens_of none = fl.of_int64 config.burst_size
  tokens_of (some s) = fl.parse_float s

  abbrev pub refill_of : ℕ → Option String → ℕ
  refill_of now none = now
  refill_of now (some s) = fl.parse_int s

  -- The bucket that the values stand for: a full one unless there are two.
  abbrev pub bucket_of : ℕ → List (Option String) → Bucket fl.F
  bucket_of now (t ∷ l ∷ []) = record { tokens = tokens_of t; last_refill = refill_of now l }
  bucket_of now [] = record { tokens = fl.of_int64 config.burst_size; last_refill = now }
  bucket_of now (t ∷ []) = record { tokens = fl.of_int64 config.burst_size; last_refill = now }
  bucket_of now (t ∷ l ∷ x ∷ xs) = record {
    tokens = fl.of_int64 config.burst_size;
    last_refill = now;
  }

  -- `min`
  abbrev pub min_of : fl.F → fl.F → fl.F
  min_of a b = if fl.lt a b then a else b

  abbrev pub tokens_to_add : ℕ → Bucket fl.F → fl.F
  tokens_to_add now b =
      fl.mul (fl.div (fl.of_int64 (sub64 now b.last_refill)) fl.thousand) config.requests_per_second

  abbrev pub refilled : ℕ → Bucket fl.F → fl.F
  refilled now b = min_of (fl.add b.tokens (tokens_to_add now b)) (fl.of_int64 config.burst_size)

  abbrev pub count_refill : ℕ → Bucket fl.F → LimiterState R → LimiterState R
  count_refill now b s =
      if fl.lt fl.zero (tokens_to_add now b)
      then record s { refills_total = suc s.refills_total }
      else s

  abbrev pub after_set : String → LimiterState R → Bool × R → AllowResult × LimiterState R
  after_set full_key s (false, redis) = (check_failed "redis hmset: %w", with_redis s redis)
  after_set full_key s (true, redis) =
      (allowed, count_allowed (with_redis s (client.expire full_key 300 redis)))

  -- The part of `Allow` after the state of the bucket was read.
  unfoldable pub spend : String → ℕ → Bucket fl.F → LimiterState R → AllowResult × LimiterState R
  spend full_key now b s =
      let s' = count_refill now b s in
      if fl.le fl.one (refilled now b)
      then after_set full_key s' (
          client.hmset full_key (fl.format_2f (fl.sub (refilled now b) fl.one)) (fl.format_int now)
            s'.redis)
      else (rejected, count_rejected s')

  abbrev pub after_get : String → ℕ → LimiterState R → HmgetReply × R → AllowResult × LimiterState R
  after_get full_key now s (hmget_failed, redis) =
      (check_failed "redis hmget: %w", with_redis s redis)
  after_get full_key now s (nil_reply, redis) =
      spend full_key now (bucket_of now []) (with_redis s redis)
  after_get full_key now s (values vs, redis) =
      spend full_key now (bucket_of now vs) (with_redis s redis)

  abbrev pub full_key_of : String → String
  full_key_of key = config.key_prefix ++ (":" ++ key)

  unfoldable pub allow : String → ℕ → LimiterState R → AllowResult × LimiterState R
  allow key now s = after_get (full_key_of key) now s (client.hmget (full_key_of key) s.redis)
