-- ===== src/Api/RateLimit/Bound.antt =====
-- A sequence of calls of `Allow` for one key, one after the other.
use native.Mathlib.Nat.{mul-le-mul_left, mul-add, add-mul}
use payment_orchestrator.Base.{
  ℕ, ◌+◌, ◌*◌, ◌≤◌, ◌<◌, ◌≡◌, refl, String, Option, none, some, List, [], ◌∷◌, arith, length, inl,
  inr, ◌⊎◌, sym,
}
use mathlib.Core.Path.{subst}
use payment_orchestrator.Base.Words.{two63}
use payment_orchestrator.Api.RateLimit.{
  LimitFloat, HmgetReply, values, hmget_failed, RedisClient, RateLimitConfig, LimiterState,
  AllowResult, allowed, rejected, check_failed, with_redis, after_get, allow, bucket_of,
  full_key_of,
}
use payment_orchestrator.Api.RateLimit.Spend.{
  KeepsBucket, ErrsBySlack, StoredPaid, After, StoredPaid-later, spend-After, gain,
}

abbrev pub count_of : AllowResult → ℕ
count_of allowed = 1
count_of rejected = 0
count_of (check_failed m) = 0

module _ (fl : LimitFloat) {R : Type 0} (client : RedisClient R) (config : RateLimitConfig fl) where
  -- How many of the calls at the given times are allowed.
  unfoldable pub allowed_count : String → List ℕ → LimiterState R → ℕ
  unfolding allow
  allowed_count key [] s = 0
  allowed_count key (now ∷ later) s =
      let (r, s') = allow fl client config key now s in count_of r + allowed_count key later s'

-- The times do not go back, and end at `last`.
abbrev pub IsRising : ℕ → List ℕ → ℕ → Type 0
IsRising from [] last = from ≤ last
IsRising from (now ∷ later) last = (from ≤ now) × IsRising now later last

IsRising-le : (from : ℕ) (times : List ℕ) (last : ℕ) → IsRising from times last → from ≤ last
IsRising-le from [] last h = h
IsRising-le from (now ∷ later) last (le, h) = omega (arith, le, IsRising-le now later last h)

module _ (fl : LimitFloat) {R : Type 0} (client : RedisClient R) (config : RateLimitConfig fl)
    (view : R → Option (String × String)) (units : fl.F → ℕ)
    (one_units per_ms slack start : ℕ) where
  abbrev Stored : ℕ → ℕ → ℕ → Option (String × String) → Type 0
  Stored = StoredPaid fl client config view units one_units per_ms slack start

  Stored-then :
      (spent allowance now then_now : ℕ) (v : Option (String × String))
      → now ≤ then_now
      → Stored spent allowance now v
      → Stored spent allowance then_now v
  Stored-then spent allowance now then_now none le (unspent, started) = (unspent, omega arith)
  Stored-then spent allowance now then_now (some (t, l)) le (paid, earlier) = (paid, omega arith)

  -- What HMGET gives of a bucket that Redis keeps.
  abbrev Reply : Option (String × String) → HmgetReply → Type 0
  Reply none o = (o ≡ hmget_failed) ⊎ (o ≡ values (none ∷ none ∷ []))
  Reply (some (t, l)) o = (o ≡ hmget_failed) ⊎ (o ≡ values (some t ∷ some l ∷ []))

  reply-Reply :
      (key : String) (r : R) (v : Option (String × String))
      → KeepsBucket client key view
      → view r ≡ v
      → Reply v (client.hmget key r).0
  reply-Reply key r none keeps seen = keeps.read_missing r seen
  reply-Reply key r (some (t, l)) keeps seen = keeps.read_fields r t l seen

  failed-After :
      (key : String) (spent allowance now : ℕ) (s : LimiterState R) (o : HmgetReply × R)
      (v : Option (String × String))
      → view o.1 ≡ v
      → Stored spent allowance now v
      → o.0 ≡ hmget_failed
      → After fl client config view units one_units per_ms slack start spent allowance now
          (after_get fl client config key now s o)
  failed-After key spent allowance now s (o, r) v kept stored failed = rw failed (
      subst (λ x. Stored (spent + 0) (allowance + 4 * slack) now x) (sym kept)
        (StoredPaid-later fl client config view units one_units per_ms slack start spent allowance
          (4 * slack) now v stored))

  get-After :
      (key : String) (spent allowance now : ℕ) (s : LimiterState R) (o : HmgetReply × R)
      (v : Option (String × String))
      → ErrsBySlack fl config units one_units per_ms slack
      → KeepsBucket client key view
      → now < two63
      → view o.1 ≡ v
      → Stored spent allowance now v
      → Reply v o.0
      → After fl client config view units one_units per_ms slack start spent allowance now
          (after_get fl client config key now s o)
  get-After key spent allowance now s o none laws keeps lt kept stored (inl failed) =
      failed-After key spent allowance now s o none kept stored failed
  get-After key spent allowance now s o (some (t, l)) laws keeps lt kept stored (inl failed) =
      failed-After key spent allowance now s o (some (t, l)) kept stored failed
  get-After key spent allowance now s (o, r) none laws keeps lt kept stored (inr missing) =
      rw missing (
        spend-After fl client config view units one_units per_ms slack start key spent allowance now
          (bucket_of fl client config now (none ∷ none ∷ [])) (with_redis s r) laws keeps lt
          (omega arith) (omega (arith, stored, mul-le-mul_left per_ms stored.1))
          (subst (Stored spent allowance now) (sym kept) stored))
  get-After key spent allowance now s (o, r) (some (t, l)) laws keeps lt kept stored (inr fields) =
      rw fields (
        spend-After fl client config view units one_units per_ms slack start key spent allowance now
          (bucket_of fl client config now (some t ∷ some l ∷ [])) (with_redis s r) laws keeps lt
          stored.1 stored.0 (subst (Stored spent allowance now) (sym kept) stored))

  allow-After :
      (key : String) (spent allowance now : ℕ) (s : LimiterState R)
      → ErrsBySlack fl config units one_units per_ms slack
      → KeepsBucket client (full_key_of fl client config key) view
      → now < two63
      → Stored spent allowance now (view s.redis)
      → After fl client config view units one_units per_ms slack start spent allowance now
          (allow fl client config key now s)
  unfolding allow
  allow-After key spent allowance now s laws keeps lt stored =
      let full_key = full_key_of fl client config key in
      get-After full_key spent allowance now s (client.hmget full_key s.redis) (view s.redis) laws
        keeps lt (keeps.read_kept s.redis) stored
        (reply-Reply full_key s.redis (view s.redis) keeps refl)

  gain-count :
      (r : AllowResult)
      → gain fl client config view units one_units per_ms slack start r ≡ one_units * count_of r
  gain-count allowed = omega arith
  gain-count rejected = omega arith
  gain-count (check_failed m) = omega arith

  Stored-bound :
      (spent allowance now : ℕ) (v : Option (String × String))
      → Stored spent allowance now v
      → spent + per_ms * start ≤ units (fl.of_int64 config.burst_size) + per_ms * now + allowance
  Stored-bound spent allowance now none (unspent, started) =
      omega (arith, unspent, mul-le-mul_left per_ms started)
  Stored-bound spent allowance now (some (t, l)) (paid, earlier) =
      omega (arith, paid, mul-le-mul_left per_ms earlier)

  allowed_count-bound :
      (key : String) (spent allowance from : ℕ) (times : List ℕ) (last : ℕ) (s : LimiterState R)
      → ErrsBySlack fl config units one_units per_ms slack
      → KeepsBucket client (full_key_of fl client config key) view
      → IsRising from times last
      → last < two63
      → Stored spent allowance from (view s.redis)
      → spent + one_units * allowed_count fl client config key times s + per_ms * start
        ≤ units (fl.of_int64 config.burst_size)
          + per_ms * last
          + (allowance + length times * (4 * slack))
  unfolding allowed_count
  allowed_count-bound key spent allowance from [] last s laws keeps rising lt stored =
      let bound =
        Stored-bound spent allowance last (view s.redis)
          (Stored-then spent allowance from last (view s.redis) rising stored) in
      omega (arith, bound)
  allowed_count-bound key spent allowance from (now ∷ later) last s laws keeps (le, rising) lt
        stored =
      let before = IsRising-le now later last rising in
      let o = allow fl client config key now s in
      let after =
        allow-After key spent allowance now s laws keeps (omega (arith, before, lt))
          (Stored-then spent allowance from now (view s.redis) le stored) in
      let rest =
        allowed_count-bound key
          (spent + gain fl client config view units one_units per_ms slack start o.0)
          (allowance + 4 * slack) now later last o.1 laws keeps rising lt after in
      omega (
        arith,
        rest,
        gain-count o.0,
        mul-add one_units (count_of o.0) (allowed_count fl client config key later o.1),
        add-mul 1 (length later) (4 * slack),
      )

  -- Calls for one key whose times do not go back, one after the other, from a bucket that is not
  -- stored, over a Redis that keeps the bucket: however many of them fail, the tokens of those that
  -- are allowed are at most the burst, the refill of the time that passed, and a slack of four
  -- operations for each call.
  pub allowed_count-le :
      (key : String) (times : List ℕ) (last : ℕ) (s : LimiterState R)
      → ErrsBySlack fl config units one_units per_ms slack
      → KeepsBucket client (full_key_of fl client config key) view
      → view s.redis ≡ none
      → IsRising start times last
      → last < two63
      → one_units * allowed_count fl client config key times s + per_ms * start
        ≤ units (fl.of_int64 config.burst_size) + per_ms * last + length times * (4 * slack)
  allowed_count-le key times last s laws keeps fresh rising lt = omega (
    arith,
    allowed_count-bound key 0 0 start times last s laws keeps rising lt
        (rw fresh (refl, omega arith)),
  )
