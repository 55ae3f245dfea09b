-- ===== src/Api/RateLimit/Overlap.antt =====
-- Two calls of `Allow` that overlap.
use payment_orchestrator.Base.{
  ℕ, ◌+◌, ◌≡◌, ◌≢◌, refl, inl, inr, [], ◌∷◌, String, Bool, true, false, Option, some, arith, ◌∙◌,
}
use payment_orchestrator.Api.RateLimit.{
  LimitFloat, RedisClient, RateLimitConfig, LimiterState, AllowResult, allowed, rejected, Bucket,
  HmgetReply, values, hmget_failed, full_key_of, after_get, allow, with_redis, count_refill,
  after_set, spend, refilled,
}
use payment_orchestrator.Api.RateLimit.Spend.{KeepsBucket}

module _ (fl : LimitFloat) {R : Type 0} (client : RedisClient R) (config : RateLimitConfig fl)
    (view : R → Option (String × String)) where
  -- The call was allowed and counted, and it stored what the bucket holds at `now` less one token.
  pub record Took (now : ℕ) (b : Bucket fl.F) (s : LimiterState R)
      (o : AllowResult × LimiterState R) : Type 0 where
    pub is_allowed : o.0 ≡ allowed
    pub counted : o.1.allowed_total ≡ s.allowed_total + 1
    pub stored :
        view o.1.redis
        ≡ some (fl.format_2f (fl.sub (refilled fl client config now b) fl.one), fl.format_int now)

  abbrev Set : String → String → String → Bool × R → Type 0
  Set key t l (done, r) = (done ≡ true) × (view r ≡ some (t, l))

  after_set-Took :
      (key : String) (now : ℕ) (b : Bucket fl.F) (s s' : LimiterState R) (o : Bool × R)
      → KeepsBucket client key view
      → s'.allowed_total ≡ s.allowed_total
      → Set key
          (fl.format_2f (fl.sub (refilled fl client config now b) fl.one))
          (fl.format_int now)
          o
      → Took now b s (after_set fl client config key s' o)
  after_set-Took key now b s s' (true, r) keeps same (done, set) = record {
    is_allowed = refl;
    counted = omega (arith, same);
    stored = keeps.expire_kept r 300 ∙ set;
  }
  after_set-Took key now b s s' (false, r) keeps same (done, set) = ground arith

  count_refill_total :
      (now : ℕ) (b : Bucket fl.F) (s : LimiterState R)
      → (count_refill fl client config now b s).allowed_total ≡ s.allowed_total
  count_refill_total now b s = ground arith

  spend-Took :
      (key : String) (now : ℕ) (b : Bucket fl.F) (s : LimiterState R)
      → KeepsBucket client key view
      → ((r : R) (t l : String) → (client.hmset key t l r).0 ≡ true)
      → fl.le fl.one (refilled fl client config now b) ≡ true
      → Took now b s (spend fl client config key now b s)
  unfolding spend
  spend-Took key now b s keeps sets enough =
      let s' = count_refill fl client config now b s in
      let t = fl.format_2f (fl.sub (refilled fl client config now b) fl.one) in
      let l = fl.format_int now in
      rw enough (
        after_set-Took key now b s s' (client.hmset key t l s'.redis) keeps
          (count_refill_total now b s)
          (sets s'.redis t l, keeps.write_done s'.redis t l (sets s'.redis t l)))

  spend-rejected :
      (key : String) (now : ℕ) (b : Bucket fl.F) (s : LimiterState R)
      → fl.le fl.one (refilled fl client config now b) ≡ false
      → (spend fl client config key now b s).0 ≡ rejected
  unfolding spend
  spend-rejected key now b s lacking = rw lacking refl

  -- The bucket that the two stored fields stand for.
  abbrev pub bucket_from : String → String → Bucket fl.F
  bucket_from t l = record { tokens = fl.parse_float t; last_refill = fl.parse_int l }

  -- The bucket that one call at `now` leaves.
  abbrev pub left_by : ℕ → Bucket fl.F → Bucket fl.F
  left_by now b =
      bucket_from (fl.format_2f (fl.sub (refilled fl client config now b) fl.one))
        (fl.format_int now)

  -- Two calls for one key of which each reads the bucket before either goes on.
  abbrev pub overlapped :
      String
      → ℕ
      → ℕ
      → LimiterState R
      → (AllowResult × LimiterState R) × (AllowResult × LimiterState R)
  overlapped key now later s =
      let full_key = full_key_of fl client config key in
      let one_read = client.hmget full_key s.redis in
      let other_read = client.hmget full_key one_read.1 in
      let first = after_get fl client config full_key now s (one_read.0, other_read.1) in
      (first, after_get fl client config full_key later first.1 (other_read.0, first.1.redis))

  -- HMGET and HMSET do not fail.
  pub record Works (full_key : String) : Type 0 where
    pub gets : (r : R) → (client.hmget full_key r).0 ≢ hmget_failed
    pub sets : (r : R) (t l : String) → (client.hmset full_key t l r).0 ≡ true

  got :
      (key t l : String) (r : R)
      → KeepsBucket client key view
      → Works key
      → view r ≡ some (t, l)
      → (client.hmget key r).0 ≡ values (some t ∷ some l ∷ [])
  got key t l r keeps works stored = elim (keeps.read_fields r t l stored) [
    | inl failed ↦ absurd (works.gets r failed)
    | inr read ↦ read
  ]

  after_get-Took :
      (key t l : String) (now : ℕ) (s : LimiterState R) (v : HmgetReply) (r : R)
      → KeepsBucket client key view
      → Works key
      → v ≡ values (some t ∷ some l ∷ [])
      → fl.le fl.one (refilled fl client config now (bucket_from t l)) ≡ true
      → Took now (bucket_from t l) s (after_get fl client config key now s (v, r))
  after_get-Took key t l now s v r keeps works read enough =
      let took = spend-Took key now (bucket_from t l) (with_redis s r) keeps works.sets enough in
      rw read
        (record { is_allowed = took.is_allowed; counted = took.counted; stored = took.stored })

  after_get-rejected :
      (key t l : String) (now : ℕ) (s : LimiterState R) (v : HmgetReply) (r : R)
      → v ≡ values (some t ∷ some l ∷ [])
      → fl.le fl.one (refilled fl client config now (bucket_from t l)) ≡ false
      → (after_get fl client config key now s (v, r)).0 ≡ rejected
  after_get-rejected key t l now s v r read lacking =
      rw read (spend-rejected key now (bucket_from t l) (with_redis s r) lacking)

  -- Over a Redis that keeps the bucket and whose HMGET and HMSET work, when a stored bucket has a
  -- token at the time of either of two calls, but not for the second after the first: one after the
  -- other, the first call is allowed and the second rejected; when both read the bucket before
  -- either goes on, both are allowed and counted, and the bucket is left less the token of the
  -- second alone.
  pub overlapped-Took :
      (key t l : String) (now later : ℕ) (s : LimiterState R)
      → KeepsBucket client (full_key_of fl client config key) view
      → Works (full_key_of fl client config key)
      → view s.redis ≡ some (t, l)
      → fl.le fl.one (refilled fl client config now (bucket_from t l)) ≡ true
      → fl.le fl.one (refilled fl client config later (bucket_from t l)) ≡ true
      → fl.le fl.one (refilled fl client config later (left_by now (bucket_from t l))) ≡ false
      → let (first, second) = overlapped key now later s in
        let alone = allow fl client config key now s in
        (Took now (bucket_from t l) s first × Took later (bucket_from t l) first.1 second)
        × (Took now (bucket_from t l) s alone
            × ((allow fl client config key later alone.1).0 ≡ rejected))
  unfolding allow
  overlapped-Took key t l now later s keeps works stored enough enough' lacking =
      let full_key = full_key_of fl client config key in
      let one_read = client.hmget full_key s.redis in
      let other_read = client.hmget full_key one_read.1 in
      let first = after_get fl client config full_key now s (one_read.0, other_read.1) in
      let alone = after_get fl client config full_key now s one_read in
      let read = got full_key t l s.redis keeps works stored in
      let took = after_get-Took full_key t l now s one_read.0 one_read.1 keeps works read enough in
      let t' = fl.format_2f (fl.sub (refilled fl client config now (bucket_from t l)) fl.one) in
      let l' = fl.format_int now in
      let reread = client.hmget full_key alone.1.redis in
      (
        (
          after_get-Took full_key t l now s one_read.0 other_read.1 keeps works read enough,
          after_get-Took full_key t l later first.1 other_read.0 first.1.redis keeps works
              (got full_key t l one_read.1 keeps works (keeps.read_kept s.redis ∙ stored)) enough',
        ),
        (
          took,
          after_get-rejected full_key t' l' later alone.1 reread.0 reread.1
              (got full_key t' l' alone.1.redis keeps works took.stored) lacking,
        ),
      )
