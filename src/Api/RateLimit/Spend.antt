-- ===== src/Api/RateLimit/Spend.antt =====
-- One call of `Allow` over a Redis that keeps the bucket, with numbers that err by at most a slack.
use payment_orchestrator.Base.{
  ℕ, ◌+◌, ◌*◌, ◌-◌, ◌≤◌, ◌<◌, ◌≡◌, refl, String, Bool, true, false, Option, none, some, [], ◌∷◌,
  arith, Bool-cases, inl, inr, ◌⊎◌, sym, ◌∙◌,
}
use mathlib.Core.Path.{subst}
use payment_orchestrator.Base.Words.{sub64, two63}
use payment_orchestrator.Api.RateLimit.{
  LimitFloat, values, hmget_failed, RedisClient, RateLimitConfig, LimiterState, AllowResult,
  allowed, rejected, check_failed, Bucket, count_refill, refilled, after_set, spend, tokens_to_add,
}

-- Redis keeps the two fields of the bucket, if they are set: HMGET gives them or fails, HMSET sets
-- them or fails (when it may have set them), and no command lets go of them.
pub record KeepsBucket {R : Type 0} (client : RedisClient R) (full_key : String)
    (view : R → Option (String × String)) : Type 0 where
  pub read_kept : (r : R) → view (client.hmget full_key r).1 ≡ view r
  pub read_missing :
      (r : R)
      → view r ≡ none
      → ((client.hmget full_key r).0 ≡ hmget_failed)
        ⊎ ((client.hmget full_key r).0 ≡ values (none ∷ none ∷ []))
  pub read_fields :
      (r : R) (t l : String)
      → view r ≡ some (t, l)
      → ((client.hmget full_key r).0 ≡ hmget_failed)
        ⊎ ((client.hmget full_key r).0 ≡ values (some t ∷ some l ∷ []))
  pub write_done :
      (r : R) (t l : String)
      → (client.hmset full_key t l r).0 ≡ true
      → view (client.hmset full_key t l r).1 ≡ some (t, l)
  pub write_failed :
      (r : R) (t l : String)
      → (client.hmset full_key t l r).0 ≡ false
      → (view (client.hmset full_key t l r).1 ≡ view r)
        ⊎ (view (client.hmset full_key t l r).1 ≡ some (t, l))
  pub expire_kept : (r : R) (seconds : ℕ) → view (client.expire full_key seconds r) ≡ view r

-- Tokens are measured in units, `one_units` to a token and `per_ms` to a millisecond of refill.
-- Each operation gives at most `slack` units more than the exact one; `%.2f` alone needs a slack of
-- half a hundredth of a token.
pub record ErrsBySlack (fl : LimitFloat) (config : RateLimitConfig fl) (units : fl.F → ℕ)
    (one_units per_ms slack : ℕ) : Type 0 where
  pub add_le : (a b : fl.F) → units (fl.add a b) ≤ units a + units b + slack
  pub refill_le :
      (last now : ℕ)
      → last ≤ now
      → now < two63
      → units (fl.mul (fl.div (fl.of_int64 (now - last)) fl.thousand) config.requests_per_second)
          + per_ms * last
        ≤ per_ms * now + slack
  pub lt_le : (a b : fl.F) → fl.lt a b ≡ false → units b ≤ units a
  pub spend_le :
      (a : fl.F) → fl.le fl.one a ≡ true → units (fl.sub a fl.one) + one_units ≤ units a + slack
  pub stored_le : (a : fl.F) → units (fl.parse_float (fl.format_2f a)) ≤ units a + slack
  pub int_kept : (n : ℕ) → n < two63 → fl.parse_int (fl.format_int n) ≡ n

elapsed_exact : (last now : ℕ) → last ≤ now → now < two63 → sub64 now last ≡ now - last
elapsed_exact last now le lt = ground arith

module _ (fl : LimitFloat) {R : Type 0} (client : RedisClient R) (config : RateLimitConfig fl)
    (view : R → Option (String × String)) (units : fl.F → ℕ)
    (one_units per_ms slack start : ℕ) where
  -- `spent` units were spent since `start`: they and the tokens left are paid for by the burst, the
  -- refill until `last`, and an allowance for the errors.
  abbrev pub Paid : ℕ → ℕ → fl.F → ℕ → Type 0
  Paid spent allowance tokens last =
      spent + units tokens + per_ms * start
      ≤ units (fl.of_int64 config.burst_size) + per_ms * last + allowance

  -- The bucket that Redis keeps is paid for, and was stored no later than `now`.
  abbrev pub StoredPaid : ℕ → ℕ → ℕ → Option (String × String) → Type 0
  StoredPaid spent allowance now none = (spent ≡ 0) × (start ≤ now)
  StoredPaid spent allowance now (some (t, l)) =
      Paid spent allowance (fl.parse_float t) (fl.parse_int l) × (fl.parse_int l ≤ now)

  abbrev pub gain : AllowResult → ℕ
  gain allowed = one_units
  gain rejected = 0
  gain (check_failed m) = 0

  refilled-Paid :
      (spent allowance now : ℕ) (b : Bucket fl.F)
      → ErrsBySlack fl config units one_units per_ms slack
      → b.last_refill ≤ now
      → now < two63
      → Paid spent allowance b.tokens b.last_refill
      → Paid spent (allowance + 2 * slack) (refilled fl client config now b) now
  refilled-Paid spent allowance now b laws le lt paid =
      let refill =
        rw (sym (elapsed_exact b.last_refill now le lt)) at
          (laws.refill_le b.last_refill now le lt) in
      let added = laws.add_le b.tokens (tokens_to_add fl client config now b) in
      let sum = fl.add b.tokens (tokens_to_add fl client config now b) in
      elim (Bool-cases (fl.lt sum (fl.of_int64 config.burst_size))) [
        | inl below ↦ rw below (omega (arith, refill, added, paid))
        | inr above ↦ rw above (omega (arith, refill, added, paid, laws.lt_le sum _ above))
      ]

  spent-Paid :
      (spent allowance now : ℕ) (x : fl.F)
      → ErrsBySlack fl config units one_units per_ms slack
      → now < two63
      → fl.le fl.one x ≡ true
      → Paid spent (allowance + 2 * slack) x now
      → StoredPaid
          (spent + one_units)
          (allowance + 4 * slack)
          now
          (some (fl.format_2f (fl.sub x fl.one), fl.format_int now))
  spent-Paid spent allowance now x laws lt enough paid =
      rw (laws.int_kept now lt)
        (omega (arith, paid, laws.spend_le x enough, laws.stored_le (fl.sub x fl.one)), omega arith)

  -- Nothing more was spent.
  pub StoredPaid-later :
      (spent allowance more now : ℕ) (v : Option (String × String))
      → StoredPaid spent allowance now v
      → StoredPaid (spent + 0) (allowance + more) now v
  StoredPaid-later spent allowance more now none (unspent, started) = (omega arith, started)
  StoredPaid-later spent allowance more now (some (t, l)) (paid, earlier) = (omega arith, earlier)

  -- Less was spent than was paid for.
  StoredPaid-less :
      (spent less allowance now : ℕ) (t l : String)
      → StoredPaid (spent + less) allowance now (some (t, l))
      → StoredPaid (spent + 0) allowance now (some (t, l))
  StoredPaid-less spent less allowance now t l (paid, earlier) = (omega arith, earlier)

  abbrev pub After : ℕ → ℕ → ℕ → AllowResult × LimiterState R → Type 0
  After spent allowance now (r, s) =
      StoredPaid (spent + gain r) (allowance + 4 * slack) now (view s.redis)

  after_set-After :
      (key t l : String) (spent allowance now : ℕ) (s : LimiterState R) (o : Bool × R)
      → ((r : R) (seconds : ℕ) → view (client.expire key seconds r) ≡ view r)
      → StoredPaid spent allowance now (view s.redis)
      → StoredPaid (spent + one_units) (allowance + 4 * slack) now (some (t, l))
      → (o.0 ≡ true → view o.1 ≡ some (t, l))
      → (o.0 ≡ false → (view o.1 ≡ view s.redis) ⊎ (view o.1 ≡ some (t, l)))
      → After spent allowance now (after_set fl client config key s o)
  after_set-After key t l spent allowance now s (true, r) expired before after done failed =
      subst (StoredPaid (spent + one_units) (allowance + 4 * slack) now)
        (sym (expired r 300 ∙ done refl)) after
  after_set-After key t l spent allowance now s (false, r) expired before after done failed =
      let unpaid = StoredPaid-less spent one_units (allowance + 4 * slack) now t l after in
      elim (failed refl) [
        | inl kept ↦
            subst (λ v. StoredPaid (spent + 0) (allowance + 4 * slack) now v) (sym kept)
              (StoredPaid-later spent allowance (4 * slack) now (view s.redis) before)
        | inr set ↦
            subst (λ v. StoredPaid (spent + 0) (allowance + 4 * slack) now v) (sym set) unpaid
      ]

  count_refill_redis :
      (now : ℕ) (b : Bucket fl.F) (s : LimiterState R)
      → (count_refill fl client config now b s).redis ≡ s.redis
  count_refill_redis now b s = ground arith

  pub spend-After :
      (key : String) (spent allowance now : ℕ) (b : Bucket fl.F) (s : LimiterState R)
      → ErrsBySlack fl config units one_units per_ms slack
      → KeepsBucket client key view
      → now < two63
      → b.last_refill ≤ now
      → Paid spent allowance b.tokens b.last_refill
      → StoredPaid spent allowance now (view s.redis)
      → After spent allowance now (spend fl client config key now b s)
  unfolding spend
  spend-After key spent allowance now b s laws keeps lt le paid stored =
      let x = refilled fl client config now b in
      let t = fl.format_2f (fl.sub x fl.one) in
      let l = fl.format_int now in
      let s' = count_refill fl client config now b s in
      let same = count_refill_redis now b s in
      let stored' = subst (λ r. StoredPaid spent allowance now (view r)) (sym same) stored in
      elim (Bool-cases (fl.le fl.one x)) [
        | inl enough ↦
            let full = refilled-Paid spent allowance now b laws le lt paid in
            let after = spent-Paid spent allowance now x laws lt enough full in
            rw enough (
              after_set-After key t l spent allowance now s' (client.hmset key t l s'.redis)
                keeps.expire_kept stored' after (keeps.write_done s'.redis t l)
                (keeps.write_failed s'.redis t l))
        | inr empty ↦
            rw empty (StoredPaid-later spent allowance (4 * slack) now (view s'.redis) stored')
      ]
