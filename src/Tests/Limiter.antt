-- ===== src/Tests/Limiter.antt =====
-- Runs of the token bucket: one token refills in a second, and three is the burst. Numbers are
-- counted in thousandths, and written in unary.
use Prim.Native.String.{◌++◌, count}
use text.Mathlib.TextLemmas.{length-append}
use payment_orchestrator.Base.{
  ℕ, zero, suc, ◌+◌, ◌-◌, ◌*◌, ◌/◌, ◌≤◌, ◌≡◌, ◌≢◌, refl, String, true, Option, none, some, List, [],
  ◌∷◌, arith, ltb, leb, inr, length,
}
use payment_orchestrator.Api.RateLimit.{
  LimitFloat, RedisClient, RateLimitConfig, LimiterState, Bucket, HmgetReply, values, hmget_failed,
  rejected, spend, allow, full_key_of,
}
use payment_orchestrator.Api.RateLimit.Spend.{KeepsBucket, ErrsBySlack}
use payment_orchestrator.Api.RateLimit.Bound.{allowed_count, allowed_count-le}
use payment_orchestrator.Api.RateLimit.Overlap.{Took, overlapped, overlapped-Took}

abbrev pub ones : ℕ → String
ones zero = ""
ones (suc n) = "1" ++ ones n

pub count-ones : (n : ℕ) → count (ones n) ≡ n
count-ones zero = refl
count-ones (suc n) = omega (arith, length-append "1" (ones n), count-ones n)

abbrev pub thousandths : LimitFloat
thousandths = record {
  F = ℕ;
  of_int64 = λ n. n * 1000;
  zero = 0;
  one = 1000;
  thousand = 1000000;
  add = λ a b. a + b;
  sub = λ a b. a - b;
  mul = λ a b. a * b / 1000;
  div = λ a b. a * 1000 / b;
  lt = ltb;
  le = leb;
  parse_float = count;
  format_2f = ones;
  parse_int = count;
  format_int = ones;
}

abbrev pub config : RateLimitConfig thousandths
config = record { key_prefix = "ratelimit:global"; requests_per_second = 1000; burst_size = 3 }

abbrev pub reply_of : Option (String × String) → HmgetReply
reply_of none = values (none ∷ none ∷ [])
reply_of (some (t, l)) = values (some t ∷ some l ∷ [])

-- A Redis of one bucket, that never fails.
abbrev pub one_bucket : RedisClient (Option (String × String))
one_bucket = record {
  hmget = λ key r. (reply_of r, r);
  hmset = λ key t l r. (true, some (t, l));
  expire = λ key seconds r. r;
}

abbrev pub limiter_of : Option (String × String) → LimiterState (Option (String × String))
limiter_of r = record {
  redis = r;
  metrics = record {
    requests_total = 0;
    requests_allowed = 0;
    requests_rejected = 0;
    bucket_refills = 0;
  };
  refills_total = 0;
  allowed_total = 0;
  rejected_total = 0;
}

one_bucket-KeepsBucket : (key : String) → KeepsBucket one_bucket key (λ r. r)
one_bucket-KeepsBucket key = record {
  read_kept = λ r. refl;
  read_missing = λ r missing. inr (rw missing refl);
  read_fields = λ r t l stored. inr (rw stored refl);
  write_done = λ r t l done. refl;
  write_failed = λ r t l failed. inr refl;
  expire_kept = λ r seconds. refl;
}

exact : ErrsBySlack thousandths config (λ n. n) 1000 1 0
exact = record {
  add_le = λ a b. omega arith;
  refill_le = λ last now le lt. omega arith;
  lt_le = λ a b h. ground arith;
  spend_le = λ a h. ground arith;
  stored_le = λ a. omega (arith, count-ones a);
  int_kept = λ n lt. count-ones n;
}

abbrev times : List ℕ
times = 0 ∷ 0 ∷ 0 ∷ 0 ∷ 1000 ∷ []

four_of_five : allowed_count thousandths one_bucket config "global" times (limiter_of none) ≡ 4
unfolding allowed_count allow spend
four_of_five = refl

allowed_count-le_example :
    1000 * allowed_count thousandths one_bucket config "global" times (limiter_of none) + 1 * 0
    ≤ 3000 + 1 * 1000 + length times * (4 * 0)
allowed_count-le_example =
    allowed_count-le thousandths one_bucket config (λ r. r) (λ n. n) 1000 1 0 0 "global" times 1000
      (limiter_of none) exact
      (one_bucket-KeepsBucket (full_key_of thousandths one_bucket config "global")) refl
      (omega arith, (omega arith, (omega arith, (omega arith, (omega arith, omega arith)))))
      (omega arith)

reply_of_read : (r : Option (String × String)) → reply_of r ≢ hmget_failed
reply_of_read none h = ground arith
reply_of_read (some (t, l)) h = ground arith

-- One token is left, and two calls read it.
abbrev last_token : Bucket ℕ
last_token = record { tokens = 1000; last_refill = 0 }

abbrev one_left : LimiterState (Option (String × String))
one_left = limiter_of (some (ones 1000, ones 0))

overlapped-Took_example :
    let (first, second) = overlapped thousandths one_bucket config (λ r. r) "k" 0 0 one_left in
    let alone = allow thousandths one_bucket config "k" 0 one_left in
    let took = Took thousandths one_bucket config (λ r. r) 0 last_token in
    (took one_left first × took first.1 second)
    × (took one_left alone × ((allow thousandths one_bucket config "k" 0 alone.1).0 ≡ rejected))
overlapped-Took_example =
    overlapped-Took thousandths one_bucket config (λ r. r) "k" (ones 1000) (ones 0) 0 0 one_left
      (one_bucket-KeepsBucket (full_key_of thousandths one_bucket config "k"))
      (record { gets = λ r h. reply_of_read r h; sets = λ r t l. refl }) refl refl refl refl
