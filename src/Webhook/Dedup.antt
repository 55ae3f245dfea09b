-- ===== src/Webhook/Dedup.antt =====
-- The deduplication of events (services/webhook/internal/dedup/dedup.go). Redis is a parameter.
use Prim.Native.String.{◌++◌ as append}
use payment_orchestrator.Base.{
  ℕ, ◌==◌, String, Bool, true, false, Option, none, some, if◌then◌else◌,
}

-- The two commands of Redis that the service sends; `none` is an error. The error of EXPIRE is
-- dropped by the code.
pub record Redis (R : Type 0) : Type 0 where
  pub setnx : String → R → Option Bool × R
  pub expire : String → ℕ → R → R

-- `DefaultTTL`, in seconds.
abbrev pub default_ttl : ℕ
default_ttl = 86400

-- The TTL that `NewService` keeps.
unfoldable pub new_service_ttl : ℕ → ℕ
new_service_ttl ttl = if ttl == 0 then default_ttl else ttl

abbrev pub event_key : String → String
event_key event_id = append "webhook:event:" event_id

module _ {R : Type 0} (redis : Redis R) (ttl : ℕ) where
  -- What `IsProcessed` makes of the answer of SETNX, which is true where the key was set.
  abbrev pub after_setnx : String → Option Bool × R → Option Bool × R
  after_setnx key (none, r) = (none, r)
  after_setnx key (some false, r) = (some true, r)
  after_setnx key (some true, r) = (some false, redis.expire key ttl r)

  -- Whether the event was seen before, or an error.
  unfoldable pub is_processed : String → R → Option Bool × R
  is_processed event_id r = after_setnx (event_key event_id) (redis.setnx (event_key event_id) r)
