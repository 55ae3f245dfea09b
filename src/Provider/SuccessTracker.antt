-- ===== src/Provider/SuccessTracker.antt =====
-- The success tracker (provider/success_tracker.go): counts per "rail:provider". The counts are
-- Go's `int64`; a rate is a `float64`, whose operations are a parameter. The mutex makes each
-- call one step.
pub mod Laws
use Prim.Native.String.{◌++◌ as append}
use payment_orchestrator.Base.{
  ℕ, String, Bool, true, false, Option, none, some, List, [], ◌∷◌, ◌==◌, str_eq, if◌then◌else◌,
}
use payment_orchestrator.Base.Words.{add64}
use payment_orchestrator.Domain.{Time}

pub record ProviderStats : Type 0 where
  pub success_count : ℕ
  pub fail_count : ℕ
  pub last_updated : Time

pub record SuccessTracker : Type 0 where
  pub stats : List (String × ProviderStats)

unfoldable pub new_success_tracker : SuccessTracker
new_success_tracker = record { stats = [] }

unfoldable pub stat_key : String → String → String
stat_key rail provider = append (append rail ":") provider

abbrev pub stats_of : String → List (String × ProviderStats) → Option ProviderStats
stats_of key [] = none
stats_of key ((k, s) ∷ m) = let rest = stats_of key m in if str_eq k key then some s else rest

abbrev pub set_stats :
    String → ProviderStats → List (String × ProviderStats) → List (String × ProviderStats)
set_stats key s [] = (key, s) ∷ []
set_stats key s ((k, old) ∷ m) =
    let rest = set_stats key s m in if str_eq k key then (k, s) ∷ m else (k, old) ∷ rest

-- `&ProviderStats{}` where the key has no entry.
abbrev pub stats_or_new : Option ProviderStats → ProviderStats
stats_or_new none = record { success_count = 0; fail_count = 0; last_updated = 0 }
stats_or_new (some s) = s

unfoldable pub record_success : SuccessTracker → Time → String → String → SuccessTracker
record_success t now rail provider =
    let key = stat_key rail provider in
    let s = stats_or_new (stats_of key t.stats) in
    record {
      stats =
          set_stats key (record s { success_count = add64 s.success_count 1; last_updated = now })
            t.stats;
    }

unfoldable pub record_failure : SuccessTracker → Time → String → String → SuccessTracker
record_failure t now rail provider =
    let key = stat_key rail provider in
    let s = stats_or_new (stats_of key t.stats) in
    record {
      stats =
          set_stats key (record s { fail_count = add64 s.fail_count 1; last_updated = now })
            t.stats;
    }

abbrev pub read_counts : Option ProviderStats → ℕ × ℕ × Bool
read_counts none = (0, 0, false)
read_counts (some s) = (s.success_count, s.fail_count, true)

-- The counts of a pair, and whether it has any.
unfoldable pub get_stats : SuccessTracker → String → String → ℕ × ℕ × Bool
get_stats t rail provider = read_counts (stats_of (stat_key rail provider) t.stats)

-- Go's `float64`: conversion, division, `>`, and the constant 0.95.
pub record Float64 : Type 1 where
  pub F : Type 0
  pub of_int64 : ℕ → F
  pub div : F → F → F
  pub gt : F → F → Bool
  pub default_success_rate : F

module _ (fl : Float64) where
  unfoldable pub get_success_rate : SuccessTracker → String → String → fl.F
  get_success_rate t rail provider = elim (stats_of (stat_key rail provider) t.stats) [
    | none ↦ fl.default_success_rate
    | some s ↦
        let total = add64 s.success_count s.fail_count in
        if total == 0
        then fl.default_success_rate
        else fl.div (fl.of_int64 s.success_count) (fl.of_int64 total)
  ]
