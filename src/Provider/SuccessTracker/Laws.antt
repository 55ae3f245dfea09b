-- ===== src/Provider/SuccessTracker/Laws.antt =====
-- What the success tracker (provider/success_tracker.go) counts, and its keys.
use text.Mathlib.TextLemmas.{append_cancel_left, append_cancel_right}
use payment_orchestrator.Base.{
  ℕ, ◌≡◌, refl, String, true, some, List, [], ◌∷◌, arith, str_eq, str_eq_iff, if◌then◌else◌,
}
use payment_orchestrator.Base.Words.{add64}
use payment_orchestrator.Domain.{Time}
use payment_orchestrator.Provider.SuccessTracker.{
  ProviderStats, SuccessTracker, stat_key, stats_of, set_stats, record_success, record_failure,
  get_stats,
}

stats_of-set_stats :
    (k j : String) (s : ProviderStats) (m : List (String × ProviderStats))
    → stats_of j (set_stats k s m) ≡ (if str_eq k j then some s else stats_of j m)
stats_of-set_stats k j s [] = refl
stats_of-set_stats k j s ((i, old) ∷ m) =
    ground (arith, str_eq_iff k j, str_eq_iff i k, str_eq_iff i j, stats_of-set_stats k j s m)

-- The counts of a pair as a query returns them, where an absent pair counts nothing.
abbrev pub successes : SuccessTracker → String → String → ℕ
successes t rail provider = (get_stats t rail provider).0

abbrev pub failures : SuccessTracker → String → String → ℕ
failures t rail provider = (get_stats t rail provider).1

-- Recording a success makes the pair known and raises its success count by one (modulo 2 ^ 64),
-- leaves its failure count alone, and changes no pair whose key differs. Recording a failure does
-- the same to the failure count.
pub get_stats-record :
    (t : SuccessTracker) (now : Time) (rail provider rail' provider' : String)
    → (get_stats (record_success t now rail provider) rail' provider' ≡ (
        if str_eq (stat_key rail provider) (stat_key rail' provider')
        then (add64 (successes t rail' provider') 1, failures t rail' provider', true)
        else get_stats t rail' provider'))
      × (get_stats (record_failure t now rail provider) rail' provider' ≡ (
          if str_eq (stat_key rail provider) (stat_key rail' provider')
          then (successes t rail' provider', add64 (failures t rail' provider') 1, true)
          else get_stats t rail' provider'))
unfolding get_stats record_success record_failure
get_stats-record t now rail provider rail' provider' =
    let k = stat_key rail provider in
    let j = stat_key rail' provider' in
    (
      simp stats_of-set_stats (ground (arith, str_eq_iff k j)),
      simp stats_of-set_stats (ground (arith, str_eq_iff k j)),
    )

-- Two providers of one rail, or one provider on two rails, never share a key.
pub stat_key-injective :
    (rail rail' provider provider' : String)
    → (stat_key rail provider ≡ stat_key rail provider' → provider ≡ provider')
      × (stat_key rail provider ≡ stat_key rail' provider → rail ≡ rail')
unfolding stat_key
stat_key-injective rail rail' provider provider' =
    (λ e. append_cancel_left _ _ _ e, λ e. append_cancel_right _ _ _ (append_cancel_right _ _ _ e))
