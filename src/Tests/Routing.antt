-- ===== src/Tests/Routing.antt =====
-- Runs of the routing, the registry, the success tracker and the fallback.
use payment_orchestrator.Base.{
  ℕ, ◌≡◌, refl, true, false, some, List, [], ◌∷◌, arith, ◌==◌, get_or, filter,
}
use payment_orchestrator.Base.Int.{pos}
use payment_orchestrator.Provider.Registry.{ProviderWithMeta, get_providers, set_active}
use payment_orchestrator.Provider.Registry.Laws.{get_providers-set_active_off, other_than}
use payment_orchestrator.Provider.SuccessTracker.{SuccessTracker, stat_key, get_stats}
use payment_orchestrator.Provider.Weights.{effective_weights, weighted_random_index, sum64}
use payment_orchestrator.Provider.Weights.Sum.{sum, sum-effective_weights}
use payment_orchestrator.Provider.Weights.Draw.{count_below, count-weighted_random_index}
use payment_orchestrator.Provider.SuccessRate.{select_by_success_rate, has_enough}
use payment_orchestrator.Provider.SuccessRate.Order.{select_by_success_rate_reverses}
use payment_orchestrator.Provider.Router.{select_providers, route, selected}
use payment_orchestrator.Provider.Router.Laws.{Covers, select_providers-Covers}
use payment_orchestrator.Provider.Orchestrator.{send_payout_with_fallback}
use payment_orchestrator.Provider.Orchestrator.Fallback.{
  Answer, verdict, names, note_all, Asked, send_payout_with_fallback-Asked,
}
use payment_orchestrator.Tests.{
  percent, percent-GtLaws, last_draw, last_draw-lt, orchestrator, card_registry, no_stats, busy,
  willing, new_payout,
}

both_selected :
    select_providers percent last_draw no_stats 5 card_registry "card" "priority"
    ≡ selected (busy ∷ willing ∷ [])
unfolding select_providers route get_providers
both_selected = refl

send_payout_with_fallback-Asked_example :
    (given : List Answer) × (w' : ℕ) × (send_payout_with_fallback percent last_draw 5 orchestrator
        new_payout no_stats 0
      ≡ some (verdict (names given) given, note_all 5 "card" no_stats given, w'))
    × Asked new_payout (busy ∷ willing ∷ []) 0 given w'
send_payout_with_fallback-Asked_example =
    send_payout_with_fallback-Asked percent last_draw 5 orchestrator new_payout no_stats 0
      (busy ∷ willing ∷ []) both_selected

select_providers-Covers_example :
    Covers
      (get_providers card_registry "card")
      (select_providers percent last_draw no_stats 5 card_registry "card" "weighted")
select_providers-Covers_example =
    select_providers-Covers percent last_draw no_stats 5 card_registry "card" "weighted"
      last_draw-lt percent-GtLaws

sum-effective_weights_example : sum (effective_weights (pos 60 ∷ pos 0 ∷ pos 0 ∷ [])) ≡ 100
sum-effective_weights_example =
    sum-effective_weights (pos 60 ∷ pos 0 ∷ pos 0 ∷ []) tt (ground arith) (ground arith)

count-weighted_random_index_example :
    count_below 100
      (λ r. weighted_random_index (λ _. r) (60 ∷ 40 ∷ []) (sum64 0 (60 ∷ 40 ∷ [])) == 1)
    ≡ get_or (60 ∷ 40 ∷ []) 1 0
count-weighted_random_index_example =
    count-weighted_random_index (60 ∷ 40 ∷ []) 1 (ground arith) (ground arith)

-- Only the willing provider has samples.
abbrev sampled : SuccessTracker
sampled = record {
  stats = ("card:crypto_sim", record { success_count = 3; fail_count = 1; last_updated = 4 }) ∷ [];
}

abbrev idle : ProviderWithMeta ℕ
idle = record busy { meta = record { provider = "mock_card"; is_active = true; weight = pos 10 } }

abbrev by_rate : List (ProviderWithMeta ℕ) → List (ProviderWithMeta ℕ)
by_rate = select_by_success_rate percent sampled 1 "card"

busy_unsampled : has_enough percent sampled 1 "card" busy ≡ false
unfolding has_enough get_stats stat_key
busy_unsampled = refl

idle_unsampled : has_enough percent sampled 1 "card" idle ≡ false
unfolding has_enough get_stats stat_key
idle_unsampled = refl

willing_known : has_enough percent sampled 1 "card" willing ≡ true
unfolding has_enough get_stats stat_key
willing_known = refl

select_by_success_rate_reverses_example :
    by_rate (busy ∷ idle ∷ willing ∷ []) ≡ willing ∷ idle ∷ busy ∷ []
select_by_success_rate_reverses_example =
    select_by_success_rate_reverses percent sampled 1 "card" busy idle willing busy_unsampled
      idle_unsampled willing_known

get_providers-set_active_off_example :
    get_providers (set_active card_registry "card" "stripe" false).0 "card"
    ≡ filter (other_than "stripe") (get_providers card_registry "card")
get_providers-set_active_off_example =
    get_providers-set_active_off card_registry "card" "card" "stripe" ((refl, tt), (tt, tt))
