-- ===== src/Provider/SuccessRate.antt =====
-- Routing by success rate (provider/router.go: `selectBySuccessRate`): an exchange sort in place.
-- The slice from index `i` on is `x ∷ rest`; the inner loop compares `x` with each later element
-- and swaps the two where the later one is better.
pub mod Order
use payment_orchestrator.Base.{
  ℕ, zero, suc, Bool, true, false, not, ◌&&◌, ◌||◌, List, [], ◌∷◌, length, if◌then◌else◌,
}
use payment_orchestrator.Base.Words.{add64, lt64}
use payment_orchestrator.Domain.{Rail}
use payment_orchestrator.Provider.Registry.{ProviderWithMeta}
use payment_orchestrator.Provider.SuccessTracker.{
  SuccessTracker, Float64, get_stats, get_success_rate,
}

module _ {ℓ} {A : Type ℓ} (should_swap : A → A → Bool) where
  -- The inner loop: what stands at index `i` at its end, and the elements after it.
  unfoldable pub inner_loop : A → List A → A × List A
  inner_loop x [] = (x, [])
  inner_loop x (y ∷ ys) =
      let swap = should_swap x y in
      let (z, zs) = inner_loop (if swap then y else x) ys in (z, (if swap then x else y) ∷ zs)

  -- The outer loop, `n` elements before the end.
  unfoldable pub outer_loop : ℕ → List A → List A
  unfolding inner_loop
  outer_loop zero xs = xs
  outer_loop (suc n) [] = []
  outer_loop (suc n) (x ∷ xs) = let (z, zs) = inner_loop x xs in z ∷ outer_loop n zs

  unfoldable pub exchange_sort : List A → List A
  unfolding outer_loop
  exchange_sort xs = outer_loop (length xs) xs

module _ (fl : Float64) where
  -- The decision of the inner loop, from whether the elements at `i` and `j` have enough samples,
  -- and from their rates.
  abbrev pub decide_swap : Bool → Bool → fl.F → fl.F → Bool
  decide_swap enough_i enough_j rate_i rate_j =
      if enough_i && not enough_j
      then false
      else if not enough_i && enough_j
      then true
      else if enough_i && enough_j
      then fl.gt rate_j rate_i
      else false

module _ (fl : Float64) (t : SuccessTracker) (min_samples : ℕ) (rail : Rail) where
  -- `ok && (succ+fail) >= int64(r.minSamples)`
  unfoldable pub has_enough : {E : Type 0} → ProviderWithMeta E → Bool
  has_enough p =
      let (succ, fail, found) = get_stats t rail p.meta.provider in
      found && not (lt64 (add64 succ fail) min_samples)

  unfoldable pub swap_needed : {E : Type 0} → ProviderWithMeta E → ProviderWithMeta E → Bool
  unfolding has_enough
  swap_needed p q =
      decide_swap fl (has_enough p) (has_enough q) (get_success_rate fl t rail p.meta.provider)
        (get_success_rate fl t rail q.meta.provider)

  unfoldable pub select_by_success_rate :
      {E : Type 0} → List (ProviderWithMeta E) → List (ProviderWithMeta E)
  unfolding exchange_sort swap_needed
  select_by_success_rate ps = exchange_sort swap_needed ps
