-- ===== src/Provider/Weights/Draw.antt =====
-- The distribution of the weighted draw (provider/router.go `weightedRandomIndex`).
use native.Mathlib.Nat.{add-zero, add-suc, zero-add}
use payment_orchestrator.Base.{
  ℕ, zero, suc, ◌+◌, ◌-◌, ◌<◌, ◌≤◌, ◌≡◌, refl, Bool, true, false, List, [], ◌∷◌, arith, ltb, ◌==◌,
  length, get_or, ◌∙◌, if◌then◌else◌, Bool-cases, inl, inr,
}
use payment_orchestrator.Base.Words.{add64, lt64, is_positive, two63}
use payment_orchestrator.Provider.Weights.{sum64, scan, weighted_random_index}
use payment_orchestrator.Provider.Weights.Sum.{sum, sum64-eq-sum}

pub lt64-eq-ltb : (a b : ℕ) → a < two63 → b < two63 → lt64 a b ≡ ltb a b
lt64-eq-ltb a b ha hb = ground arith

-- The index of the interval that `r` falls into, where the weights are laid end to end.
interval : ℕ → List ℕ → ℕ
interval r [] = 0
interval r (w ∷ ws) = let rest = interval (r - w) ws in if ltb r w then 0 else suc rest

scan-eq-interval :
    (last r total i : ℕ) (ws : List ℕ)
    → total ≤ r
    → r < total + sum ws
    → total + sum ws < two63
    → scan last r total i ws ≡ i + interval (r - total) ws
unfolding scan interval
scan-eq-interval last r total i [] above below small = absurd (omega arith)
scan-eq-interval last r total i (w ∷ ws) above below small =
    let step : add64 total w ≡ total + w = omega arith in
    let test : lt64 r (total + w) ≡ ltb r (total + w) =
      lt64-eq-ltb r (total + w) (omega arith) (omega arith) in
    let same : ltb (r - total) w ≡ ltb r (total + w) = ground arith in
    let shift : r - total - w ≡ r - (total + w) = omega arith in
    elim (Bool-cases (ltb r (total + w))) [
      | inl here ↦ rw (step, test, same, here) (omega arith)
      | inr later ↦
          rw (step, test, same, later, shift)
            (omega (
              arith,
              scan-eq-interval last r (total + w) (suc i) ws (ground arith) (omega arith)
                  (omega arith),
            ))
    ]

-- How many values below `n` pass a test.
pub count_below : ℕ → (ℕ → Bool) → ℕ
count_below zero p = 0
count_below (suc n) p = (if p n then 1 else 0) + count_below n p

count_below-cong :
    (n : ℕ) (p q : ℕ → Bool) → ((k : ℕ) → k < n → p k ≡ q k) → count_below n p ≡ count_below n q
unfolding count_below
count_below-cong zero p q h = refl
count_below-cong (suc n) p q h =
    rw (h n (omega arith), count_below-cong n p q (λ k lt. h k (omega arith)))

count_below-add :
    (n m : ℕ) (p : ℕ → Bool)
    → count_below (n + m) p ≡ count_below n p + count_below m (λ k. p (n + k))
unfolding count_below
count_below-add n zero p = rw (add-zero n) (omega arith)
count_below-add n (suc m) p = rw add-suc (omega (arith, count_below-add n m p))

count_below_all : (n : ℕ) → count_below n (λ _. true) ≡ n
unfolding count_below
count_below_all zero = refl
count_below_all (suc n) = omega (arith, count_below_all n)

count_below_none : (n : ℕ) → count_below n (λ _. false) ≡ 0
unfolding count_below
count_below_none zero = refl
count_below_none (suc n) = omega (arith, count_below_none n)

interval_first : (w r : ℕ) (ws : List ℕ) → r < w → interval r (w ∷ ws) ≡ 0
unfolding interval
interval_first w r ws h = ground arith

interval_later : (w k : ℕ) (ws : List ℕ) → interval (w + k) (w ∷ ws) ≡ suc (interval k ws)
unfolding interval
interval_later w k ws =
    let test : ltb (w + k) w ≡ false = ground arith in
    let shift : w + k - w ≡ k = omega arith in rw (test, shift)

count-interval :
    (ws : List ℕ) (i : ℕ) → count_below (sum ws) (λ r. interval r ws == i) ≡ get_or ws i 0
unfolding count_below
count-interval [] i = refl
count-interval (w ∷ ws) zero =
    let first =
      count_below-cong w (λ r. interval r (w ∷ ws) == 0) (λ _. true)
        (λ r lt. rw (interval_first w r ws lt)) in
    let later =
      count_below-cong (sum ws) (λ k. interval (w + k) (w ∷ ws) == 0) (λ _. false)
        (λ k _. rw (interval_later w k ws) (ground arith)) in
    count_below-add w (sum ws) (λ r. interval r (w ∷ ws) == 0)
    ∙ rw (first, later, count_below_all w, count_below_none (sum ws)) (omega arith)
count-interval (w ∷ ws) (suc i) =
    let first =
      count_below-cong w (λ r. interval r (w ∷ ws) == suc i) (λ _. false)
        (λ r lt. rw (interval_first w r ws lt) (ground arith)) in
    let later =
      count_below-cong (sum ws) (λ k. interval (w + k) (w ∷ ws) == suc i) (λ k. interval k ws == i)
        (λ k _. rw (interval_later w k ws) (ground arith)) in
    count_below-add w (sum ws) (λ r. interval r (w ∷ ws) == suc i)
    ∙ rw (first, later, count_below_none w) (omega (arith, count-interval ws i))

weighted_random_index-eq-interval :
    (intn : ℕ → ℕ) (ws : List ℕ)
    → 0 < sum ws
    → sum ws < two63
    → intn (sum ws) < sum ws
    → weighted_random_index intn ws (sum64 0 ws) ≡ interval (intn (sum ws)) ws
unfolding weighted_random_index
weighted_random_index-eq-interval intn ws some_weight small drawn =
    let total : sum64 0 ws ≡ sum ws = omega (arith, sum64-eq-sum 0 ws (omega arith)) in
    let test : is_positive (sum ws) ≡ true = ground arith in
    let found =
      scan-eq-interval (length ws - 1) (intn (sum ws)) 0 0 ws (omega arith) (omega arith)
        (omega arith) in
    let no_shift : intn (sum ws) - 0 ≡ intn (sum ws) = omega arith in
    rw (total, test) (rw found (rw (no_shift, zero-add)))

-- Of the values that `rand.Intn` can return for a total weight that is positive and below 2 ^ 63,
-- exactly as many select the provider at position `i` as its weight says, and none selects a
-- position out of range.
pub count-weighted_random_index :
    (ws : List ℕ) (i : ℕ)
    → 0 < sum ws
    → sum ws < two63
    → count_below (sum ws) (λ r. weighted_random_index (λ _. r) ws (sum64 0 ws) == i)
      ≡ get_or ws i 0
count-weighted_random_index ws i some_weight small =
    count_below-cong (sum ws) (λ r. weighted_random_index (λ _. r) ws (sum64 0 ws) == i)
      (λ r. interval r ws == i)
      (λ r lt. rw (weighted_random_index-eq-interval (λ _. r) ws some_weight small lt))
    ∙ count-interval ws i

scan-lt :
    (last r total i n : ℕ) (ws : List ℕ) → last < n → i + length ws ≤ n → scan last r total i ws < n
unfolding scan
scan-lt last r total i n [] h k = h
scan-lt last r total i n (w ∷ ws) h k =
    ground (arith, scan-lt last r (add64 total w) (suc i) n ws h (omega arith))

-- If there is a weight and the draw stays below its bound, the index is in range, also where all
-- weights are 0 or their sum wraps.
pub weighted_random_index-lt :
    (intn : ℕ → ℕ) (ws : List ℕ) (total : ℕ)
    → ((n : ℕ) → 0 < n → intn n < n)
    → 0 < length ws
    → weighted_random_index intn ws total < length ws
unfolding weighted_random_index
weighted_random_index-lt intn ws total lawful h = ground (
  arith,
  lawful (length ws),
  scan-lt (length ws - 1) (intn total) 0 0 (length ws) ws (omega arith) (omega arith),
)
