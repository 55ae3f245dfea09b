-- ===== src/Provider/Weights.antt =====
-- Weighted routing (provider/router.go: `selectByWeight`, `calculateEffectiveWeights`,
-- `weightedRandomIndex`). A configured weight is a signed `int`; effective weights and their sums
-- are 64-bit patterns, whose additions wrap. `intn n` is the draw of `rand.Intn(n)`.
pub mod Sum
pub mod Draw
pub mod Select
use payment_orchestrator.Base.{
  ℕ, zero, suc, ◌+◌, ◌-◌, ◌/◌, ◌%◌, Bool, true, false, not, Option, none, some, List, [], ◌∷◌, map,
  ◌==◌, length, get_elem?, if◌then◌else◌,
}
use payment_orchestrator.Base.Int.{ℤ, pos, negsuc, pos_part, ltb_ℤ}
use payment_orchestrator.Base.Words.{add64, sub64, lt64, is_positive}
use payment_orchestrator.Provider.Registry.{ProviderWithMeta}

abbrev pub is_explicit : ℤ → Bool
is_explicit w = ltb_ℤ (pos 0) w

-- `p.Meta.Weight == 0`
abbrev pub is_unset : ℤ → Bool
is_unset (pos zero) = true
is_unset (pos (suc _)) = false
is_unset (negsuc _) = false

-- What the first loop writes: the weight if it is positive, else the 0 of `make`.
abbrev pub explicit_weights : List ℤ → List ℕ
explicit_weights ws = map pos_part ws

abbrev pub sum64 : ℕ → List ℕ → ℕ
sum64 acc [] = acc
sum64 acc (w ∷ ws) = sum64 (add64 acc w) ws

abbrev pub explicit_count : List ℤ → ℕ
explicit_count [] = 0
explicit_count (w ∷ ws) = let rest = explicit_count ws in if is_explicit w then suc rest else rest

-- `weights[0] += extra`
abbrev pub add_to_first : ℕ → List ℕ → List ℕ
add_to_first extra [] = []
add_to_first extra (w ∷ ws) = add64 w extra ∷ ws

abbrev pub equal_weights : List ℤ → List ℕ
equal_weights ws = add_to_first (100 % length ws) (map (λ _. 100 / length ws) ws)

-- The weights after the loop that writes `value` where the configured weight is 0.
abbrev pub fill_unset : ℕ → List ℤ → List ℕ
fill_unset value [] = []
fill_unset value (w ∷ ws) = (if is_unset w then value else pos_part w) ∷ fill_unset value ws

-- The loop that adds `extra` at the first configured weight that is 0, and stops there.
abbrev pub add_to_first_unset : ℕ → List ℤ → List ℕ → List ℕ
add_to_first_unset extra (w ∷ ws) (e ∷ es) =
    let rest = add_to_first_unset extra ws es in if is_unset w then add64 e extra ∷ es else e ∷ rest
add_to_first_unset extra _ es = es

-- The last part: `remainder` is shared among the providers without a weight.
abbrev pub share_remainder : ℕ → ℕ → List ℤ → List ℕ
share_remainder remainder unset_count ws =
    let filled = fill_unset (remainder / unset_count) ws in
    let extra = remainder % unset_count in
    if is_positive extra then add_to_first_unset extra ws filled else filled

-- `calculateEffectiveWeights`, on the configured weights of the providers.
unfoldable pub effective_weights : List ℤ → List ℕ
effective_weights ws =
    let explicit = explicit_count ws in
    let remainder = sub64 100 (sum64 0 (explicit_weights ws)) in
    if explicit == 0
    then equal_weights ws
    else if explicit == length ws
    then explicit_weights ws
    else if not (is_positive remainder)
    then fill_unset 1 ws
    else share_remainder remainder (length ws - explicit) ws

module _ {E : Type 0} where
  abbrev pub configured : List (ProviderWithMeta E) → List ℤ
  configured ps = map (λ p. p.meta.weight) ps

  unfoldable pub calculate_effective_weights : List (ProviderWithMeta E) → List ℕ
  unfolding effective_weights
  calculate_effective_weights ps = effective_weights (configured ps)

-- The loop of `weightedRandomIndex`, at index `i` with the running `sum`; `last` is the answer
-- when the loop ends.
unfoldable pub scan : ℕ → ℕ → ℕ → ℕ → List ℕ → ℕ
scan last r sum i [] = last
scan last r sum i (w ∷ ws) =
    let rest = scan last r (add64 sum w) (suc i) ws in if lt64 r (add64 sum w) then i else rest

module _ (intn : ℕ → ℕ) where
  unfoldable pub weighted_random_index : List ℕ → ℕ → ℕ
  unfolding scan
  weighted_random_index weights total =
      if not (is_positive total)
      then intn (length weights)
      else scan (length weights - 1) (intn total) 0 0 weights

-- The loop that copies every element but the one at `idx`.
abbrev pub remove_at {ℓ} : {A : Type ℓ} → ℕ → List A → List A
remove_at _ [] = []
remove_at zero (x ∷ xs) = xs
remove_at (suc i) (x ∷ xs) = x ∷ remove_at i xs

abbrev pub put_first {ℓ} : {A : Type ℓ} → Option A → List A → Option (List A)
put_first none others = none
put_first (some chosen) others = some (chosen ∷ others)

-- The new slice: the provider at `idx`, then the others in order. `none` is the panic of an index
-- that is out of range.
abbrev pub move_to_front {ℓ} : {A : Type ℓ} → ℕ → List A → Option (List A)
move_to_front idx xs = put_first (get_elem? xs idx) (remove_at idx xs)

module _ (intn : ℕ → ℕ) {E : Type 0} where
  unfoldable pub select_by_weight : List (ProviderWithMeta E) → Option (List (ProviderWithMeta E))
  unfolding calculate_effective_weights weighted_random_index
  select_by_weight [] = some []
  select_by_weight (p ∷ ps) =
      let weights = calculate_effective_weights (p ∷ ps) in
      move_to_front (weighted_random_index intn weights (sum64 0 weights)) (p ∷ ps)
