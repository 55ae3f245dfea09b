-- ===== src/Provider/Weights/Sum.antt =====
-- The sum of the effective weights (provider/router.go `calculateEffectiveWeights`).
use native.Mathlib.Nat.{div-add-mod}
use payment_orchestrator.Base.{
  ℕ, zero, suc, ◌+◌, ◌*◌, ◌-◌, ◌/◌, ◌%◌, ◌<◌, ◌≤◌, ◌≡◌, refl, true, false, List, [], ◌∷◌, map,
  arith, ◌==◌, length, if◌then◌else◌, Bool-cases, inl, inr,
}
use payment_orchestrator.Base.Int.{ℤ, pos, negsuc}
use payment_orchestrator.Base.Words.{add64, sub64, is_positive, two63}
use payment_orchestrator.Provider.Weights.{
  is_unset, explicit_weights, sum64, explicit_count, equal_weights, fill_unset, add_to_first_unset,
  share_remainder, effective_weights,
}

-- The sum without wrapping.
abbrev pub sum : List ℕ → ℕ
sum [] = 0
sum (w ∷ ws) = w + sum ws

pub sum64-eq-sum : (acc : ℕ) (ws : List ℕ) → acc + sum ws < two63 → sum64 acc ws ≡ acc + sum ws
sum64-eq-sum acc [] h = omega arith
sum64-eq-sum acc (w ∷ ws) h =
    let step : add64 acc w ≡ acc + w = omega arith in
    rw step (omega (arith, sum64-eq-sum (acc + w) ws (omega arith)))

-- Every configured weight is 0 or more.
abbrev pub IsNonneg : List ℤ → Type 0
IsNonneg [] = Unit
IsNonneg (pos _ ∷ ws) = IsNonneg ws
IsNonneg (negsuc _ ∷ ws) = ⊥

abbrev pub unset_count : List ℤ → ℕ
unset_count [] = 0
unset_count (w ∷ ws) = let rest = unset_count ws in if is_unset w then suc rest else rest

explicit-add-unset : (ws : List ℤ) → IsNonneg ws → explicit_count ws + unset_count ws ≡ length ws
explicit-add-unset [] h = omega arith
explicit-add-unset (pos zero ∷ ws) h = omega (arith, explicit-add-unset ws h)
explicit-add-unset (pos (suc n) ∷ ws) h = ground (arith, explicit-add-unset ws h)
explicit-add-unset (negsuc n ∷ ws) h = absurd h

sum-fill_unset :
    (v : ℕ) (ws : List ℤ) → sum (fill_unset v ws) ≡ v * unset_count ws + sum (explicit_weights ws)
sum-fill_unset v [] = omega arith
sum-fill_unset v (pos zero ∷ ws) = omega (arith, sum-fill_unset v ws)
sum-fill_unset v (pos (suc n) ∷ ws) = omega (arith, sum-fill_unset v ws)
sum-fill_unset v (negsuc n ∷ ws) = omega (arith, sum-fill_unset v ws)

sum-add_to_first_unset :
    (extra v : ℕ) (ws : List ℤ)
    → v + extra < two63
    → 0 < unset_count ws
    → sum (add_to_first_unset extra ws (fill_unset v ws)) ≡ extra + sum (fill_unset v ws)
sum-add_to_first_unset extra v [] small some_unset = absurd (omega arith)
sum-add_to_first_unset extra v (pos zero ∷ ws) small some_unset = omega arith
sum-add_to_first_unset extra v (pos (suc n) ∷ ws) small some_unset =
    omega (arith, sum-add_to_first_unset extra v ws small some_unset)
sum-add_to_first_unset extra v (negsuc n ∷ ws) small some_unset =
    omega (arith, sum-add_to_first_unset extra v ws small some_unset)

sum-map_const : (c : ℕ) (ws : List ℤ) → sum (map (λ _. c) ws) ≡ c * length ws
sum-map_const c [] = omega arith
sum-map_const c (w ∷ ws) = omega (arith, sum-map_const c ws)

sum-equal_weights : (ws : List ℤ) → 0 < length ws → sum (equal_weights ws) ≡ 100
sum-equal_weights [] h = absurd (omega arith)
sum-equal_weights (w ∷ ws) h =
    let n = length (w ∷ ws) in
    let wrapped : add64 (100 / n) (100 % n) ≡ 100 / n + 100 % n = grind arith in
    rw (wrapped, sum-map_const (100 / n) ws) (grind (arith, div-add-mod 100 n))

sum-share_remainder :
    (remainder : ℕ) (ws : List ℤ)
    → remainder ≤ 100
    → 0 < unset_count ws
    → sum (share_remainder remainder (unset_count ws) ws) ≡ remainder + sum (explicit_weights ws)
sum-share_remainder remainder ws small some_unset =
    let u = unset_count ws in
    elim (Bool-cases (is_positive (remainder % u))) [
      | inl more ↦ rw more (
          grind (
            arith,
            sum-add_to_first_unset (remainder % u) (remainder / u) ws (grind arith) some_unset,
            sum-fill_unset (remainder / u) ws,
            div-add-mod remainder u,
          ))
      | inr exact ↦
          rw exact (grind (arith, sum-fill_unset (remainder / u) ws, div-add-mod remainder u))
    ]

no_explicit : (ws : List ℤ) → IsNonneg ws → explicit_count ws ≡ 0 → sum (explicit_weights ws) ≡ 0
no_explicit [] h e = refl
no_explicit (pos zero ∷ ws) h e = omega (arith, no_explicit ws h e)
no_explicit (pos (suc n) ∷ ws) h e = ground arith
no_explicit (negsuc n ∷ ws) h e = absurd h

-- If no configured weight is negative, at least one provider has none (its weight is 0), and the
-- configured weights sum to less than 100, then the effective weights sum to exactly 100.
pub sum-effective_weights :
    (ws : List ℤ)
    → IsNonneg ws
    → 0 < unset_count ws
    → sum (explicit_weights ws) < 100
    → sum (effective_weights ws) ≡ 100
unfolding effective_weights
sum-effective_weights ws nonneg some_unset small = elim (Bool-cases (explicit_count ws == 0)) [
  | inl none_set ↦ rw none_set (sum-equal_weights ws (omega (arith, explicit-add-unset ws nonneg)))
  | inr some_set ↦
      let total = sum (explicit_weights ws) in
      let parts : length ws - explicit_count ws ≡ unset_count ws =
        omega (arith, explicit-add-unset ws nonneg) in
      let not_all : (explicit_count ws == length ws) ≡ false =
        ground (arith, explicit-add-unset ws nonneg) in
      let left : sub64 100 (sum64 0 (explicit_weights ws)) ≡ 100 - total =
        omega (arith, sum64-eq-sum 0 (explicit_weights ws) (omega arith)) in
      let rest : is_positive (100 - total) ≡ true = ground arith in
      rw (some_set, not_all, left, rest, parts)
        (omega (arith, sum-share_remainder (100 - total) ws (omega arith) some_unset))
]
