-- ===== src/Provider/Weights/Select.antt =====
-- The order in which weighted routing tries the providers.
use mathlib.Core.List.{Perm}
use mathlib.Core.List.Perm
use payment_orchestrator.Base.{
  ℕ, zero, suc, ◌-◌, ◌/◌, ◌%◌, ◌<◌, ◌≡◌, refl, ap, some, List, [], ◌∷◌, map, arith, length,
  length-map, get_elem?, ◌∙◌,
}
use mathlib.Core.Path.{subst}
use payment_orchestrator.Base.Int.{ℤ, pos_part}
use payment_orchestrator.Base.Words.{sub64}
use payment_orchestrator.Provider.Registry.{ProviderWithMeta}
use payment_orchestrator.Provider.Weights.{
  add_to_first, fill_unset, add_to_first_unset, explicit_weights, configured,
  calculate_effective_weights, effective_weights, weighted_random_index, remove_at, move_to_front,
  select_by_weight, sum64, explicit_count,
}
use payment_orchestrator.Provider.Weights.Draw.{weighted_random_index-lt}

remove_at-perm {ℓ} :
    {A : Type ℓ} (i : ℕ) (xs : List A) {x : A}
    → get_elem? xs i ≡ some x
    → Perm (x ∷ remove_at i xs) xs
remove_at-perm i [] h = cc
remove_at-perm zero (y ∷ xs) {x} h = subst (λ z. Perm (z ∷ xs) (y ∷ xs)) (cc) Perm.rfl
remove_at-perm (suc i) (y ∷ xs) {x} h =
    Perm.trans (Perm.swap y x (remove_at i xs)) (Perm.cons y (remove_at-perm i xs h))

get_elem?-lt {ℓ} :
    {A : Type ℓ} (xs : List A) (i : ℕ) → i < length xs → (x : A) × (get_elem? xs i ≡ some x)
get_elem?-lt [] i h = absurd (omega arith)
get_elem?-lt (x ∷ xs) zero h = (x, refl)
get_elem?-lt (x ∷ xs) (suc i) h = get_elem?-lt xs i (omega arith)

move_to_front-perm {ℓ} :
    {A : Type ℓ} (i : ℕ) (xs : List A)
    → i < length xs
    → (result : List A) × (move_to_front i xs ≡ some result) × Perm result xs
move_to_front-perm i xs h =
    let (x, found) = get_elem?-lt xs i h in
    (x ∷ remove_at i xs, rw found, remove_at-perm i xs found)

length-fill_unset : (v : ℕ) (ws : List ℤ) → length (fill_unset v ws) ≡ length ws
length-fill_unset v [] = refl
length-fill_unset v (w ∷ ws) = ap suc (length-fill_unset v ws)

length-add_to_first_unset :
    (extra : ℕ) (ws : List ℤ) (es : List ℕ) → length (add_to_first_unset extra ws es) ≡ length es
length-add_to_first_unset extra [] es = refl
length-add_to_first_unset extra (w ∷ ws) [] = refl
length-add_to_first_unset extra (w ∷ ws) (e ∷ es) =
    ground (arith, length-add_to_first_unset extra ws es)

length-add_to_first : (extra : ℕ) (es : List ℕ) → length (add_to_first extra es) ≡ length es
length-add_to_first extra [] = refl
length-add_to_first extra (e ∷ es) = refl

-- Every provider has one effective weight.
pub length-effective_weights : (ws : List ℤ) → length (effective_weights ws) ≡ length ws
unfolding effective_weights
length-effective_weights ws =
    let u = length ws - explicit_count ws in
    let remainder = sub64 100 (sum64 0 (explicit_weights ws)) in
    let filled = fill_unset (remainder / u) ws in
    ground (
      arith,
      length-map pos_part ws,
      length-map (λ (_ : ℤ). 100 / length ws) ws,
      length-add_to_first (100 % length ws) (map (λ _. 100 / length ws) ws),
      length-fill_unset 1 ws,
      length-fill_unset (remainder / u) ws,
      length-add_to_first_unset (remainder % u) ws filled,
    )

module _ {E : Type 0} (intn : ℕ → ℕ) where
  -- With a draw that stays below its bound, weighted routing never indexes out of range, and what
  -- it returns is a rearrangement of the providers of the rail: none is lost or tried twice.
  pub select_by_weight-perm :
      (ps : List (ProviderWithMeta E))
      → ((n : ℕ) → 0 < n → intn n < n)
      → (result : List (ProviderWithMeta E)) × (select_by_weight intn ps ≡ some result)
        × Perm result ps
  unfolding select_by_weight
  select_by_weight-perm [] lawful = ([], refl, Perm.rfl)
  select_by_weight-perm (p ∷ ps) lawful =
      let weights = calculate_effective_weights (p ∷ ps) in
      let same : length weights ≡ length (p ∷ ps) =
        length-effective_weights (configured (p ∷ ps))
        ∙ length-map (λ (q : ProviderWithMeta E). q.meta.weight) (p ∷ ps) in
      let drawn = weighted_random_index-lt intn weights (sum64 0 weights) lawful (omega arith) in
      move_to_front-perm (weighted_random_index intn weights (sum64 0 weights)) (p ∷ ps)
        (omega (arith, drawn))
