-- ===== src/Provider/SuccessRate/Order.antt =====
-- The order and the stability of the exchange sort (provider/router.go `selectBySuccessRate`).
use mathlib.Core.List.{Perm}
use mathlib.Core.List.Perm
use payment_orchestrator.Base.{
  ℕ, zero, suc, ◌≡◌, refl, Bool, true, false, List, [], ◌∷◌, arith, length, ap, sym, if◌then◌else◌,
  Bool-cases, inl, inr, All,
}
use payment_orchestrator.Domain.{Rail}
use payment_orchestrator.Provider.Registry.{ProviderWithMeta}
use payment_orchestrator.Provider.SuccessTracker.{SuccessTracker, Float64}
use payment_orchestrator.Provider.SuccessRate.{
  inner_loop, outer_loop, exchange_sort, has_enough, swap_needed, decide_swap,
  select_by_success_rate,
}
use mathlib.Core.Path.{subst}

module _ {ℓ} {A : Type ℓ} (swap : A → A → Bool) where
  inner_loop-perm :
      (x : A) (ys : List A) → Perm ((inner_loop swap x ys).0 ∷ (inner_loop swap x ys).1) (x ∷ ys)
  unfolding inner_loop
  inner_loop-perm x [] = Perm.rfl
  inner_loop-perm x (y ∷ ys) = elim (Bool-cases (swap x y)) [
    | inl better ↦ rw better (Perm.trans (Perm.swap x _ _) (Perm.cons x (inner_loop-perm y ys)))
    | inr keep ↦ rw keep (
        Perm.trans (Perm.swap y _ _)
          (Perm.trans (Perm.cons y (inner_loop-perm x ys)) (Perm.swap x y ys)))
  ]

  outer_loop-perm : (n : ℕ) (xs : List A) → Perm (outer_loop swap n xs) xs
  unfolding outer_loop
  outer_loop-perm zero xs = Perm.rfl
  outer_loop-perm (suc n) [] = Perm.rfl
  outer_loop-perm (suc n) (x ∷ xs) =
      let (z, zs) = inner_loop swap x xs in
      Perm.trans (Perm.cons z (outer_loop-perm n zs)) (inner_loop-perm x xs)

  exchange_sort-perm : (xs : List A) → Perm (exchange_sort swap xs) xs
  unfolding exchange_sort
  exchange_sort-perm xs = outer_loop-perm (length xs) xs

  length-inner_loop : (x : A) (ys : List A) → length (inner_loop swap x ys).1 ≡ length ys
  unfolding inner_loop
  length-inner_loop x [] = refl
  length-inner_loop x (y ∷ ys) = ap suc (length-inner_loop (if swap x y then y else x) ys)

  All-inner_loop {κ} :
      (P : A → Type κ) (x : A) (ys : List A)
      → P x
      → All P ys
      → P (inner_loop swap x ys).0 × All P (inner_loop swap x ys).1
  unfolding inner_loop
  All-inner_loop P x [] p h = (p, tt)
  All-inner_loop P x (y ∷ ys) p h = elim (Bool-cases (swap x y)) [
    | inl better ↦ let (a, b) = All-inner_loop P y ys h.0 h.1 in rw better (a, (p, b))
    | inr keep ↦ let (a, b) = All-inner_loop P x ys p h.1 in rw keep (a, (h.0, b))
  ]

  All-outer_loop {κ} :
      (P : A → Type κ) (n : ℕ) (xs : List A) → All P xs → All P (outer_loop swap n xs)
  unfolding outer_loop
  All-outer_loop P zero xs h = h
  All-outer_loop P (suc n) [] h = h
  All-outer_loop P (suc n) (x ∷ xs) h =
      let (a, b) = All-inner_loop P x xs h.0 h.1 in
      (a, All-outer_loop P n (inner_loop swap x xs).1 b)

  -- No element is followed by one that would be swapped before it.
  abbrev pub IsOrdered : List A → Type 0
  IsOrdered [] = Unit
  IsOrdered (x ∷ xs) = All (λ y. swap x y ≡ false) xs × IsOrdered xs

  -- The test is a strict weak order.
  pub record IsWeakOrder : Type ℓ where
    pub asym : (x y : A) → swap x y ≡ true → swap y x ≡ false
    pub trans : (x y z : A) → swap x y ≡ false → swap y z ≡ false → swap x z ≡ false

  irrefl : IsWeakOrder → (x : A) → swap x x ≡ false
  irrefl w x = elim (Bool-cases (swap x x)) [ inl e ↦ w.asym x x e | inr e ↦ e ]

  inner_loop_swaps :
      (x y : A) (ys : List A)
      → swap x y ≡ true
      → inner_loop swap x (y ∷ ys) ≡ ((inner_loop swap y ys).0, x ∷ (inner_loop swap y ys).1)
  unfolding inner_loop
  inner_loop_swaps x y ys e = rw e

  inner_loop_keeps :
      (x y : A) (ys : List A)
      → swap x y ≡ false
      → inner_loop swap x (y ∷ ys) ≡ ((inner_loop swap x ys).0, y ∷ (inner_loop swap x ys).1)
  unfolding inner_loop
  inner_loop_keeps x y ys e = rw e

  -- The first part is at least as good as `x` and as all that is in the second.
  abbrev IsBest : A → A × List A → Type 0
  IsBest x (z, zs) = (swap z x ≡ false) × All (λ y. swap z y ≡ false) zs

  inner_loop-IsBest : (x : A) (ys : List A) → IsWeakOrder → IsBest x (inner_loop swap x ys)
  inner_loop-IsBest x [] w = unfold inner_loop in (irrefl w x, tt)
  inner_loop-IsBest x (y ∷ ys) w = elim (Bool-cases (swap x y)) [
    | inl better ↦
        let (a, b) = inner_loop-IsBest y ys w in
        let c = w.trans _ y x a (w.asym x y better) in
        subst (IsBest x) (sym (inner_loop_swaps x y ys better)) (c, (c, b))
    | inr keep ↦
        let (a, b) = inner_loop-IsBest x ys w in
        subst (IsBest x) (sym (inner_loop_keeps x y ys keep)) (a, (w.trans _ x y a keep, b))
  ]

  outer_loop-IsOrdered :
      (n : ℕ) (xs : List A) → IsWeakOrder → length xs ≡ n → IsOrdered (outer_loop swap n xs)
  unfolding outer_loop
  outer_loop-IsOrdered zero [] w e = tt
  outer_loop-IsOrdered zero (x ∷ xs) w e = absurd (omega arith)
  outer_loop-IsOrdered (suc n) [] w e = tt
  outer_loop-IsOrdered (suc n) (x ∷ xs) w e =
      let (z, zs) = inner_loop swap x xs in
      (
        All-outer_loop (λ y. swap z y ≡ false) n zs (inner_loop-IsBest x xs w).1,
        outer_loop-IsOrdered n zs w (omega (arith, length-inner_loop x xs)),
      )

  exchange_sort-IsOrdered : (xs : List A) → IsWeakOrder → IsOrdered (exchange_sort swap xs)
  unfolding exchange_sort
  exchange_sort-IsOrdered xs w = outer_loop-IsOrdered (length xs) xs w refl

module _ (fl : Float64) where
  -- What IEEE 754 says of `>` on values that are not NaN, which a rate never is: its denominator
  -- is not 0.
  pub record GtLaws : Type 0 where
    pub asym : (a b : fl.F) → fl.gt a b ≡ true → fl.gt b a ≡ false
    pub trans : (a b c : fl.F) → fl.gt b a ≡ false → fl.gt c b ≡ false → fl.gt c a ≡ false

  module _ (g : GtLaws) where
    decide_swap_asym :
        (p q : Bool) (a b : fl.F) → decide_swap fl p q a b ≡ true → decide_swap fl q p b a ≡ false
    decide_swap_asym p q a b h = ground (arith, g.asym b a)

    decide_swap_trans :
        (p q r : Bool) (a b c : fl.F)
        → decide_swap fl p q a b ≡ false
        → decide_swap fl q r b c ≡ false
        → decide_swap fl p r a c ≡ false
    decide_swap_trans p q r a b c h k = ground (arith, g.trans a b c)

module _ (fl : Float64) (t : SuccessTracker) (min_samples : ℕ) (rail : Rail) {E : Type 0} where
  swap_needed-IsWeakOrder :
      GtLaws fl → IsWeakOrder {A = ProviderWithMeta E} (swap_needed fl t min_samples rail)
  unfolding swap_needed
  swap_needed-IsWeakOrder g = record {
    asym = λ p q. decide_swap_asym fl g _ _ _ _;
    trans = λ p q r. decide_swap_trans fl g _ _ _ _ _ _;
  }

  pub select_by_success_rate-IsOrdered :
      (ps : List (ProviderWithMeta E))
      → GtLaws fl
      → Perm (select_by_success_rate fl t min_samples rail ps) ps
        × IsOrdered
            (swap_needed fl t min_samples rail)
            (select_by_success_rate fl t min_samples rail ps)
  unfolding select_by_success_rate
  select_by_success_rate-IsOrdered ps g =
      let order = swap_needed fl t min_samples rail in
      (exchange_sort-perm order ps, exchange_sort-IsOrdered order ps (swap_needed-IsWeakOrder g))

  -- Two providers without enough samples that stand before one with enough come out in the
  -- opposite order, so they do not keep their configured order.
  pub select_by_success_rate_reverses :
      (p q r : ProviderWithMeta E)
      → has_enough fl t min_samples rail p ≡ false
      → has_enough fl t min_samples rail q ≡ false
      → has_enough fl t min_samples rail r ≡ true
      → select_by_success_rate fl t min_samples rail (p ∷ q ∷ r ∷ []) ≡ r ∷ q ∷ p ∷ []
  unfolding select_by_success_rate
  select_by_success_rate_reverses p q r hp hq hr =
      let order = swap_needed fl t min_samples rail in
      let pq : order p q ≡ false = unfold swap_needed in rw (hp, hq) in
      let qp : order q p ≡ false = unfold swap_needed in rw (hp, hq) in
      let pr : order p r ≡ true = unfold swap_needed in rw (hp, hr) in rw (pq, pr, qp)
