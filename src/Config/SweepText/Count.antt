-- ===== src/Config/SweepText/Count.antt =====
-- The run count is the size of the Cartesian product, as far as it fits.
use mac_os_memory_benchmark.Common.{
  ℕ, zero, suc, ◌*◌, ◌<◌, ◌≤◌, ◌≢◌, ◌==◌, ◌≡◌, arith, List, [], ◌∷◌, All, min, size_max,
  if◌then◌else◌, ap, ltb, Bool-cases, inl, inr,
}
use mac_os_memory_benchmark.Numeric.{saturating_multiply}
use mac_os_memory_benchmark.Numeric.Checked.{saturating_multiply-min}
use mac_os_memory_benchmark.Config.SweepText.{
  cartesian_run_count_from, calculate_cartesian_run_count,
}

abbrev pub product_map {ℓ} : {D : Type ℓ} → (D → ℕ) → List D → ℕ
product_map cardinality [] = 1
product_map cardinality (d ∷ ds) = cardinality d * product_map cardinality ds

mul_regroup : (r c p : ℕ) → r * (c * p) ≡ r * c * p
mul_regroup r c p = grind arith

le-mul : (x p : ℕ) → 1 ≤ p → x ≤ x * p
le-mul x p h = grind arith

-- One round of the loop, with the rest of the loop as a number.
round : ℕ → ℕ → ℕ → ℕ
round c next rest = if c == 0 then 0 else if next == size_max then next else rest

round-min :
    (r c p next rest : ℕ)
    → 1 ≤ p
    → c ≢ 0
    → next ≡ min size_max (r * c)
    → rest ≡ min (next * p) size_max
    → round c next rest ≡ min (r * (c * p)) size_max
unfolding round
round-min r c p next rest hp hc e f = elim (Bool-cases (ltb (r * c) size_max)) [
  | inl small ↦
      let same : next ≡ r * c = ground (arith, small, e) in
      ground (arith, same, ap (λ n. n * p) same, mul_regroup r c p, f, small)
  | inr large ↦ ground (arith, large, e, mul_regroup r c p, le-mul (r * c) p)
]

round-exact :
    (r c p next rest : ℕ)
    → next ≡ min size_max (r * c)
    → (rest < size_max → rest ≡ next * p)
    → round c next rest < size_max
    → round c next rest ≡ r * (c * p)
unfolding round
round-exact r zero p next rest e f lt = grind arith
round-exact r (suc c) p next rest e f lt =
    let same : next ≡ r * suc c = ground (arith, e) in
    ground (arith, f, ap (λ n. n * p) same, mul_regroup r (suc c) p)

module _ {ℓ} {D : Type ℓ} (cardinality : D → ℕ) where
  product_pos : (ds : List D) → All (λ d. cardinality d ≢ 0) ds → 1 ≤ product_map cardinality ds
  product_pos [] h = omega arith
  product_pos (d ∷ ds) h = grind (arith, product_pos ds h.1)

  pub cartesian_run_count_from-min :
      (ds : List D) (run_count : ℕ)
      → run_count ≤ size_max
      → All (λ d. cardinality d ≢ 0) ds
      → cartesian_run_count_from cardinality ds run_count
        ≡ min (run_count * product_map cardinality ds) size_max
  unfolding cartesian_run_count_from round
  cartesian_run_count_from-min [] run_count le h = ground arith
  cartesian_run_count_from-min (d ∷ ds) run_count le h =
      let next = saturating_multiply run_count (cardinality d) in
      round-min run_count (cardinality d) (product_map cardinality ds) next _ (product_pos ds h.1)
        h.0 (saturating_multiply-min run_count (cardinality d))
        (cartesian_run_count_from-min ds next
          (ground (arith, saturating_multiply-min run_count (cardinality d))) h.1)

  -- Below the largest `size_t` the count is exact, whether or not a dimension is empty.
  pub cartesian_run_count_from-exact :
      (ds : List D) (run_count : ℕ)
      → cartesian_run_count_from cardinality ds run_count < size_max
      → cartesian_run_count_from cardinality ds run_count ≡ run_count * product_map cardinality ds
  unfolding cartesian_run_count_from round
  cartesian_run_count_from-exact [] run_count lt = omega arith
  cartesian_run_count_from-exact (d ∷ ds) run_count lt =
      let next = saturating_multiply run_count (cardinality d) in
      round-exact run_count (cardinality d) (product_map cardinality ds) next _
        (saturating_multiply-min run_count (cardinality d)) (cartesian_run_count_from-exact ds next)
        lt

-- If no dimension is empty, the run count is the product of the sizes, or the largest `size_t`
-- where the product is larger.
pub calculate_cartesian_run_count-min :
    (sizes : List ℕ)
    → All (λ n. n ≢ 0) sizes
    → calculate_cartesian_run_count sizes ≡ min (product_map (λ n. n) sizes) size_max
unfolding calculate_cartesian_run_count
calculate_cartesian_run_count-min sizes h =
    rw (cartesian_run_count_from-min (λ n. n) sizes 1 (omega arith) h) (omega arith)
