-- ===== src/Numeric/Counts.antt =====
-- The count calibration: smallest pilot, and bounded counts.
use mac_os_memory_benchmark.Common.{
  ℕ, ◌-◌, ◌*◌, ◌%◌, ◌≤◌, ◌<◌, ◌≡◌, ◌≢◌, ◌⊎◌, inl, inr, arith, size_max, Option-cases, Bool-cases,
  refl, leb, ltb, true, if◌then◌else◌,
}
use mac_os_memory_benchmark.Common.Division.{
  ceil_div, ceil_div_reaches, ceil_div_least, round_down_multiple, multiple-le-round_down,
}
use mac_os_memory_benchmark.Numeric.Checked.{checked_round_up-some}
use mac_os_memory_benchmark.Numeric.{
  checked_round_up, Floating, scaled_count, calculate_minimum_pilot_count, quantize_count,
  calculate_duration_scaled_count,
}

mul_mono : (a b c : ℕ) → b ≤ a → b * c ≤ a * c
mul_mono a b c h = grind arith

-- The pilot count is from 1 to the maximum, meets the work floor unless it is the maximum, and no
-- smaller positive count meets it.
pub record IsPilot (work floor maximum count : ℕ) : Type 0 where
  pub positive : 1 ≤ count
  pub bounded : count ≤ maximum
  pub meets : (count ≡ maximum) ⊎ (floor ≤ count * work)
  pub least : (k : ℕ) → 1 ≤ k → k < count → k * work < floor

-- For positive work per count and a positive maximum, the pilot count is between 1 and the maximum;
-- its work meets the floor unless it is the maximum; and the work of no smaller count meets it.
pub calculate_minimum_pilot_count-IsPilot :
    (work floor maximum : ℕ)
    → work ≢ 0
    → maximum ≢ 0
    → IsPilot work floor maximum (calculate_minimum_pilot_count work floor maximum)
unfolding calculate_minimum_pilot_count
calculate_minimum_pilot_count-IsPilot work floor maximum hw hm = record {
  positive = ground arith;
  bounded = ground arith;
  meets = ground (arith, ceil_div_reaches floor work hw, mul_mono (ceil_div floor work) 1 work);
  least = λ k h1 h2. ground (arith, ceil_div_least floor work k hw);
}

-- A quantized count is a multiple of the quantum within the bounds, or zero where none exists.
abbrev pub IsCount : ℕ → ℕ → ℕ → ℕ → Type 0
IsCount minimum maximum quantum count =
    ((minimum ≤ count) × (count ≤ maximum) × (count % quantum ≡ 0))
    ⊎ ((count ≡ 0) × ((m : ℕ) → minimum ≤ m → m ≤ maximum → m % quantum ≢ 0))

-- What is left of the maximum when nothing rounded up fits.
fallback-IsCount :
    (minimum maximum quantum : ℕ)
    → IsCount minimum maximum quantum
        (if leb minimum (maximum - maximum % quantum) then maximum - maximum % quantum else 0)
fallback-IsCount minimum maximum quantum =
    elim (Bool-cases (leb minimum (maximum - maximum % quantum))) [
      | inl e ↦ rw e (inl (ground arith, ground arith, round_down_multiple maximum quantum))
      | inr e ↦
          rw e
            (inr (refl, λ m lo hi h. ground (arith, multiple-le-round_down m maximum quantum h hi)))
    ]

quantize_count-IsCount :
    (count minimum maximum quantum : ℕ)
    → count ≤ size_max
    → quantum ≤ size_max
    → minimum ≤ count
    → IsCount minimum maximum quantum (quantize_count count minimum maximum quantum)
unfolding quantize_count
quantize_count-IsCount count minimum maximum quantum h1 h2 h3 =
    elim (Option-cases (checked_round_up count quantum)) [
      | inl e ↦ rw (e, quantize_count) (fallback-IsCount minimum maximum quantum)
      | inr (r, e) ↦
          rw (e, quantize_count)
            (elim (Bool-cases (ltb maximum r)) [
              | inl big ↦ rw big (fallback-IsCount minimum maximum quantum)
              | inr fits ↦ rw fits (
                  inl (
                    ground (arith, (checked_round_up-some count quantum r h1 h2).0 e),
                    ground arith,
                    ((checked_round_up-some count quantum r h1 h2).0 e).1,
                  ))
            ])
    ]

module _ (fl : Floating) where
  open fl use {Double, is_finite, is_positive, scaled_ceil-size}

  -- The arguments that `calculate_duration_scaled_count` accepts.
  pub record IsAccepted (pilot : Double) (pilot_count : ℕ) (target : Double)
      (minimum maximum quantum : ℕ) : Type 0 where
    pub pilot_valid : (is_finite pilot ≡ true) × (is_positive pilot ≡ true)
    pub target_valid : (is_finite target ≡ true) × (is_positive target ≡ true)
    pub counts : (1 ≤ pilot_count) × (1 ≤ minimum) × (minimum ≤ maximum) × (1 ≤ quantum)

  scaled_count_range :
      (pilot : Double) (pilot_count : ℕ) (target : Double) (minimum maximum : ℕ)
      → minimum ≤ size_max
      → maximum ≤ size_max
      → (scaled_count fl pilot pilot_count target minimum maximum ≤ size_max)
        × (minimum ≤ scaled_count fl pilot pilot_count target minimum maximum)
  unfolding scaled_count
  scaled_count_range pilot pilot_count target minimum maximum h k =
      ground (arith, scaled_ceil-size pilot_count target pilot)

  accepted_count :
      (pilot : Double) (pilot_count : ℕ) (target : Double) (minimum maximum quantum : ℕ)
      → IsAccepted pilot pilot_count target minimum maximum quantum
      → calculate_duration_scaled_count fl pilot pilot_count target minimum maximum quantum
        ≡ quantize_count
            (scaled_count fl pilot pilot_count target minimum maximum)
            minimum
            maximum
            quantum
  unfolding calculate_duration_scaled_count
  accepted_count pilot pilot_count target minimum maximum quantum ok = ground arith

  -- On accepted arguments whose maximum and quantum fit `size_t`, the scaled count is a multiple
  -- of the quantum within the inclusive bounds, whatever the measured durations are, or it is zero
  -- and no such multiple exists.
  pub calculate_duration_scaled_count-IsCount :
      (pilot : Double) (pilot_count : ℕ) (target : Double) (minimum maximum quantum : ℕ)
      → IsAccepted pilot pilot_count target minimum maximum quantum
      → maximum ≤ size_max
      → quantum ≤ size_max
      → IsCount minimum maximum quantum
          (calculate_duration_scaled_count fl pilot pilot_count target minimum maximum quantum)
  calculate_duration_scaled_count-IsCount pilot pilot_count target minimum maximum quantum ok hm
        hq =
      let (fits, above) =
        scaled_count_range pilot pilot_count target minimum maximum (omega arith) hm in
      rw (accepted_count pilot pilot_count target minimum maximum quantum ok) (
        quantize_count-IsCount (scaled_count fl pilot pilot_count target minimum maximum) minimum
          maximum quantum fits hq above)
