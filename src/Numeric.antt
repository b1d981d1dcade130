-- ===== src/Numeric.antt =====
-- Overflow-safe size arithmetic and count calibration: src/utils/numeric_utils.cpp.
-- A function that returns `bool` and writes `out` on success returns an `Option`: `none` is
-- `false`, with `out` left unchanged.
pub mod Checked
pub mod Counts
mod Tests
use mac_os_memory_benchmark.Common.{
  ℕ, ◌≤◌, ◌+◌, ◌-◌, ◌/◌, ◌%◌, min, max, Option, none, some, ◌&&◌, not, Bool, ◌||◌, ltb, leb, ◌==◌,
  if◌then◌else◌, size_max, add_size, mul_size, true, false,
}

unfoldable pub checked_add : ℕ → ℕ → Option ℕ
checked_add lhs rhs = if ltb (size_max - rhs) lhs then none else some (add_size lhs rhs)

unfoldable pub checked_multiply : ℕ → ℕ → Option ℕ
checked_multiply lhs rhs =
    if not (lhs == 0) && ltb (size_max / lhs) rhs then none else some (mul_size lhs rhs)

pub checked_round_up : ℕ → ℕ → Option ℕ
checked_round_up value quantum =
    if quantum == 0
    then none
    else if value % quantum == 0
    then some value
    else checked_add value (quantum - value % quantum)

-- `checked_…(…) ? result : SIZE_MAX`
abbrev pub or_size_max : Option ℕ → ℕ
or_size_max none = size_max
or_size_max (some n) = n

pub saturating_add : ℕ → ℕ → ℕ
saturating_add lhs rhs = or_size_max (checked_add lhs rhs)

unfoldable pub saturating_multiply : ℕ → ℕ → ℕ
saturating_multiply lhs rhs = or_size_max (checked_multiply lhs rhs)

pub saturating_round_up : ℕ → ℕ → ℕ
saturating_round_up value quantum =
    if quantum == 0 then 0 else or_size_max (checked_round_up value quantum)

pub calculate_minimum_pilot_count : ℕ → ℕ → ℕ → ℕ
calculate_minimum_pilot_count work_per_count minimum_pilot_work maximum_count =
    if work_per_count == 0 || maximum_count == 0
    then 0
    else min maximum_count (
        max 1 (
          minimum_pilot_work / work_per_count
          + (if not (minimum_pilot_work % work_per_count == 0) then 1 else 0)))

-- The floating-point operations that the count calibration uses; their arithmetic is the
-- compiler's, so it is a parameter.
pub record Floating : Type 1 where
  pub Double : Type 0
  pub is_finite : Double → Bool
  pub is_positive : Double → Bool
  -- `static_cast<long double>(count) * target / pilot >= static_cast<long double>(maximum)`
  pub scaled_reaches : ℕ → Double → Double → ℕ → Bool
  -- `static_cast<size_t>(std::ceil(…))` of the same quotient
  pub scaled_ceil : ℕ → Double → Double → ℕ
  pub scaled_ceil-size : (n : ℕ) (target pilot : Double) → scaled_ceil n target pilot ≤ size_max

module _ (fl : Floating) where
  open fl use {Double, is_finite, is_positive, scaled_reaches, scaled_ceil}

  -- `std::max(count, minimum_count)`, of the count that the measured duration asks for.
  pub scaled_count : Double → ℕ → Double → ℕ → ℕ → ℕ
  scaled_count pilot_duration pilot_count target_duration minimum_count maximum_count =
      max
        (if scaled_reaches pilot_count target_duration pilot_duration maximum_count
          then maximum_count
          else scaled_ceil pilot_count target_duration pilot_duration)
        minimum_count

-- The last part of `calculate_duration_scaled_count`: round up to the quantum, or down from the
-- maximum.
pub quantize_count : ℕ → ℕ → ℕ → ℕ → ℕ
quantize_count count minimum_count maximum_count quantum =
    let maximum_quantized = maximum_count - maximum_count % quantum in
    let fallback = if leb minimum_count maximum_quantized then maximum_quantized else 0 in
    elim (checked_round_up count quantum) [
      | none ↦ fallback
      | some quantized_count ↦
          if ltb maximum_count quantized_count then fallback else quantized_count
    ]

module _ (fl : Floating) where
  open fl use {Double, is_finite, is_positive}

  pub calculate_duration_scaled_count : Double → ℕ → Double → ℕ → ℕ → ℕ → ℕ
  calculate_duration_scaled_count pilot pilot_count target minimum_count maximum_count quantum =
      if not (is_finite pilot)
        || not (is_positive pilot)
        || pilot_count == 0
        || not (is_finite target)
        || not (is_positive target)
        || minimum_count == 0
        || ltb maximum_count minimum_count
        || quantum == 0
      then 0
      else quantize_count (scaled_count fl pilot pilot_count target minimum_count maximum_count)
          minimum_count maximum_count quantum
