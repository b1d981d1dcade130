-- ===== src/TlbPolicy.antt =====
-- The runtime policy of the TLB analysis: src/benchmark/tlb_runtime_policy.cpp and .h. The bootstrap
-- convergence test and the estimated durations are floating-point statistics and are left out.
pub mod Accesses
pub mod Memory
mod Tests
use mac_os_memory_benchmark.Common.{
  ℕ, ◌-◌, ◌*◌, ◌/◌, ◌%◌, min, max, Bool, true, false, not, ◌||◌, ltb, leb, ◌==◌, if◌then◌else◌,
  size_max, add_size, mul_size,
}
use mac_os_memory_benchmark.Config.{TlbSweepDensity, low, medium, high, bytes_per_mb}
use mac_os_memory_benchmark.Numeric.{
  saturating_add, saturating_multiply, saturating_round_up, Floating,
}

-- The name and the width target of the confidence interval are left out.
pub record TlbRuntimeProfile : Type 0 where
  pub min_rounds : ℕ
  pub max_rounds : ℕ
  pub target_measurement_ns : ℕ
  pub minimum_chain_cycles : ℕ
  pub maximum_accesses : ℕ
  pub convergence_bootstrap_resamples : ℕ

pub tlb_runtime_profile_for_density : TlbSweepDensity → TlbRuntimeProfile
tlb_runtime_profile_for_density low = record {
  min_rounds = 7;
  max_rounds = 12;
  target_measurement_ns = 5 * 1000 * 1000;
  minimum_chain_cycles = 8;
  maximum_accesses = 1 * 1000 * 1000;
  convergence_bootstrap_resamples = 400;
}
tlb_runtime_profile_for_density medium = record {
  min_rounds = 10;
  max_rounds = 20;
  target_measurement_ns = 10 * 1000 * 1000;
  minimum_chain_cycles = 16;
  maximum_accesses = 2 * 1000 * 1000;
  convergence_bootstrap_resamples = 600;
}
tlb_runtime_profile_for_density high = record {
  min_rounds = 15;
  max_rounds = 30;
  target_measurement_ns = 20 * 1000 * 1000;
  minimum_chain_cycles = 32;
  maximum_accesses = 5 * 1000 * 1000;
  convergence_bootstrap_resamples = 1000;
}

abbrev pub pilot_access_floor : ℕ
pilot_access_floor = 4096

abbrev pub pilot_minimum_cycles : ℕ
pilot_minimum_cycles = 2

pub calculate_tlb_pilot_accesses : ℕ → ℕ
calculate_tlb_pilot_accesses node_count =
    if node_count == 0 || ltb (size_max / pilot_minimum_cycles) node_count
    then 0
    else saturating_round_up
        (max pilot_access_floor (saturating_multiply node_count pilot_minimum_cycles)) node_count

-- `std::clamp`
pub clamp : ℕ → ℕ → ℕ → ℕ
clamp value lowest highest =
    if ltb value lowest then lowest else if ltb highest value then highest else value

-- The part after the desired count is known: clamped, rounded up to whole cycles, and no more than
-- the whole cycles within the maximum.
pub whole_cycle_accesses : ℕ → ℕ → TlbRuntimeProfile → ℕ
unfolding clamp
whole_cycle_accesses node_count desired profile =
    let minimum_accesses = saturating_multiply node_count profile.minimum_chain_cycles in
    let effective_maximum = max profile.maximum_accesses minimum_accesses in
    min (saturating_round_up (clamp desired minimum_accesses effective_maximum) node_count)
      (effective_maximum - effective_maximum % node_count)

-- `desired` is `static_cast<size_t>(std::ceil(target / (pilot_duration / pilot_accesses)))`, or the
-- largest `size_t` where the quotient reaches it.
module _ (fl : Floating) (desired : ℕ → Floating.Double fl → ℕ → ℕ) where
  open fl use {Double, is_finite, is_positive}

  pub calculate_tlb_calibrated_accesses : ℕ → ℕ → Double → TlbRuntimeProfile → ℕ
  calculate_tlb_calibrated_accesses node_count pilot_accesses pilot_duration_ns profile =
      if node_count == 0
        || pilot_accesses == 0
        || not (is_finite pilot_duration_ns)
        || not (is_positive pilot_duration_ns)
        || profile.target_measurement_ns == 0
        || profile.minimum_chain_cycles == 0
        || ltb (size_max / profile.minimum_chain_cycles) node_count
      then 0
      else whole_cycle_accesses node_count
          (desired profile.target_measurement_ns pilot_duration_ns pilot_accesses) profile

abbrev pub scratch_fixed_overhead : ℕ
scratch_fixed_overhead = bytes_per_mb

abbrev pub scratch_bytes_per_node : ℕ
scratch_bytes_per_node = 256

pub estimate_tlb_scratch_bytes : ℕ → ℕ
estimate_tlb_scratch_bytes maximum_node_count =
    let variable_bytes = saturating_multiply maximum_node_count scratch_bytes_per_node in
    if ltb (size_max - scratch_fixed_overhead) variable_bytes
    then size_max
    else add_size variable_bytes scratch_fixed_overhead

pub estimate_tlb_peak_memory_bytes : ℕ → ℕ → ℕ
unfolding estimate_tlb_scratch_bytes
estimate_tlb_peak_memory_bytes buffer_size_bytes maximum_node_count =
    let scratch_bytes = estimate_tlb_scratch_bytes maximum_node_count in
    if ltb (size_max - scratch_bytes) buffer_size_bytes
    then size_max
    else add_size buffer_size_bytes scratch_bytes

-- The budget in bytes, or the largest `size_t`.
pub budget_bytes : ℕ → ℕ
budget_bytes memory_budget_mb =
    if ltb (size_max / bytes_per_mb) memory_budget_mb
    then size_max
    else mul_size memory_budget_mb bytes_per_mb

-- The result, and the estimate that the function writes.
pub tlb_buffer_fits_memory_budget : ℕ → ℕ → ℕ → Bool × ℕ
unfolding budget_bytes estimate_tlb_peak_memory_bytes
tlb_buffer_fits_memory_budget candidate_buffer_mb page_size_bytes memory_budget_mb =
    if candidate_buffer_mb == 0
      || page_size_bytes == 0
      || ltb (size_max / bytes_per_mb) candidate_buffer_mb
    then (false, 0)
    else (let candidate_bytes = mul_size candidate_buffer_mb bytes_per_mb in
        let peak =
          estimate_tlb_peak_memory_bytes candidate_bytes (candidate_bytes / page_size_bytes) in
        (leb peak (budget_bytes memory_budget_mb), peak))

-- The estimated durations are left out.
pub record TlbWorkEstimate : Type 0 where
  pub point_count : ℕ
  pub min_rounds : ℕ
  pub max_rounds : ℕ
  pub maximum_pilot_accesses_per_measurement : ℕ
  pub maximum_accesses_per_measurement : ℕ
  pub maximum_pointer_accesses : ℕ
  pub estimated_peak_memory_bytes : ℕ

pub estimate_tlb_work : ℕ → ℕ → ℕ → TlbRuntimeProfile → TlbWorkEstimate
estimate_tlb_work point_count estimated_peak_memory_bytes maximum_node_count profile =
    let pilot = calculate_tlb_pilot_accesses maximum_node_count in
    let main =
      max profile.maximum_accesses
        (saturating_multiply maximum_node_count profile.minimum_chain_cycles) in
    record {
      point_count = point_count;
      min_rounds = profile.min_rounds;
      max_rounds = profile.max_rounds;
      maximum_pilot_accesses_per_measurement = pilot;
      maximum_accesses_per_measurement = main;
      maximum_pointer_accesses =
          saturating_multiply
            (saturating_multiply (saturating_multiply point_count profile.max_rounds) 2)
            (saturating_add pilot main);
      estimated_peak_memory_bytes = estimated_peak_memory_bytes;
    }
