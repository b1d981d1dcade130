-- ===== src/TlbPolicy/Tests.antt =====
-- The theorems of the TLB policy at concrete inputs.
use mac_os_memory_benchmark.Common.{
  ℕ, ◌+◌, ◌*◌, ◌/◌, ◌%◌, ◌≤◌, ◌<◌, ◌≡◌, ◌↔◌, refl, true, arith, min, max, size_max, ltb, leb, ◌-◌,
}
use mac_os_memory_benchmark.Numeric.{Floating}
use mac_os_memory_benchmark.Config.{medium, bytes_per_mb}
use mac_os_memory_benchmark.TlbPolicy.{
  tlb_runtime_profile_for_density, calculate_tlb_pilot_accesses, calculate_tlb_calibrated_accesses,
  tlb_buffer_fits_memory_budget, pilot_access_floor, pilot_minimum_cycles,
}
use mac_os_memory_benchmark.TlbPolicy.Accesses.{
  IsCalibrated, calculate_tlb_pilot_accesses-IsWhole,
  calculate_tlb_calibrated_accesses-IsCalibrated,
}
use mac_os_memory_benchmark.TlbPolicy.Memory.{peak_bytes, tlb_buffer_fits_memory_budget_iff}

calculate_tlb_pilot_accesses-IsWhole_example :
    (calculate_tlb_pilot_accesses 1000 % 1000 ≡ 0)
    × (max pilot_access_floor (1000 * pilot_minimum_cycles) ≤ calculate_tlb_pilot_accesses 1000)
    × (calculate_tlb_pilot_accesses 1000
        < max pilot_access_floor (1000 * pilot_minimum_cycles) + 1000)
calculate_tlb_pilot_accesses-IsWhole_example =
    calculate_tlb_pilot_accesses-IsWhole 1000 (omega arith) (omega arith)

-- Durations in whole nanoseconds.
abbrev whole_durations : Floating
whole_durations = record {
  Double = ℕ;
  is_finite = λ d. true;
  is_positive = λ d. ltb 0 d;
  scaled_reaches = λ count target pilot maximum. leb (maximum * pilot) (count * target);
  scaled_ceil = λ count target pilot. min size_max ((count * target + (pilot - 1)) / pilot);
  scaled_ceil-size = λ n target pilot. omega arith;
}

abbrev desired_count : ℕ → ℕ → ℕ → ℕ
desired_count target duration accesses = min size_max (target * accesses / duration)

calculate_tlb_calibrated_accesses-IsCalibrated_example :
    IsCalibrated 1000 (tlb_runtime_profile_for_density medium) (
      calculate_tlb_calibrated_accesses whole_durations desired_count 1000 5000 40000
        (tlb_runtime_profile_for_density medium))
unfolding tlb_runtime_profile_for_density
calculate_tlb_calibrated_accesses-IsCalibrated_example =
    calculate_tlb_calibrated_accesses-IsCalibrated whole_durations desired_count 1000 5000 40000
      (tlb_runtime_profile_for_density medium) (omega arith, omega arith) (omega arith) (refl, refl)
      (omega arith, omega arith) (omega arith) (omega arith)

tlb_buffer_fits_memory_budget_iff_example :
    ((tlb_buffer_fits_memory_budget 256 16384 384).0 ≡ true) ↔ (
      (1 ≤ 256)
      × (1 ≤ 16384)
      × (256 * bytes_per_mb ≤ size_max)
      × (min size_max (peak_bytes (256 * bytes_per_mb) (256 * bytes_per_mb / 16384))
          ≤ min size_max (384 * bytes_per_mb)))
tlb_buffer_fits_memory_budget_iff_example = tlb_buffer_fits_memory_budget_iff 256 16384 384
