-- ===== src/Durations/Classes.antt =====
-- When a duration is classed as within the window, and that a benchmark seed is never 0.
use mac_os_memory_benchmark.Common.{ℕ, ◌≤◌, ◌≡◌, ◌↔◌, arith, true, false}
use mac_os_memory_benchmark.GpuPlan.{GpuPassLimits}
use mac_os_memory_benchmark.Durations.{
  within_target_window, Durations, gpu_duration_in_target_window, classify_gpu_duration_quality,
  derive_benchmark_seed,
}

module _ (d : Durations) where
  open d use {Double, zero_seconds, is_finite, less, less_or_equal}

  -- A GPU attempt is within the target window just when its limits are valid, its pass count is
  -- from 1 to the effective maximum, and its duration is finite, not at most 0, and between the
  -- bounds of the window.
  pub classify_gpu_duration_quality-within :
      (minimum maximum elapsed : Double) (passes : ℕ) (limits : GpuPassLimits)
      → (classify_gpu_duration_quality d minimum maximum elapsed passes limits
          ≡ within_target_window)
        ↔ ((limits.valid ≡ true)
            × (1 ≤ passes)
            × (passes ≤ limits.effective_maximum_passes)
            × (is_finite elapsed ≡ true)
            × (less_or_equal elapsed zero_seconds ≡ false)
            × (less_or_equal minimum elapsed ≡ true)
            × (less_or_equal elapsed maximum ≡ true))
  unfolding classify_gpu_duration_quality gpu_duration_in_target_window
  classify_gpu_duration_quality-within minimum maximum elapsed passes limits = ground arith

-- A derived benchmark seed is never 0.
pub derive_benchmark_seed-positive :
    (base_seed domain : ℕ) → 1 ≤ derive_benchmark_seed base_seed domain
unfolding derive_benchmark_seed
derive_benchmark_seed-positive base_seed domain = ground arith
