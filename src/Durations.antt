-- ===== src/Durations.antt =====
-- The quality classes of a measured duration: `classify_benchmark_duration_quality` of
-- src/benchmark/benchmark_work_plan.cpp and `classify_gpu_duration_quality` of
-- src/gpu_bandwidth/gpu_work_plan.cpp, and the seed of a benchmark. Each class string is a
-- constructor; the comparisons of `double` are a parameter.
pub mod Classes
mod Tests
use Prim.Native.Nat.{bit_xor}
use mac_os_memory_benchmark.Common.{
  ℕ, ◌/◌, ◌^◌, Bool, not, ◌&&◌, ◌||◌, ltb, ◌==◌, if◌then◌else◌, add_size, mul_size,
}
use mac_os_memory_benchmark.GpuPlan.{GpuPassLimits}

pub data DurationQuality : Type 0 where
  within_target_window below_target_window above_target_window : DurationQuality
  minimum_complete_cycles_exceed_window single_pass_exceeds_window : DurationQuality
  invalid_work_plan invalid_duration : DurationQuality
  dispatch_cap_below_target payload_cap_below_target : DurationQuality

-- `less a b` is `a < b`; a comparison with a NaN is false.
pub record Durations : Type 1 where
  pub Double : Type 0
  pub zero_seconds : Double
  pub is_finite : Double → Bool
  pub less : Double → Double → Bool
  pub less_or_equal : Double → Double → Bool

module _ (d : Durations) where
  open d use {Double, zero_seconds, is_finite, less, less_or_equal}

  pub benchmark_elapsed_is_valid : Double → Bool
  benchmark_elapsed_is_valid elapsed = less zero_seconds elapsed && is_finite elapsed

  pub benchmark_duration_in_window : Double → Double → Double → Bool
  benchmark_duration_in_window elapsed minimum maximum =
      less_or_equal minimum elapsed && less_or_equal elapsed maximum

  pub classify_benchmark_duration_quality : Double → ℕ → Double → Double → Bool → DurationQuality
  unfolding benchmark_duration_in_window
  classify_benchmark_duration_quality elapsed count minimum maximum minimum_work_limited =
      if benchmark_duration_in_window elapsed minimum maximum
      then within_target_window
      else if minimum_work_limited && less maximum elapsed
      then minimum_complete_cycles_exceed_window
      else if count == 1 && less maximum elapsed
      then single_pass_exceeds_window
      else if less elapsed minimum
      then below_target_window
      else above_target_window

  -- `minimum` and `maximum` are Constants::GPU_CALIBRATION_MIN_SECONDS and _MAX_SECONDS.
  pub gpu_duration_in_target_window : Double → Double → Double → Bool
  gpu_duration_in_target_window minimum maximum elapsed =
      is_finite elapsed && less_or_equal minimum elapsed && less_or_equal elapsed maximum

  pub classify_gpu_duration_quality : Double → Double → Double → ℕ → GpuPassLimits → DurationQuality
  unfolding gpu_duration_in_target_window
  classify_gpu_duration_quality minimum maximum elapsed passes limits =
      if not limits.valid || passes == 0 || ltb limits.effective_maximum_passes passes
      then invalid_work_plan
      else if not (is_finite elapsed) || less_or_equal elapsed zero_seconds
      then invalid_duration
      else if gpu_duration_in_target_window minimum maximum elapsed
      then within_target_window
      else if less elapsed minimum
      then (if passes == limits.effective_maximum_passes
          then (if limits.dispatch_cap_is_limiting
              then dispatch_cap_below_target
              else payload_cap_below_target)
          else below_target_window)
      else if passes == 1
      then single_pass_exceeds_window
      else above_target_window

abbrev pub fallback_seed : ℕ
fallback_seed = 11400714819323198485

pub derive_benchmark_seed : ℕ → ℕ → ℕ
derive_benchmark_seed base_seed domain =
    let value = bit_xor base_seed (add_size domain fallback_seed) in
    let value1 = mul_size (bit_xor value (value / 2 ^ 30)) 13787848793156543929 in
    let value2 = mul_size (bit_xor value1 (value1 / 2 ^ 27)) 10723151780598845931 in
    let value3 = bit_xor value2 (value2 / 2 ^ 31) in
    if not (value3 == 0) then value3 else fallback_seed
