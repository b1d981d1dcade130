-- ===== src/Durations/Tests.antt =====
-- The theorems on durations at concrete inputs.
use mac_os_memory_benchmark.Common.{ℕ, true, ltb, leb}
use mac_os_memory_benchmark.GpuPlan.{copy, GpuPassLimits}
use mac_os_memory_benchmark.GpuPlan.Limits.{calculate_gpu_pass_limits}
use mac_os_memory_benchmark.Durations.{Durations}

-- Durations in whole milliseconds.
abbrev milliseconds : Durations
milliseconds = record {
  Double = ℕ;
  zero_seconds = 0;
  is_finite = λ d. true;
  less = ltb;
  less_or_equal = leb;
}

abbrev copy_limits : GpuPassLimits
copy_limits = calculate_gpu_pass_limits 100008 copy
