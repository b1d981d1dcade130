-- ===== src/GpuPlan/Limits.antt =====
-- The pass limits of a GPU operation: `calculate_gpu_pass_limits` of
-- src/gpu_bandwidth/gpu_work_plan.cpp, and the pass counts that it bounds.
pub mod Bound
use mac_os_memory_benchmark.Common.{
  ℕ, ◌/◌, min, Bool, true, false, Option, none, some, leb, ◌==◌, if◌then◌else◌,
}
use mac_os_memory_benchmark.Numeric.{
  checked_multiply, calculate_minimum_pilot_count, Floating, calculate_duration_scaled_count,
}
use mac_os_memory_benchmark.GpuPlan.{
  GpuOperation, GpuReason, no_reason, buffer_size_zero, payload_per_pass_overflow,
  payload_cap_below_one_pass, GpuPassLimits, operation_payload_multiplier, max_dispatches,
  max_exact_payload, min_pilot_bytes,
}

-- The limits before the first test.
pub initial_limits : GpuPassLimits
initial_limits = record {
  valid = false;
  reason_code = no_reason;
  payload_multiplier = 0;
  bytes_per_pass = 0;
  maximum_passes_by_dispatch = max_dispatches;
  maximum_passes_by_payload = 0;
  effective_maximum_passes = 0;
  dispatch_cap_is_limiting = false;
  payload_cap_is_limiting = false;
}

-- The part after the payload of one pass is known.
unfoldable pub finish_limits : ℕ → ℕ → GpuPassLimits
finish_limits multiplier bytes_per_pass =
    let by_payload = max_exact_payload / bytes_per_pass in
    let effective = min max_dispatches by_payload in
    record {
      valid = if effective == 0 then false else true;
      reason_code = if effective == 0 then payload_cap_below_one_pass else no_reason;
      payload_multiplier = multiplier;
      bytes_per_pass = bytes_per_pass;
      maximum_passes_by_dispatch = max_dispatches;
      maximum_passes_by_payload = by_payload;
      effective_maximum_passes = effective;
      dispatch_cap_is_limiting = leb max_dispatches by_payload;
      payload_cap_is_limiting = leb by_payload max_dispatches;
    }

unfoldable pub calculate_gpu_pass_limits : ℕ → GpuOperation → GpuPassLimits
unfolding initial_limits finish_limits
calculate_gpu_pass_limits buffer_size_bytes operation =
    let multiplier = operation_payload_multiplier operation in
    if buffer_size_bytes == 0
    then record initial_limits { reason_code = buffer_size_zero }
    else elim (checked_multiply buffer_size_bytes multiplier) [
      | none ↦ record initial_limits {
        payload_multiplier = multiplier;
        reason_code = payload_per_pass_overflow;
      }
      | some bytes_per_pass ↦ finish_limits multiplier bytes_per_pass
    ]

pub calculate_gpu_pilot_passes : GpuPassLimits → ℕ
calculate_gpu_pilot_passes limits =
    if limits.valid
    then calculate_minimum_pilot_count limits.bytes_per_pass min_pilot_bytes
        limits.effective_maximum_passes
    else 0

module _ (fl : Floating) where
  open fl use {Double}

  -- `target` is Constants::GPU_CALIBRATION_TARGET_SECONDS.
  pub calculate_gpu_calibrated_passes : Double → Double → ℕ → GpuPassLimits → ℕ
  calculate_gpu_calibrated_passes target attempt_duration attempt_passes limits =
      if limits.valid
      then calculate_duration_scaled_count fl attempt_duration attempt_passes target 1
          limits.effective_maximum_passes 1
      else 0
