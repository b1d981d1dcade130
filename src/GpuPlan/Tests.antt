-- ===== src/GpuPlan/Tests.antt =====
-- The theorems on the GPU plans at concrete inputs.
use mac_os_memory_benchmark.Common.{◌≡◌, refl, true, false}
use mac_os_memory_benchmark.Numeric.{checked_multiply}
use mac_os_memory_benchmark.GpuPlan.{copy, GpuWorkPlanRequest, operation_payload_multiplier}
use mac_os_memory_benchmark.GpuPlan.Limits.{calculate_gpu_pass_limits, finish_limits}
use mac_os_memory_benchmark.GpuPlan.Limits.Bound.{IsLimits, calculate_gpu_pass_limits-IsLimits}
use mac_os_memory_benchmark.GpuPlan.Grid.{
  build_gpu_work_plan, initial_gpu_plan, fitted_threads, required_groups, grid_plan,
  finish_gpu_plan, refusal, tested_plan,
}
use mac_os_memory_benchmark.GpuPlan.Grid.Valid.{IsGpuPlan, build_gpu_work_plan-IsGpuPlan}

-- 20 copy passes over 100008 bytes, on groups of up to 100 threads of width 32.
abbrev copy_request : GpuWorkPlanRequest
copy_request = record {
  operation = copy;
  requested_buffer_bytes = 100008;
  passes = 20;
  base_seed = 7;
  thread_execution_width = 32;
  max_total_threads_per_threadgroup = 100;
  explicit_iterations = false;
  maximum_threadgroups_per_grid = 8192;
}

copy_valid : (build_gpu_work_plan copy_request).valid ≡ true
unfolding build_gpu_work_plan calculate_gpu_pass_limits finish_limits operation_payload_multiplier
    checked_multiply initial_gpu_plan fitted_threads required_groups grid_plan finish_gpu_plan
    refusal tested_plan
copy_valid = refl

build_gpu_work_plan-IsGpuPlan_example : IsGpuPlan copy_request (build_gpu_work_plan copy_request)
build_gpu_work_plan-IsGpuPlan_example = build_gpu_work_plan-IsGpuPlan copy_request copy_valid

calculate_gpu_pass_limits-IsLimits_example :
    IsLimits 100008 copy (calculate_gpu_pass_limits 100008 copy)
calculate_gpu_pass_limits-IsLimits_example = calculate_gpu_pass_limits-IsLimits 100008 copy
