-- ===== src/GpuPlan/Grid.antt =====
-- GPU work plans: `build_gpu_work_plan` of src/gpu_bandwidth/gpu_work_plan.cpp.
pub mod Valid
use mac_os_memory_benchmark.Common.{
  ℕ, ◌+◌, ◌*◌, ◌/◌, ◌%◌, min, max, Bool, true, false, Option, none, some, ltb, ◌==◌, not,
  if◌then◌else◌,
}
use mac_os_memory_benchmark.Numeric.{checked_multiply}
use mac_os_memory_benchmark.GpuPlan.{
  GpuReason, no_reason, pass_count_zero, thread_execution_width_zero,
  max_threads_per_threadgroup_zero, thread_execution_width_exceeds_cap, threadgroup_limit_zero,
  grid_thread_count_overflow, exact_payload_overflow, GpuPassLimits, GpuWorkPlanRequest,
  GpuWorkPlan, exceeded_cap_reason, derive_gpu_operation_seed, threads_cap, vector_width,
}
use mac_os_memory_benchmark.GpuPlan.Limits.{calculate_gpu_pass_limits}

-- The fields that are set before the limits are known to be valid.
unfoldable pub initial_gpu_plan : GpuWorkPlanRequest → GpuPassLimits → GpuWorkPlan
initial_gpu_plan request limits = record {
  valid = false;
  reason_code = no_reason;
  request = request;
  limits = limits;
  operation_seed = 0;
  passes = 0;
  exact_payload_bytes = 0;
  vector_count = 0;
  tail_bytes = 0;
  threads_per_threadgroup = 0;
  required_threadgroups_per_grid = 0;
  threadgroups_per_grid = 0;
  grid_threads = 0;
  dispatch_count = 0;
  measured_command_buffer_count = 0;
  measured_compute_encoder_count = 0;
}

-- The largest multiple of the execution width within both caps.
unfoldable pub fitted_threads : GpuWorkPlanRequest → ℕ
fitted_threads request =
    min threads_cap request.max_total_threads_per_threadgroup
    / request.thread_execution_width
    * request.thread_execution_width

-- The groups that give each vector a thread.
unfoldable pub required_groups : ℕ → ℕ → ℕ
required_groups vectors threads =
    vectors / threads + (if not (vectors % threads == 0) then 1 else 0)

-- The grid of a request, from the vectors on.
unfoldable pub grid_plan : GpuWorkPlan → ℕ → GpuWorkPlan
unfolding required_groups
grid_plan plan threads =
    let vectors = plan.request.requested_buffer_bytes / vector_width in
    let required = required_groups vectors threads in
    record plan {
      threads_per_threadgroup = threads;
      vector_count = vectors;
      tail_bytes = plan.request.requested_buffer_bytes % vector_width;
      required_threadgroups_per_grid = required;
      threadgroups_per_grid = max 1 (min required plan.request.maximum_threadgroups_per_grid);
    }

-- The two products, and the valid plan.
unfoldable pub finish_gpu_plan : GpuWorkPlan → GpuWorkPlan
finish_gpu_plan plan =
    elim (checked_multiply plan.threadgroups_per_grid plan.threads_per_threadgroup) [
      | none ↦ record plan { reason_code = grid_thread_count_overflow }
      | some grid_threads ↦ elim (checked_multiply plan.limits.bytes_per_pass plan.request.passes) [
        | none ↦ record plan { grid_threads = grid_threads; reason_code = exact_payload_overflow }
        | some exact_payload ↦ record plan {
          grid_threads = grid_threads;
          exact_payload_bytes = exact_payload;
          passes = plan.request.passes;
          dispatch_count = plan.request.passes;
          measured_command_buffer_count = 1;
          measured_compute_encoder_count = 1;
          valid = true;
        }
      ]
    ]

-- The tests on the request, in their order; `no_reason` where it passes them.
unfoldable pub refusal : GpuWorkPlanRequest → GpuPassLimits → GpuReason
unfolding fitted_threads
refusal request limits =
    if request.passes == 0
    then pass_count_zero
    else if ltb limits.effective_maximum_passes request.passes
    then exceeded_cap_reason request limits
    else if request.thread_execution_width == 0
    then thread_execution_width_zero
    else if request.max_total_threads_per_threadgroup == 0
    then max_threads_per_threadgroup_zero
    else if request.maximum_threadgroups_per_grid == 0
    then threadgroup_limit_zero
    else if fitted_threads request == 0
    then thread_execution_width_exceeds_cap
    else no_reason

-- The plan after its seed, from the outcome of the tests.
unfoldable pub tested_plan : GpuReason → GpuWorkPlan → GpuWorkPlan
unfolding fitted_threads grid_plan finish_gpu_plan
tested_plan no_reason seeded = finish_gpu_plan (grid_plan seeded (fitted_threads seeded.request))
tested_plan refused seeded = record seeded { reason_code = refused }

unfoldable pub build_gpu_work_plan : GpuWorkPlanRequest → GpuWorkPlan
unfolding initial_gpu_plan refusal tested_plan
build_gpu_work_plan request =
    let limits = calculate_gpu_pass_limits request.requested_buffer_bytes request.operation in
    let plan = initial_gpu_plan request limits in
    if not limits.valid
    then record plan { reason_code = limits.reason_code }
    else tested_plan (refusal request limits) (record plan {
      operation_seed = derive_gpu_operation_seed request.base_seed request.operation;
    })
