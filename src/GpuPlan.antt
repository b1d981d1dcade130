-- ===== src/GpuPlan.antt =====
-- GPU work planning: src/gpu_bandwidth/gpu_work_plan.cpp and .h. The text fields that the planner
-- copies for provenance (policy names, kernel revision, storage modes) and the plan identity that
-- it prints from a valid plan are left out; each reason string is a constructor of `GpuReason`.
-- The plan's copies of the request's and of the limits' numbers are those records themselves.
-- `GpuOperation` has no other values, so the `false` and 0 that follow the switches are not modelled.
pub mod Limits
pub mod Grid
pub mod Order
mod Tests
use Prim.Native.Nat.{bit_xor}
use mac_os_memory_benchmark.Common.{
  ℕ, zero, suc, ◌+◌, ◌*◌, ◌/◌, ◌%◌, min, max, List, [], ◌∷◌, map, Bool, true, false, not, ◌&&◌,
  ◌||◌, Option, none, some, ltb, leb, ◌==◌, if◌then◌else◌,
}
use mac_os_memory_benchmark.Numeric.{
  checked_multiply, calculate_minimum_pilot_count, Floating, calculate_duration_scaled_count,
}
use mac_os_memory_benchmark.CyclicOrder.{build_cyclic_order}
use mac_os_memory_benchmark.Seeds.{splitmix64}

pub data GpuOperation : Type 0 where
  read write copy : GpuOperation

pub data GpuReason : Type 0 where
  no_reason buffer_size_zero payload_per_pass_overflow payload_cap_below_one_pass : GpuReason
  pass_count_zero dispatch_cap_exceeded payload_cap_exceeded : GpuReason
  explicit_dispatch_cap_exceeded explicit_payload_cap_exceeded : GpuReason
  thread_execution_width_zero max_threads_per_threadgroup_zero : GpuReason
  thread_execution_width_exceeds_cap threadgroup_limit_zero : GpuReason
  grid_thread_count_overflow exact_payload_overflow : GpuReason

-- Constants::GPU_…
abbrev pub max_dispatches : ℕ
max_dispatches = 16384

abbrev pub max_exact_payload : ℕ
max_exact_payload = 64 * 1024 * (1024 * 1024)

abbrev pub min_pilot_bytes : ℕ
min_pilot_bytes = 8 * 1024 * 1024

abbrev pub vector_width : ℕ
vector_width = 16

abbrev pub threads_cap : ℕ
threads_cap = 256

pub record GpuPassLimits : Type 0 where
  pub valid : Bool
  pub reason_code : GpuReason
  pub payload_multiplier : ℕ
  pub bytes_per_pass : ℕ
  pub maximum_passes_by_dispatch : ℕ
  pub maximum_passes_by_payload : ℕ
  pub effective_maximum_passes : ℕ
  pub dispatch_cap_is_limiting : Bool
  pub payload_cap_is_limiting : Bool

pub record GpuWorkPlanRequest : Type 0 where
  pub operation : GpuOperation
  pub requested_buffer_bytes : ℕ
  pub passes : ℕ
  pub base_seed : ℕ
  pub thread_execution_width : ℕ
  pub max_total_threads_per_threadgroup : ℕ
  pub explicit_iterations : Bool
  pub maximum_threadgroups_per_grid : ℕ

pub record GpuWorkPlan : Type 0 where
  pub valid : Bool
  pub reason_code : GpuReason
  pub request : GpuWorkPlanRequest
  pub limits : GpuPassLimits
  pub operation_seed : ℕ
  pub passes : ℕ
  pub exact_payload_bytes : ℕ
  pub vector_count : ℕ
  pub tail_bytes : ℕ
  pub threads_per_threadgroup : ℕ
  pub required_threadgroups_per_grid : ℕ
  pub threadgroups_per_grid : ℕ
  pub grid_threads : ℕ
  pub dispatch_count : ℕ
  pub measured_command_buffer_count : ℕ
  pub measured_compute_encoder_count : ℕ

pub operation_payload_multiplier : GpuOperation → ℕ
operation_payload_multiplier copy = 2
operation_payload_multiplier _ = 1

pub exceeded_cap_reason : GpuWorkPlanRequest → GpuPassLimits → GpuReason
exceeded_cap_reason request limits =
    if ltb limits.maximum_passes_by_payload limits.maximum_passes_by_dispatch
      && ltb limits.maximum_passes_by_payload request.passes
    then (if request.explicit_iterations
        then explicit_payload_cap_exceeded
        else payload_cap_exceeded)
    else if ltb limits.maximum_passes_by_dispatch request.passes
    then (if request.explicit_iterations
        then explicit_dispatch_cap_exceeded
        else dispatch_cap_exceeded)
    else if request.explicit_iterations
    then explicit_payload_cap_exceeded
    else payload_cap_exceeded

pub gpu_operation_seed_domain : GpuOperation → ℕ
gpu_operation_seed_domain read = 5138701042720260420
gpu_operation_seed_domain write = 5138701008360789061
gpu_operation_seed_domain copy = 5138701042469261401

pub derive_gpu_operation_seed : ℕ → GpuOperation → ℕ
unfolding gpu_operation_seed_domain
derive_gpu_operation_seed base_seed operation =
    let domain = gpu_operation_seed_domain operation in
    if domain == 0 then 0 else splitmix64 (bit_xor base_seed domain)

-- `kBaseOrder` at an index.
pub base_order : ℕ → GpuOperation
base_order zero = read
base_order (suc zero) = write
base_order _ = copy

pub build_gpu_operation_order : ℕ → List GpuOperation
build_gpu_operation_order loop_index = map base_order (build_cyclic_order 3 loop_index)
