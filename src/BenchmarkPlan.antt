-- ===== src/BenchmarkPlan.antt =====
-- Work planning of the standard benchmark: src/benchmark/benchmark_work_plan.cpp and .h.
-- A plan is passed by value: a function that mutates `plan` returns the new one, and a mutator
-- that returns `bool` returns an `Option`, `none` being `false` with the plan unchanged. Each
-- status text of output/console/messages is a constructor of `Reason`.
pub mod Bandwidth
pub mod Accepted
pub mod Latency
pub mod Phases
mod Tests
use mac_os_memory_benchmark.Common.{
  ℕ, zero, suc, ◌+◌, ◌-◌, ◌*◌, ◌/◌, ◌%◌, min, max, List, [], ◌∷◌, Bool, true, false, not, ◌&&◌,
  ◌||◌, Option, none, some, ltb, leb, ◌==◌, if◌then◌else◌, int_max, ◌>>=◌,
}
use mac_os_memory_benchmark.Common.Int.{ℤ, pos_part, is_positive}
use mac_os_memory_benchmark.Numeric.{
  checked_multiply, checked_round_up, calculate_minimum_pilot_count,
}
use mac_os_memory_benchmark.Partition.{cache_line, build_boundaries}

pub data MeasurementStatus : Type 0 where
  not_run measured skipped interrupted invalid failed : MeasurementStatus

pub data Target : Type 0 where
  main_memory l1 l2 custom : Target

pub data Operation : Type 0 where
  read write copy latency : Operation

pub data Reason : Type 0 where
  no_reason invalid_bandwidth_plan no_worker_partition copy_payload_overflow : Reason
  total_payload_overflow invalid_latency_plan latency_chain_too_short : Reason
  minimum_cycles_exceed_limit rounded_accesses_exceed_limit : Reason

pub record WorkerRange : Type 0 where
  pub offset_bytes : ℕ
  pub span_bytes : ℕ

pub record WorkPlan : Type 0 where
  pub status : MeasurementStatus
  pub status_reason : Reason
  pub target : Target
  pub operation : Operation
  pub buffer_size_bytes : ℕ
  pub requested_threads : ℤ
  pub effective_threads : ℕ
  pub passes : ℕ
  pub payload_bytes_per_pass : ℕ
  pub total_payload_bytes : ℕ
  pub boundaries : List ℕ
  pub workers : List WorkerRange

pub record LatencyWorkPlan : Type 0 where
  pub status : MeasurementStatus
  pub status_reason : Reason
  pub target : Target
  pub buffer_size_bytes : ℕ
  pub stride_bytes : ℕ
  pub chain_node_count : ℕ
  pub access_count : ℕ
  pub complete_chain_cycles : ℕ
  pub seed : ℕ

abbrev pub copy_operation_multiplier : ℕ
copy_operation_multiplier = 2

-- The position in the enumeration.
pub target_index : Target → ℕ
target_index main_memory = 0
target_index l1 = 1
target_index l2 = 2
target_index custom = 3

pub operation_index : Operation → ℕ
operation_index read = 0
operation_index write = 1
operation_index copy = 2
operation_index latency = 3

pub benchmark_bandwidth_state_index : Target → Operation → ℕ
unfolding target_index operation_index
benchmark_bandwidth_state_index t o = target_index t * 3 + min (operation_index o) 2

pub benchmark_latency_state_index : Target → ℕ
unfolding target_index
benchmark_latency_state_index t = target_index t

-- The loop of `populate_workers` over the boundaries that follow `start`.
pub worker_ranges : ℕ → List ℕ → Option (List WorkerRange)
worker_ranges start [] = some []
worker_ranges start (end ∷ rest) =
    if leb end start
    then none
    else (worker_ranges end rest >>= λ ranges.
        some (record { offset_bytes = start; span_bytes = end - start } ∷ ranges))

pub populate_workers : WorkPlan → ℕ → Option WorkPlan
unfolding worker_ranges
populate_workers plan worker_count =
    let ends = build_boundaries plan.buffer_size_bytes worker_count in
    worker_ranges 0 ends >>= λ ranges.
    some (record plan { boundaries = 0 ∷ ends; workers = ranges; effective_threads = worker_count })

-- The loop over candidates, from the given one down to 1.
pub try_candidates : WorkPlan → ℕ → Option WorkPlan
try_candidates plan zero = none
try_candidates plan (suc candidate) =
    let fewer = try_candidates plan candidate in
    elim (populate_workers plan (suc candidate)) [ some populated ↦ some populated | none ↦ fewer ]

pub set_benchmark_work_plan_passes : WorkPlan → ℕ → Option WorkPlan
set_benchmark_work_plan_passes plan passes =
    if passes == 0 || ltb int_max passes || plan.payload_bytes_per_pass == 0
    then none
    else (checked_multiply plan.payload_bytes_per_pass passes >>= λ total.
        some (record plan { passes = passes; total_payload_bytes = total }))

-- `payload_bytes_per_pass` of one pass; a copy moves every byte twice.
pub pass_payload : Operation → ℕ → Option ℕ
pass_payload copy buffer_size = checked_multiply buffer_size copy_operation_multiplier
pass_payload _ buffer_size = some buffer_size

-- The part after the partition: the payload of one pass, then the totals.
pub finish_plan : WorkPlan → ℕ → WorkPlan
finish_plan plan passes = elim (pass_payload plan.operation plan.buffer_size_bytes) [
  | none ↦ record plan {
    payload_bytes_per_pass = plan.buffer_size_bytes;
    status_reason = copy_payload_overflow;
  }
  | some bytes ↦
      elim (set_benchmark_work_plan_passes (record plan { payload_bytes_per_pass = bytes })
        passes) [
          | none ↦ record plan {
            payload_bytes_per_pass = bytes;
            status_reason = total_payload_overflow;
          }
          | some counted ↦ record counted { status = measured; status_reason = no_reason }
        ]
]

-- The fields that the planner sets before its first test; the others have their defaults.
pub initial_plan : ℕ → ℤ → Target → Operation → WorkPlan
initial_plan buffer_size_bytes requested_threads target operation = record {
  status = invalid;
  status_reason = no_reason;
  target = target;
  operation = operation;
  buffer_size_bytes = buffer_size_bytes;
  requested_threads = requested_threads;
  effective_threads = 0;
  passes = 0;
  payload_bytes_per_pass = 0;
  total_payload_bytes = 0;
  boundaries = [];
  workers = [];
}

pub is_latency : Operation → Bool
is_latency latency = true
is_latency _ = false

pub maximum_workers_by_span : ℕ → ℕ
maximum_workers_by_span buffer_size_bytes = max 1 (buffer_size_bytes / cache_line)

pub build_benchmark_bandwidth_work_plan : ℕ → ℤ → ℕ → Target → Operation → WorkPlan
unfolding initial_plan is_latency maximum_workers_by_span
build_benchmark_bandwidth_work_plan buffer_size_bytes requested_threads passes target operation =
    let plan = initial_plan buffer_size_bytes requested_threads target operation in
    if buffer_size_bytes == 0
      || not (is_positive requested_threads)
      || passes == 0
      || is_latency operation
    then record plan { status_reason = invalid_bandwidth_plan }
    else elim (try_candidates plan
        (min (pos_part requested_threads) (maximum_workers_by_span buffer_size_bytes))) [
          | none ↦ record plan { status_reason = no_worker_partition }
          | some populated ↦ finish_plan populated passes
        ]

-- The last part of the latency planner, once the chain has two nodes or more.
pub finish_latency_plan : LatencyWorkPlan → ℕ → ℕ → ℕ → LatencyWorkPlan
finish_latency_plan plan desired_access_count minimum_complete_cycles maximum_access_count =
    elim (checked_multiply plan.chain_node_count minimum_complete_cycles) [
      | none ↦ record plan { status_reason = minimum_cycles_exceed_limit }
      | some minimum_accesses ↦
          if ltb maximum_access_count minimum_accesses
          then record plan { status_reason = minimum_cycles_exceed_limit }
          else elim (checked_round_up (max desired_access_count minimum_accesses)
              plan.chain_node_count) [
                | none ↦ record plan { status_reason = rounded_accesses_exceed_limit }
                | some rounded ↦
                    if rounded == 0 || ltb maximum_access_count rounded
                    then record plan { status_reason = rounded_accesses_exceed_limit }
                    else record plan {
                      access_count = rounded;
                      complete_chain_cycles = rounded / plan.chain_node_count;
                      status = measured;
                    }
              ]
    ]

pub initial_latency_plan : ℕ → ℕ → Target → ℕ → LatencyWorkPlan
initial_latency_plan buffer_size_bytes stride_bytes target seed = record {
  status = invalid;
  status_reason = no_reason;
  target = target;
  buffer_size_bytes = buffer_size_bytes;
  stride_bytes = stride_bytes;
  chain_node_count = 0;
  access_count = 0;
  complete_chain_cycles = 0;
  seed = seed;
}

pub build_benchmark_latency_work_plan : ℕ → ℕ → ℕ → ℕ → ℕ → Target → ℕ → LatencyWorkPlan
unfolding initial_latency_plan
build_benchmark_latency_work_plan buffer_size_bytes stride_bytes desired_access_count
      minimum_complete_cycles maximum_access_count target seed =
    let plan = initial_latency_plan buffer_size_bytes stride_bytes target seed in
    if buffer_size_bytes == 0
      || stride_bytes == 0
      || minimum_complete_cycles == 0
      || maximum_access_count == 0
    then record plan { status_reason = invalid_latency_plan }
    else (let chained = record plan { chain_node_count = buffer_size_bytes / stride_bytes } in
        if ltb (buffer_size_bytes / stride_bytes) 2
        then record chained { status = skipped; status_reason = latency_chain_too_short }
        else finish_latency_plan chained desired_access_count minimum_complete_cycles
            maximum_access_count)

pub calculate_benchmark_pilot_passes : ℕ → ℕ → ℕ → ℕ
calculate_benchmark_pilot_passes payload_bytes_per_pass minimum_pilot_payload maximum_passes =
    calculate_minimum_pilot_count payload_bytes_per_pass minimum_pilot_payload maximum_passes

pub record PhaseExecutionResult : Type 0 where
  pub completed_phases : ℕ
  pub interrupted : Bool
  pub realized_phase_indexes : List ℕ

-- The loop of `execute_benchmark_phase_schedule`. `stop n` is the answer to the n-th stop query,
-- `false` throughout when no callback is given; there are two queries to a phase, one before
-- `execute_phase` and one after it. `execute_phase` is called for the realized phases, in order.
pub execute_phases : (ℕ → Bool) → ℕ → ℕ → List ℕ → PhaseExecutionResult
execute_phases stop query completed [] = record {
  completed_phases = completed;
  interrupted = false;
  realized_phase_indexes = [];
}
execute_phases stop query completed (phase ∷ rest) =
    let later = execute_phases stop (query + 2) (completed + 1) rest in
    if stop query
    then record { completed_phases = completed; interrupted = true; realized_phase_indexes = [] }
    else if stop (query + 1)
    then record {
      completed_phases = completed;
      interrupted = true;
      realized_phase_indexes = phase ∷ [];
    }
    else record later { realized_phase_indexes = phase ∷ later.realized_phase_indexes }

pub execute_benchmark_phase_schedule : (ℕ → Bool) → List ℕ → PhaseExecutionResult
unfolding execute_phases
execute_benchmark_phase_schedule stop phase_order = execute_phases stop 0 0 phase_order
