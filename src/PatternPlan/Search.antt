-- ===== src/PatternPlan/Search.antt =====
-- The strided planner: `build_strided_pattern_work_plan` of
-- src/pattern_benchmark/pattern_work_plan.cpp, with its binary search for the pass count.
pub mod Least
pub mod Measured
use mac_os_memory_benchmark.Common.{
  ℕ, zero, suc, ◌+◌, ◌-◌, ◌/◌, min, [], Bool, true, false, not, ◌||◌, Option, none, some, ltb, leb,
  ◌==◌, if◌then◌else◌, int_max,
}
use mac_os_memory_benchmark.Common.Int.{ℤ, pos_part, is_positive}
use mac_os_memory_benchmark.Numeric.{checked_add}
use mac_os_memory_benchmark.PatternPlan.{
  PatternStatus, PatternReason, PatternWorkPlan, Attempt, retry, aborted, done, try_candidates,
}
use mac_os_memory_benchmark.PatternPlan.Metrics.{set_strided_pattern_passes}

-- How the search loop ends: a pass count, a count whose totals do not fit, or out of fuel.
pub data Searched : Type 0 where
  found : ℕ → Searched
  total_failed out_of_fuel : Searched

-- `while (lower < upper)`, one halving to a unit of fuel.
unfoldable pub search_passes : ℕ → PatternWorkPlan → ℕ → ℕ → ℕ → Searched
search_passes zero plan floor lower upper = if ltb lower upper then out_of_fuel else found lower
search_passes (suc fuel) plan floor lower upper = elim (ltb lower upper) [
  | false ↦ found lower
  | true ↦ elim (set_strided_pattern_passes plan (lower + (upper - lower) / 2)) [
    | none ↦ total_failed
    | some candidate ↦ elim (leb floor candidate.total_payload_bytes) [
      | true ↦ search_passes fuel plan floor lower (lower + (upper - lower) / 2)
      | false ↦ search_passes fuel plan floor (lower + (upper - lower) / 2 + 1) upper
    ]
  ]
]

-- The range of counts is below 2 ^ 31, so 31 halvings empty it.
abbrev pub search_fuel : ℕ
search_fuel = 31

-- The pass count: the base, or the one that the search finds for a payload floor.
pub data Selection : Type 0 where
  selected : ℕ → Selection
  failed : PatternReason → Selection

unfoldable pub searched_selection : Searched → Selection
searched_selection (found passes) = selected passes
searched_selection total_failed = failed PatternReason.total_overflow
searched_selection out_of_fuel = failed PatternReason.total_overflow

unfoldable pub select_passes : PatternWorkPlan → ℕ → ℕ → Selection
unfolding search_passes searched_selection
select_passes plan base_passes minimum_total_payload_bytes =
    if minimum_total_payload_bytes == 0
    then selected base_passes
    else elim (set_strided_pattern_passes plan int_max) [
      | none ↦ failed PatternReason.pass_limit
      | some maximum_plan ↦
          if ltb maximum_plan.total_payload_bytes minimum_total_payload_bytes
          then failed PatternReason.pass_limit
          else searched_selection
              (search_passes search_fuel plan minimum_total_payload_bytes base_passes int_max)
    ]

-- An invalid plan has its workers cleared.
pub invalid_plan : PatternWorkPlan → PatternReason → PatternWorkPlan
invalid_plan plan reason = record plan {
  status = PatternStatus.invalid;
  status_reason = reason;
  workers = [];
}

-- The part after the partition.
unfoldable pub finish_strided_plan : PatternWorkPlan → ℕ → ℕ → PatternWorkPlan
unfolding select_passes invalid_plan
finish_strided_plan plan base_passes minimum_total_payload_bytes =
    elim (select_passes plan base_passes minimum_total_payload_bytes) [
      | failed reason ↦ invalid_plan plan reason
      | selected passes ↦ elim (set_strided_pattern_passes plan passes) [
        | none ↦ invalid_plan plan PatternReason.total_overflow
        | some counted ↦ record counted {
          status = PatternStatus.measured;
          status_reason = PatternReason.no_reason;
        }
      ]
    ]

-- The fields that the planner sets before its first test; the others have their defaults.
unfoldable pub initial_strided_plan : ℕ → ℕ → ℤ → PatternWorkPlan
initial_strided_plan stride access_size requested_threads = record {
  status = PatternStatus.invalid;
  status_reason = PatternReason.no_reason;
  stride_bytes = stride;
  access_size_bytes = access_size;
  requested_threads = requested_threads;
  effective_threads = 0;
  accesses_per_pass = 0;
  min_accesses_per_pass = 0;
  max_accesses_per_pass = 0;
  payload_bytes_per_pass = 0;
  passes = 0;
  total_accesses = 0;
  total_payload_bytes = 0;
  phase_period_passes = 0;
  distinct_address_count = 0;
  logical_working_set_bytes = 0;
  completed_phase_cycles = 0;
  workers = [];
}

pub skipped_plan : PatternWorkPlan → PatternReason → PatternWorkPlan
skipped_plan plan reason = record plan { status = PatternStatus.skipped; status_reason = reason }

-- The part from the first candidate on; the shortest span of a worker holds two accesses.
unfoldable pub partition_strided_plan : PatternWorkPlan → ℕ → ℕ → ℕ → ℕ → PatternWorkPlan
unfolding finish_strided_plan skipped_plan
partition_strided_plan plan buffer_size minimum_worker_span base_passes
      minimum_total_payload_bytes =
    let first_candidate =
      min (pos_part plan.requested_threads) (min (buffer_size / minimum_worker_span) int_max) in
    elim (try_candidates plan buffer_size first_candidate) [
      | retry ↦ skipped_plan plan PatternReason.no_valid_partition
      | aborted ↦ record plan {
        status = PatternStatus.invalid;
        status_reason = PatternReason.byte_overflow;
      }
      | done populated ↦
          if populated.payload_bytes_per_pass == 0
          then skipped_plan populated PatternReason.no_valid_partition
          else finish_strided_plan populated base_passes minimum_total_payload_bytes
    ]

unfoldable pub build_strided_pattern_work_plan : ℕ → ℕ → ℕ → ℤ → ℤ → ℕ → PatternWorkPlan
unfolding initial_strided_plan partition_strided_plan
build_strided_pattern_work_plan buffer_size stride access_size requested_threads base_passes
      minimum_total_payload_bytes =
    let plan = initial_strided_plan stride access_size requested_threads in
    if stride == 0
      || access_size == 0
      || not (is_positive requested_threads)
      || not (is_positive base_passes)
    then record plan { status_reason = PatternReason.invalid_parameters }
    else elim (checked_add stride access_size) [
      | none ↦ record plan { status_reason = PatternReason.stride_access_sum_overflow }
      | some minimum_worker_span ↦
          if ltb buffer_size minimum_worker_span
          then skipped_plan plan PatternReason.buffer_lacks_two_accesses
          else partition_strided_plan plan buffer_size minimum_worker_span (pos_part base_passes)
              minimum_total_payload_bytes
    ]
