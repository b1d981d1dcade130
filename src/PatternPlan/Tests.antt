-- ===== src/PatternPlan/Tests.antt =====
-- The theorems on the strided plans at concrete inputs.
use mac_os_memory_benchmark.Common.{
  ℕ, ◌/◌, ◌≤◌, size_max, ◌≡◌, ◌≢◌, refl, arith, some, [], ◌∷◌, int_max,
}
use mac_os_memory_benchmark.Common.Int.{pos}
use mac_os_memory_benchmark.Numeric.{checked_add, checked_multiply}
use mac_os_memory_benchmark.Partition.{
  chunk_ends, align_boundary, settle_boundaries, build_aligned_boundaries,
}
use mac_os_memory_benchmark.PatternPlan.{
  PatternStatus, PatternReason, PatternWorkPlan, PatternWorkerRange, prepend_range,
  strided_accesses, add_worker, populate_ranges, populate_worker_ranges, try_candidates,
}
use mac_os_memory_benchmark.PatternPlan.Metrics.{
  PhaseMetrics, aligned_slots, slots_per_cycle, phase_accesses, pass_extremes, selected_slots,
  add_selected, selected_end, distinct_and_bytes, is_empty, metrics_guard, metrics_of_slots,
  calculate_phase_metrics, set_strided_pattern_passes,
}
use mac_os_memory_benchmark.PatternPlan.Metrics.Totals.{
  IsPhaseMetrics, calculate_phase_metrics-IsPhaseMetrics,
}
use mac_os_memory_benchmark.PatternPlan.Random.{build_random_worker_indices}
use mac_os_memory_benchmark.PatternPlan.Random.Fits.{
  FitRanges, build_random_worker_indices-FitRanges,
}
use mac_os_memory_benchmark.PatternPlan.Search.{
  search_passes, searched_selection, select_passes, finish_strided_plan, initial_strided_plan,
  partition_strided_plan, build_strided_pattern_work_plan, out_of_fuel, selected,
}
use mac_os_memory_benchmark.PatternPlan.Search.Least.{
  IsLeast, search_passes-ends, select_passes-IsLeast,
}
use mac_os_memory_benchmark.PatternPlan.Search.Measured.{
  IsStridedPlan, build_strided_pattern_work_plan-IsStridedPlan,
}

-- 4 KiB in strides of 256 bytes by 2 threads, with at least 10000 bytes of payload.
strided_measured :
    (build_strided_pattern_work_plan 4096 256 64 (pos 2) (pos 3) 10000).status
    ≡ PatternStatus.measured
unfolding checked_add checked_multiply chunk_ends align_boundary settle_boundaries
    build_aligned_boundaries prepend_range strided_accesses add_worker populate_ranges
    populate_worker_ranges try_candidates aligned_slots slots_per_cycle phase_accesses pass_extremes
    selected_slots add_selected selected_end distinct_and_bytes is_empty metrics_guard
    metrics_of_slots calculate_phase_metrics set_strided_pattern_passes search_passes
    searched_selection select_passes finish_strided_plan initial_strided_plan partition_strided_plan
    build_strided_pattern_work_plan
strided_measured = refl

build_strided_pattern_work_plan-IsStridedPlan_example :
    IsStridedPlan 4096 256 64
      (pos 2)
      3
      10000
      (build_strided_pattern_work_plan 4096 256 64 (pos 2) (pos 3) 10000)
build_strided_pattern_work_plan-IsStridedPlan_example =
    build_strided_pattern_work_plan-IsStridedPlan 4096 256 64 (pos 2) (pos 3) 10000 (omega arith)
      (omega arith) strided_measured

-- A plan over two workers of 2048 bytes each.
abbrev worker_at : ℕ → PatternWorkerRange
worker_at offset = record {
  offset_bytes = offset;
  span_bytes = 2048;
  accesses_per_pass = 8;
  payload_bytes_per_pass = 512;
}

abbrev two_workers : PatternWorkPlan
two_workers = record {
  status = PatternStatus.invalid;
  status_reason = PatternReason.no_reason;
  stride_bytes = 256;
  access_size_bytes = 64;
  requested_threads = pos 2;
  effective_threads = 2;
  accesses_per_pass = 16;
  min_accesses_per_pass = 0;
  max_accesses_per_pass = 0;
  payload_bytes_per_pass = 1024;
  passes = 0;
  total_accesses = 0;
  total_payload_bytes = 0;
  phase_period_passes = 0;
  distinct_address_count = 0;
  logical_working_set_bytes = 0;
  completed_phase_cycles = 0;
  workers = worker_at 0 ∷ worker_at 2048 ∷ [];
}

-- Six passes: one cycle of four phases, and two passes more.
abbrev six_passes : PhaseMetrics
six_passes = record {
  total_accesses = 96;
  distinct_addresses = 64;
  logical_working_set_bytes = 4096;
  completed_phase_cycles = 1;
  min_accesses_per_pass = 16;
  max_accesses_per_pass = 16;
}

six_passes_counted : calculate_phase_metrics two_workers 6 ≡ some six_passes
unfolding checked_add checked_multiply aligned_slots slots_per_cycle phase_accesses pass_extremes
    selected_slots add_selected selected_end distinct_and_bytes is_empty metrics_guard
    metrics_of_slots calculate_phase_metrics
six_passes_counted = refl

two_workers_fit : (32 ≤ size_max) × ((32 ≤ size_max) × Unit {0})
two_workers_fit = (omega arith, (omega arith, tt))

calculate_phase_metrics-IsPhaseMetrics_example :
    IsPhaseMetrics 64 (256 / 64) 6 (aligned_slots 64 (worker_at 0 ∷ worker_at 2048 ∷ [])) six_passes
unfolding aligned_slots
calculate_phase_metrics-IsPhaseMetrics_example =
    calculate_phase_metrics-IsPhaseMetrics two_workers 6 six_passes two_workers_fit
      six_passes_counted

search_passes-ends_example : search_passes 31 two_workers 10000 3 int_max ≢ out_of_fuel
search_passes-ends_example = search_passes-ends 31 two_workers 10000 3 int_max (omega arith)

ten_passes_selected : select_passes two_workers 3 10000 ≡ selected 10
unfolding checked_add checked_multiply aligned_slots slots_per_cycle phase_accesses pass_extremes
    selected_slots add_selected selected_end distinct_and_bytes is_empty metrics_guard
    metrics_of_slots calculate_phase_metrics set_strided_pattern_passes search_passes
    searched_selection select_passes
ten_passes_selected = refl

select_passes-IsLeast_example : IsLeast two_workers 10000 3 int_max 10
select_passes-IsLeast_example =
    select_passes-IsLeast two_workers 3 10000 10 (omega arith) (omega arith) ten_passes_selected

build_random_worker_indices-FitRanges_example :
    FitRanges 64 0
      (build_aligned_boundaries 1000 3)
      (build_random_worker_indices 1000 64 (pos 3) (0 ∷ 960 ∷ 448 ∷ 320 ∷ []))
build_random_worker_indices-FitRanges_example =
    build_random_worker_indices-FitRanges 1000 64 (pos 3) (0 ∷ 960 ∷ 448 ∷ 320 ∷ []) (omega arith)
      (omega arith, omega arith) refl (omega arith) (omega arith)
