-- ===== src/PatternPlan.antt =====
-- Strided work plans of the pattern benchmark: src/pattern_benchmark/pattern_work_plan.cpp and .h.
-- A mutator that returns `bool` returns an `Option`, `none` being `false`; an accumulator passed by
-- reference is an argument and a result.
pub mod Metrics
pub mod Workers
pub mod Search
pub mod Random
mod Tests
use mac_os_memory_benchmark.Common.{
  ℕ, zero, suc, ◌+◌, ◌-◌, ◌*◌, ◌/◌, ◌%◌, min, max, List, [], ◌∷◌, Bool, true, false, not, ◌&&◌,
  ◌||◌, Option, none, some, ltb, leb, ◌==◌, if◌then◌else◌, int_max, size_max, add_size, sub_size,
  mul_size, ◌>>=◌, ◌>>◌, guard,
}
use mac_os_memory_benchmark.Common.Int.{ℤ, pos_part, is_positive}
use mac_os_memory_benchmark.Numeric.{checked_add, checked_multiply}
use mac_os_memory_benchmark.Partition.{build_aligned_boundaries}

pub data PatternStatus : Type 0 where
  measured skipped interrupted invalid : PatternStatus

pub data PatternReason : Type 0 where
  no_reason invalid_parameters stride_access_sum_overflow : PatternReason
  buffer_lacks_two_accesses byte_overflow no_valid_partition pass_limit total_overflow :
      PatternReason

pub record PatternWorkerRange : Type 0 where
  pub offset_bytes : ℕ
  pub span_bytes : ℕ
  pub accesses_per_pass : ℕ
  pub payload_bytes_per_pass : ℕ

pub record PatternWorkPlan : Type 0 where
  pub status : PatternStatus
  pub status_reason : PatternReason
  pub stride_bytes : ℕ
  pub access_size_bytes : ℕ
  pub requested_threads : ℤ
  pub effective_threads : ℕ
  pub accesses_per_pass : ℕ
  pub min_accesses_per_pass : ℕ
  pub max_accesses_per_pass : ℕ
  pub payload_bytes_per_pass : ℕ
  pub passes : ℕ
  pub total_accesses : ℕ
  pub total_payload_bytes : ℕ
  pub phase_period_passes : ℕ
  pub distinct_address_count : ℕ
  pub logical_working_set_bytes : ℕ
  pub completed_phase_cycles : ℕ
  pub workers : List PatternWorkerRange

-- What the worker loop of `populate_worker_ranges` ends with: a worker that is too small, a count
-- that does not fit, or the ranges with their totals.
pub data Populated : Type 0 where
  too_small overflow : Populated
  populated : List PatternWorkerRange → ℕ → ℕ → Populated

-- Puts a range before those of the later workers.
pub prepend_range : PatternWorkerRange → Populated → Populated
prepend_range range (populated ranges accesses payload) =
    populated (range ∷ ranges) accesses payload
prepend_range range failure = failure

-- The accesses of one worker in one pass.
pub strided_accesses : ℕ → ℕ → ℕ → ℕ
strided_accesses stride access_size span = 1 + (span - access_size) / stride

-- The totals after one more worker.
pub add_worker : ℕ → ℕ → ℕ → ℕ → Option (ℕ × ℕ × ℕ)
add_worker access_size accesses total_accesses total_payload =
    checked_multiply accesses access_size >>= λ worker_payload.
    checked_add total_accesses accesses >>= λ accesses'.
    checked_add total_payload worker_payload >>= λ payload'.
    some (worker_payload, accesses', payload')

pub populate_ranges : ℕ → ℕ → ℕ → List ℕ → ℕ → ℕ → Populated
unfolding prepend_range strided_accesses add_worker
populate_ranges stride access_size start [] total_accesses total_payload =
    populated [] total_accesses total_payload
populate_ranges stride access_size start (end ∷ rest) total_accesses total_payload =
    let span = sub_size end start in
    let accesses = strided_accesses stride access_size span in
    if ltb span access_size || ltb accesses 2
    then too_small
    else elim (add_worker access_size accesses total_accesses total_payload) [
      | none ↦ overflow
      | some (worker_payload, accesses', payload') ↦
          prepend_range
            (record {
              offset_bytes = start;
              span_bytes = span;
              accesses_per_pass = accesses;
              payload_bytes_per_pass = worker_payload;
            })
            (populate_ranges stride access_size end rest accesses' payload')
    ]

-- What `populate_worker_ranges` leaves: `retry` where it fails with no reason set.
pub data Attempt : Type 0 where
  retry aborted : Attempt
  done : PatternWorkPlan → Attempt

pub populate_worker_ranges : PatternWorkPlan → ℕ → ℕ → Attempt
unfolding populate_ranges
populate_worker_ranges plan buffer_size worker_count =
    elim (populate_ranges plan.stride_bytes plan.access_size_bytes 0
      (build_aligned_boundaries buffer_size worker_count) 0 0) [
        | too_small ↦ retry
        | overflow ↦ aborted
        | populated ranges accesses payload ↦ done (record plan {
          workers = ranges;
          effective_threads = worker_count;
          accesses_per_pass = accesses;
          payload_bytes_per_pass = payload;
        })
      ]

-- The loop over candidates; an overflow ends it.
pub try_candidates : PatternWorkPlan → ℕ → ℕ → Attempt
try_candidates plan buffer_size zero = retry
try_candidates plan buffer_size (suc candidate) =
    let fewer = try_candidates plan buffer_size candidate in
    elim (populate_worker_ranges plan buffer_size (suc candidate)) [
      | retry ↦ fewer
      | aborted ↦ aborted
      | done plan' ↦ done plan'
    ]
