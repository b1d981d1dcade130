-- ===== src/PatternPlan/Metrics.antt =====
-- The phase metrics of a strided plan: `calculate_phase_metrics` and `set_strided_pattern_passes`
-- of src/pattern_benchmark/pattern_work_plan.cpp. A loop that adds to its out-parameters takes the
-- sums so far and returns them, or `none` where the function returns false.
pub mod Slots
pub mod Phases
pub mod Totals
pub mod Passes
use mac_os_memory_benchmark.Common.{
  ℕ, zero, suc, ◌+◌, ◌-◌, ◌*◌, ◌/◌, ◌%◌, min, List, [], ◌∷◌, Bool, true, false, not, ◌&&◌, ◌||◌,
  Option, none, some, ltb, ◌==◌, if◌then◌else◌, int_max, add_size, sub_size, mul_size, ◌>>=◌, ◌>>◌,
  guard,
}
use mac_os_memory_benchmark.Numeric.{checked_add, checked_multiply}
use mac_os_memory_benchmark.PatternPlan.{PatternWorkerRange, PatternWorkPlan}

-- The out-parameters of `calculate_phase_metrics`.
pub record PhaseMetrics : Type 0 where
  pub total_accesses : ℕ
  pub distinct_addresses : ℕ
  pub logical_working_set_bytes : ℕ
  pub completed_phase_cycles : ℕ
  pub min_accesses_per_pass : ℕ
  pub max_accesses_per_pass : ℕ

-- The slots of each worker, the list that every loop of `calculate_phase_metrics` goes through.
unfoldable pub aligned_slots : ℕ → List PatternWorkerRange → List ℕ
aligned_slots access_size [] = []
aligned_slots access_size (w ∷ ws) = w.span_bytes / access_size ∷ aligned_slots access_size ws

unfoldable pub slots_per_cycle : List ℕ → ℕ → Option ℕ
slots_per_cycle [] sum = some sum
slots_per_cycle (slots ∷ rest) sum =
    if ltb slots 2 then none else (checked_add sum slots >>= λ sum'. slots_per_cycle rest sum')

-- `1 + (aligned_slots - 1 - phase) / period`, or 0 for a phase past the last slot.
unfoldable pub phase_accesses : ℕ → ℕ → ℕ → ℕ
phase_accesses period phase slots = if ltb phase slots then 1 + (slots - 1 - phase) / period else 0

-- The loop over the extremes: phase zero has the most accesses, the last executed phase the fewest.
unfoldable pub pass_extremes : ℕ → ℕ → List ℕ → ℕ → ℕ → Option (ℕ × ℕ)
unfolding phase_accesses
pass_extremes period last_phase [] maximum minimum = some (maximum, minimum)
pass_extremes period last_phase (slots ∷ rest) maximum minimum =
    checked_add maximum (1 + (slots - 1) / period) >>= λ maximum'.
    checked_add minimum (phase_accesses period last_phase slots) >>= λ minimum'.
    pass_extremes period last_phase rest maximum' minimum'

-- The slots of one worker that `phases` phases select: full blocks, then the tail.
unfoldable pub selected_slots : ℕ → ℕ → ℕ → Option ℕ
selected_slots period phases slots =
    checked_multiply (slots / period) phases >>= λ full_block_accesses.
    some (add_size full_block_accesses (min (slots % period) phases))

unfoldable pub add_selected : ℕ → ℕ → List ℕ → ℕ → Option ℕ
unfolding selected_slots
add_selected period phases [] sum = some sum
add_selected period phases (slots ∷ rest) sum = selected_slots period phases slots >>= λ selected.
    checked_add sum selected >>= λ sum'. add_selected period phases rest sum'

-- One more than the last slot that the phases select, or none.
unfoldable pub selected_end : ℕ → ℕ → ℕ → Option ℕ
selected_end period phases slots =
    let full_blocks = slots / period in
    let tail = min (slots % period) phases in
    if ltb 0 tail
    then some (sub_size (add_size (mul_size full_blocks period) tail) 1)
    else if ltb 0 full_blocks && ltb 0 phases
    then some (sub_size (add_size (mul_size (full_blocks - 1) period) phases) 1)
    else none

-- The loop over distinct addresses: their count, and the bytes up to the last of each worker.
unfoldable pub distinct_and_bytes : ℕ → ℕ → ℕ → List ℕ → ℕ → ℕ → Option (ℕ × ℕ)
unfolding selected_slots selected_end
distinct_and_bytes access_size period phases [] distinct bytes = some (distinct, bytes)
distinct_and_bytes access_size period phases (slots ∷ rest) distinct bytes =
    selected_slots period phases slots >>= λ selected.
    checked_add distinct selected >>= λ distinct'. elim (selected_end period phases slots) [
      | none ↦ distinct_and_bytes access_size period phases rest distinct' bytes
      | some last ↦ checked_multiply (add_size last 1) access_size >>= λ worker_bytes.
          checked_add bytes worker_bytes >>= λ bytes'.
          distinct_and_bytes access_size period phases rest distinct' bytes'
    ]

unfoldable pub is_empty : List PatternWorkerRange → Bool
is_empty [] = true
is_empty _ = false

-- The guards of `calculate_phase_metrics`.
unfoldable pub metrics_guard : PatternWorkPlan → ℕ → Bool
unfolding is_empty
metrics_guard plan passes = not (
    passes == 0
    || plan.access_size_bytes == 0
    || plan.stride_bytes == 0
    || not (plan.stride_bytes % plan.access_size_bytes == 0)
    || is_empty plan.workers
    || ltb int_max passes
    || plan.stride_bytes / plan.access_size_bytes == 0)

-- The body of `calculate_phase_metrics` on the slots of the workers.
unfoldable pub metrics_of_slots : ℕ → ℕ → ℕ → List ℕ → Option PhaseMetrics
unfolding slots_per_cycle pass_extremes add_selected distinct_and_bytes
metrics_of_slots access_size period passes slots = slots_per_cycle slots 0 >>= λ accesses_per_cycle.
    checked_multiply (passes / period) accesses_per_cycle >>= λ cycle_accesses.
    pass_extremes period (min passes period - 1) slots 0 0 >>= λ (maximum, minimum).
    add_selected period (passes % period) slots cycle_accesses >>= λ total.
    distinct_and_bytes access_size period (min passes period) slots 0 0 >>= λ (distinct, bytes).
    some (record {
      total_accesses = total;
      distinct_addresses = distinct;
      logical_working_set_bytes = bytes;
      completed_phase_cycles = passes / period;
      min_accesses_per_pass = minimum;
      max_accesses_per_pass = maximum;
    })

unfoldable pub calculate_phase_metrics : PatternWorkPlan → ℕ → Option PhaseMetrics
unfolding metrics_guard aligned_slots metrics_of_slots
calculate_phase_metrics plan passes =
    guard (metrics_guard plan passes)
    >> metrics_of_slots plan.access_size_bytes (plan.stride_bytes / plan.access_size_bytes) passes
        (aligned_slots plan.access_size_bytes plan.workers)

unfoldable pub set_strided_pattern_passes : PatternWorkPlan → ℕ → Option PatternWorkPlan
set_strided_pattern_passes plan passes = calculate_phase_metrics plan passes >>= λ m.
    checked_multiply m.total_accesses plan.access_size_bytes >>= λ total_payload.
    some (record plan {
      total_payload_bytes = total_payload;
      passes = passes;
      total_accesses = m.total_accesses;
      phase_period_passes = plan.stride_bytes / plan.access_size_bytes;
      min_accesses_per_pass = m.min_accesses_per_pass;
      max_accesses_per_pass = m.max_accesses_per_pass;
      distinct_address_count = m.distinct_addresses;
      logical_working_set_bytes = m.logical_working_set_bytes;
      completed_phase_cycles = m.completed_phase_cycles;
    })
