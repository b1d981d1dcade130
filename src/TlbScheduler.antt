-- ===== src/TlbScheduler.antt =====
-- The measurement schedule of the TLB analysis: src/benchmark/tlb_measurement_scheduler.cpp and .h.
-- `std::shuffle` over `std::mt19937_64` is a parameter: from a seed and a length, an order of the
-- indices. What a measurement returns is a parameter type.
pub mod Balanced
pub mod Promise
pub mod Execution
mod Tests
use Prim.Native.Nat.{bit_xor}
use mac_os_memory_benchmark.Common.{
  ℕ, zero, suc, ◌+◌, ◌*◌, ◌/◌, ◌%◌, List, [], ◌∷◌, ◌++◌, map, length, get_or, iota, Bool, true,
  false, not, ◌&&◌, ◌||◌, Option, none, some, ltb, ◌==◌, if◌then◌else◌, size_max,
}
use mac_os_memory_benchmark.Seeds.{splitmix64}
use mac_os_memory_benchmark.TlbSweep.{TlbSweepPoint}

pub data TlbMeasurementPass : Type 0 where
  base refinement validation large_locality : TlbMeasurementPass

pub record TlbMeasurementTask : Type 0 where
  pub pass : TlbMeasurementPass
  pub point_index : ℕ
  pub locality_bytes : ℕ
  pub round_index : ℕ
  pub order_index : ℕ
  pub seed : ℕ

pub pass_number : TlbMeasurementPass → ℕ
pass_number base = 0
pass_number refinement = 1
pass_number validation = 2
pass_number large_locality = 3

pub derive_tlb_measurement_seed : ℕ → TlbMeasurementPass → ℕ → ℕ → ℕ
unfolding pass_number
derive_tlb_measurement_seed base_seed pass round_index point_index =
    let value = splitmix64 (bit_xor base_seed (pass_number pass)) in
    let value' = splitmix64 (bit_xor value round_index) in splitmix64 (bit_xor value' point_index)

pub tlb_measure_spread_first : TlbMeasurementTask → Bool
tlb_measure_spread_first task = (task.round_index + task.order_index) % 2 == 0

-- `points[index]`; no index is out of range, so what stands there is never used.
pub point_at : List TlbSweepPoint → ℕ → TlbSweepPoint
point_at points index = get_or points index (record {
  point_index = 0;
  requested_pages = 0;
  effective_pages = 0;
  locality_bytes = 0;
  stride_bytes = 0;
  pointer_count = 0;
  bracket_lower_bytes = 0;
  bracket_upper_bytes = 0;
})

module _ (points : List TlbSweepPoint) (seeded_point_order : List ℕ) (base_seed : ℕ)
    (pass : TlbMeasurementPass) where
  -- The task at a position of a round.
  pub scheduled_task : ℕ → ℕ → TlbMeasurementTask
  unfolding point_at
  scheduled_task round_index order_index =
      let rotated_index = (order_index + round_index) % length points in
      let point = point_at points (get_or seeded_point_order rotated_index 0) in
      record {
        pass = pass;
        point_index = point.point_index;
        locality_bytes = point.locality_bytes;
        round_index = round_index;
        order_index = order_index;
        seed = derive_tlb_measurement_seed base_seed pass round_index point.point_index;
      }

  pub round_tasks : ℕ → List TlbMeasurementTask
  round_tasks round_index = map (scheduled_task round_index) (iota 0 (length points))

  -- The rounds from `round_index` on, `left` of them.
  pub rounds_from : ℕ → ℕ → List TlbMeasurementTask
  unfolding round_tasks
  rounds_from round_index zero = []
  rounds_from round_index (suc left) = round_tasks round_index ++ rounds_from (round_index + 1) left

pub build_tlb_measurement_schedule :
    (ℕ → ℕ → List ℕ) → List TlbSweepPoint → ℕ → ℕ → TlbMeasurementPass → List TlbMeasurementTask
build_tlb_measurement_schedule shuffled points round_count base_seed pass =
    if length points == 0 || round_count == 0 || ltb (size_max / length points) round_count
    then []
    else rounds_from points
        (shuffled (derive_tlb_measurement_seed base_seed pass 0 (length points)) (length points))
        base_seed pass 0 round_count

pub data TlbScheduleExecutionStatus : Type 0 where
  complete interrupted error : TlbScheduleExecutionStatus

-- The fields of a record that repeat its task's are the task itself.
pub record TlbMeasurementRecord (Sample : Type 0) : Type 0 where
  pub task : TlbMeasurementTask
  pub sample : Sample

pub record TlbScheduleExecutionResult (Sample : Type 0) : Type 0 where
  pub status : TlbScheduleExecutionStatus
  pub records : List (TlbMeasurementRecord Sample)
  pub rounds_completed : ℕ
  pub converged : Bool

-- Whether the task is the last of the schedule or of its round.
pub round_complete : TlbMeasurementTask → List TlbMeasurementTask → Bool
round_complete task [] = true
round_complete task (next ∷ rest) = not (next.round_index == task.round_index)

-- `stop n` is the answer to the n-th stop query, two to a task; `measure n task` is what the call for
-- the n-th task returns, `none` being an error (or no function given); `converged` is
-- `stop_when_converged`, `false` throughout where none is given.
module _ {Sample : Type 0} (stop : ℕ → Bool) (measure : ℕ → TlbMeasurementTask → Option Sample)
    (converged : ℕ → List (TlbMeasurementRecord Sample) → Bool) where
  -- The loop, from the task at `index` on.
  pub execute_tasks :
      ℕ
      → ℕ
      → List (TlbMeasurementRecord Sample)
      → List TlbMeasurementTask
      → TlbScheduleExecutionResult Sample
  unfolding round_complete
  execute_tasks index rounds records [] = record {
    status = complete;
    records = records;
    rounds_completed = rounds;
    converged = false;
  }
  execute_tasks index rounds records (task ∷ rest) = elim (stop (2 * index)) [
    | true ↦ record {
      status = interrupted;
      records = records;
      rounds_completed = rounds;
      converged = false;
    }
    | false ↦ elim (measure index task) [
      | none ↦ record {
        status = error;
        records = records;
        rounds_completed = rounds;
        converged = false;
      }
      | some sample ↦
          let records' = records ++ (record { task = task; sample = sample } ∷ []) in
          let rounds' = if round_complete task rest then rounds + 1 else rounds in
          elim (stop (2 * index + 1)) [
            | true ↦ record {
              status = interrupted;
              records = records';
              rounds_completed = rounds';
              converged = false;
            }
            | false ↦ elim (round_complete task rest && converged rounds' records') [
              | true ↦ record {
                status = complete;
                records = records';
                rounds_completed = rounds';
                converged = true;
              }
              | false ↦ execute_tasks (index + 1) rounds' records' rest
            ]
          ]
    ]
  ]

  pub execute_tlb_measurement_schedule : List TlbMeasurementTask → TlbScheduleExecutionResult Sample
  unfolding execute_tasks
  execute_tlb_measurement_schedule schedule = execute_tasks 0 0 [] schedule
