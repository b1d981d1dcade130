-- ===== src/TlbScheduler/Tests.antt =====
-- The theorems of the scheduler at concrete inputs.
use mathlib.Core.List.{Perm}
use mathlib.Core.List.Perm
use mac_os_memory_benchmark.Common.{
  ℕ, ◌==◌, refl, Bool, false, Option, some, List, [], ◌∷◌, map, iota,
}
use mac_os_memory_benchmark.TlbSweep.{TlbSweepPoint}
use mac_os_memory_benchmark.TlbScheduler.{
  base, TlbMeasurementTask, TlbMeasurementRecord, round_tasks, build_tlb_measurement_schedule,
  execute_tlb_measurement_schedule,
}
use mac_os_memory_benchmark.TlbScheduler.Balanced.{IsShuffle, round_tasks-perm}
use mac_os_memory_benchmark.TlbScheduler.Promise.{IsExecution}
use mac_os_memory_benchmark.TlbScheduler.Execution.{execute_tlb_measurement_schedule-IsExecution}

abbrev point : ℕ → ℕ → TlbSweepPoint
point index locality = record {
  point_index = index;
  requested_pages = 1;
  effective_pages = 1;
  locality_bytes = locality;
  stride_bytes = 128;
  pointer_count = 1;
  bracket_lower_bytes = locality;
  bracket_upper_bytes = locality;
}

abbrev three_points : List TlbSweepPoint
three_points = point 4 16384 ∷ point 7 32768 ∷ point 9 65536 ∷ []

-- A shuffle that leaves the indices as they are.
kept_order : IsShuffle 3 (iota 0 3)
kept_order = record { same_indices = Perm.refl (iota 0 3); same_length = refl }

round_tasks-perm_example :
    Perm
      (map
        (λ (t : TlbMeasurementTask). t.point_index)
        (round_tasks three_points (iota 0 3) 42 base 5))
      (map (λ (p : TlbSweepPoint). p.point_index) three_points)
round_tasks-perm_example = round_tasks-perm three_points (iota 0 3) 42 base 5 kept_order

-- Two rounds; a stop request comes with the seventh query; the sample is the number of the call.
abbrev two_rounds : List TlbMeasurementTask
two_rounds = build_tlb_measurement_schedule (λ seed n. iota 0 n) three_points 2 42 base

abbrev stop_at_seven : ℕ → Bool
stop_at_seven query = query == 7

abbrev numbered_sample : ℕ → TlbMeasurementTask → Option ℕ
numbered_sample index task = some index

abbrev never_converged : ℕ → List (TlbMeasurementRecord ℕ) → Bool
never_converged rounds records = false

execute_tlb_measurement_schedule-IsExecution_example :
    IsExecution stop_at_seven numbered_sample never_converged 0 0 [] two_rounds
      (execute_tlb_measurement_schedule stop_at_seven numbered_sample never_converged two_rounds)
execute_tlb_measurement_schedule-IsExecution_example =
    execute_tlb_measurement_schedule-IsExecution stop_at_seven numbered_sample never_converged
      two_rounds
