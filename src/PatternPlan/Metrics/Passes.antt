-- ===== src/PatternPlan/Metrics/Passes.antt =====
-- What `set_strided_pattern_passes` leaves of a plan, and what it adds.
use mathlib.Core.Option.{some-injective}
use mathlib.Core.Path.{subst}
use native.Mathlib.Nat.{div-le_self}
use mac_os_memory_benchmark.Common.{
  ℕ, ◌+◌, ◌*◌, ◌/◌, ◌≤◌, ◌≡◌, refl, arith, some, size_max, bind-some, List, [], ◌∷◌,
}
use mac_os_memory_benchmark.Numeric.{checked_multiply}
use mac_os_memory_benchmark.Numeric.Checked.{checked_multiply-some}
use mac_os_memory_benchmark.PatternPlan.{PatternWorkPlan, PatternWorkerRange}
use mac_os_memory_benchmark.PatternPlan.Workers.{StridedTiles}
use mac_os_memory_benchmark.PatternPlan.Metrics.{
  PhaseMetrics, set_strided_pattern_passes, calculate_phase_metrics, aligned_slots,
}
use mac_os_memory_benchmark.PatternPlan.Metrics.Phases.{SlotsFit}
use mac_os_memory_benchmark.PatternPlan.Metrics.Totals.{
  IsPhaseMetrics, calculate_phase_metrics-IsPhaseMetrics,
}

-- The metrics that a plan carries.
abbrev pub plan_metrics : PatternWorkPlan → PhaseMetrics
plan_metrics plan = record {
  total_accesses = plan.total_accesses;
  distinct_addresses = plan.distinct_address_count;
  logical_working_set_bytes = plan.logical_working_set_bytes;
  completed_phase_cycles = plan.completed_phase_cycles;
  min_accesses_per_pass = plan.min_accesses_per_pass;
  max_accesses_per_pass = plan.max_accesses_per_pass;
}

-- The slots of a tiling fit where the buffer does.
pub tiles-SlotsFit :
    (stride access_size start size : ℕ) (ws : List PatternWorkerRange)
    → size ≤ size_max
    → StridedTiles stride access_size start size ws
    → (start ≤ size) × SlotsFit (aligned_slots access_size ws)
unfolding aligned_slots
tiles-SlotsFit stride access_size start size [] fits t = (omega arith, tt)
tiles-SlotsFit stride access_size start size (w ∷ ws) fits t =
    let (below, rest) = tiles-SlotsFit stride access_size (start + w.span_bytes) size ws fits t.5 in
    (omega arith, (omega (arith, div-le_self w.span_bytes access_size), rest))

-- What setting the passes of a plan leaves: the partition as it was, and the metrics of the passes.
pub record HasPasses (plan : PatternWorkPlan) (passes : ℕ) (p : PatternWorkPlan) : Type 0 where
  pub pass_field : p.passes ≡ passes
  pub same_workers : p.workers ≡ plan.workers
  pub same_threads : p.effective_threads ≡ plan.effective_threads
  pub same_accesses : p.accesses_per_pass ≡ plan.accesses_per_pass
  pub same_payload : p.payload_bytes_per_pass ≡ plan.payload_bytes_per_pass
  pub total_payload : p.total_payload_bytes ≡ p.total_accesses * plan.access_size_bytes
  pub metrics :
      IsPhaseMetrics plan.access_size_bytes
        (plan.stride_bytes / plan.access_size_bytes)
        passes
        (aligned_slots plan.access_size_bytes plan.workers)
        (plan_metrics p)

pub set_passes-HasPasses :
    (plan p : PatternWorkPlan) (passes : ℕ)
    → SlotsFit (aligned_slots plan.access_size_bytes plan.workers)
    → set_strided_pattern_passes plan passes ≡ some p
    → HasPasses plan passes p
unfolding set_strided_pattern_passes
set_passes-HasPasses plan p passes fit e =
    let (m, e1, f1) = bind-some (calculate_phase_metrics plan passes) _ p e in
    let (t, e2, f2) = bind-some (checked_multiply m.total_accesses plan.access_size_bytes) _ p f1 in
    subst (HasPasses plan passes) (some-injective _ p f2) (record {
      pass_field = refl;
      same_workers = refl;
      same_threads = refl;
      same_accesses = refl;
      same_payload = refl;
      total_payload = ((checked_multiply-some m.total_accesses plan.access_size_bytes t).0 e2).0;
      metrics = calculate_phase_metrics-IsPhaseMetrics plan passes m fit e1;
    })
