-- ===== src/PatternPlan/Metrics/Totals.antt =====
-- The phase metrics against a count of every slot in every pass.
use native.Mathlib.Nat.{mod-lt}
use mathlib.Core.Option.{some-injective}
use mathlib.Core.Path.{subst}
use mac_os_memory_benchmark.Common.{
  ℕ, ◌+◌, ◌-◌, ◌*◌, ◌/◌, ◌%◌, ◌≤◌, ◌<◌, ◌≡◌, refl, arith, min, List, [], ◌∷◌, sum_map, some,
  bind-some, guard,
}
use mac_os_memory_benchmark.Numeric.{checked_multiply}
use mac_os_memory_benchmark.Numeric.Checked.{checked_multiply-some}
use mac_os_memory_benchmark.Common.Division.{quotient_unique}
use mac_os_memory_benchmark.PatternPlan.{PatternWorkPlan}
use mac_os_memory_benchmark.PatternPlan.Metrics.{
  slots_per_cycle, pass_extremes, add_selected, aligned_slots, metrics_guard,
  calculate_phase_metrics, distinct_and_bytes, metrics_of_slots, PhaseMetrics,
}
use mac_os_memory_benchmark.PatternPlan.Metrics.Slots.{
  hits, covered, reach, visits, visits_closed, hits_antitone,
}
use mac_os_memory_benchmark.PatternPlan.Metrics.Phases.{
  SlotsFit, slots_per_cycle-some, slots_per_cycle-two, add_selected-some, pass_extremes-some,
  distinct_and_bytes-some,
}

-- The accesses of pass `q` over all workers.
abbrev pub pass_hits : ℕ → ℕ → List ℕ → ℕ
pass_hits period q slots = sum_map (hits period (q % period)) slots

-- What the metrics of `passes` passes are, slot by slot: the accesses of all passes, the slots that
-- some pass accesses, the bytes up to the last of them, and bounds on every pass that the first
-- and the last phase attain.
pub record IsPhaseMetrics (access period passes : ℕ) (slots : List ℕ) (m : PhaseMetrics)
    : Type 0 where
  pub total : m.total_accesses ≡ sum_map (λ n. visits period n passes) slots
  pub distinct : m.distinct_addresses ≡ sum_map (covered period (min passes period)) slots
  pub bytes :
      m.logical_working_set_bytes ≡ sum_map (λ n. reach period (min passes period) n * access) slots
  pub cycles : m.completed_phase_cycles ≡ passes / period
  pub most : m.max_accesses_per_pass ≡ pass_hits period 0 slots
  pub fewest : m.min_accesses_per_pass ≡ pass_hits period (min passes period - 1) slots
  pub bounds :
      (q : ℕ)
      → q < passes
      → (m.min_accesses_per_pass ≤ pass_hits period q slots)
        × (pass_hits period q slots ≤ m.max_accesses_per_pass)

sum_hits_antitone :
    (period p q : ℕ) (slots : List ℕ)
    → p ≤ q
    → q < period
    → sum_map (hits period q) slots ≤ sum_map (hits period p) slots
sum_hits_antitone period p q [] h k = omega arith
sum_hits_antitone period p q (n ∷ rest) h k =
    omega (arith, hits_antitone period p q n h k, sum_hits_antitone period p q rest h k)

-- Whole cycles and the remaining phases make up all passes.
sum_visits :
    (period passes : ℕ) (slots : List ℕ)
    → 1 ≤ period
    → passes / period * sum_map (λ n. n) slots + sum_map (covered period (passes % period)) slots
      ≡ sum_map (λ n. visits period n passes) slots
sum_visits period passes [] h = omega arith
sum_visits period passes (n ∷ rest) h =
    grind (arith, visits_closed period n passes h, sum_visits period passes rest h)

small_mod : (q period : ℕ) → q < period → q % period ≡ q
small_mod q period h = ground (arith, quotient_unique q period 0 q)

pass_bounds :
    (period passes q : ℕ) (slots : List ℕ)
    → 1 ≤ period
    → q < passes
    → (sum_map (hits period (min passes period - 1)) slots ≤ pass_hits period q slots)
      × (pass_hits period q slots ≤ sum_map (hits period 0) slots)
pass_bounds period passes q slots h lt = (
  sum_hits_antitone period (q % period) (min passes period - 1) slots
      (ground (arith, mod-lt q {m = period}, small_mod q period)) (omega arith),
  sum_hits_antitone period 0 (q % period) slots (omega arith) (mod-lt q {m = period} h),
)

-- The record that the function writes from the results of its loops.
abbrev metrics_record : ℕ → ℕ → ℕ → ℕ × ℕ → ℕ × ℕ → PhaseMetrics
metrics_record period passes total extremes counted = record {
  total_accesses = total;
  distinct_addresses = counted.0;
  logical_working_set_bytes = counted.1;
  completed_phase_cycles = passes / period;
  min_accesses_per_pass = extremes.1;
  max_accesses_per_pass = extremes.0;
}

-- The loops that a success has gone through.
record Steps (access period passes : ℕ) (slots : List ℕ) (m : PhaseMetrics) : Type 0 where
  per_cycle : ℕ
  in_cycles : ℕ
  extremes : ℕ × ℕ
  total : ℕ
  counted : ℕ × ℕ
  cycle_step : slots_per_cycle slots 0 ≡ some per_cycle
  product_step : checked_multiply (passes / period) per_cycle ≡ some in_cycles
  extremes_step : pass_extremes period (min passes period - 1) slots 0 0 ≡ some extremes
  total_step : add_selected period (passes % period) slots in_cycles ≡ some total
  counted_step : distinct_and_bytes access period (min passes period) slots 0 0 ≡ some counted
  written : metrics_record period passes total extremes counted ≡ m

metrics_of_slots-Steps :
    (access period passes : ℕ) (slots : List ℕ) (m : PhaseMetrics)
    → metrics_of_slots access period passes slots ≡ some m
    → Steps access period passes slots m
unfolding metrics_of_slots
metrics_of_slots-Steps access period passes slots m e =
    let (c, e1, f1) = bind-some (slots_per_cycle slots 0) _ m e in
    let (i, e2, f2) = bind-some (checked_multiply (passes / period) c) _ m f1 in
    let (x, e3, f3) = bind-some (pass_extremes period (min passes period - 1) slots 0 0) _ m f2 in
    let (t, e4, f4) = bind-some (add_selected period (passes % period) slots i) _ m f3 in
    let (d, e5, f5) =
      bind-some (distinct_and_bytes access period (min passes period) slots 0 0) _ m f4 in
    record {
      per_cycle = c;
      in_cycles = i;
      extremes = x;
      total = t;
      counted = d;
      cycle_step = e1;
      product_step = e2;
      extremes_step = e3;
      total_step = e4;
      counted_step = e5;
      written = some-injective _ m f5;
    }

module _ (access period passes : ℕ) (slots : List ℕ) (m : PhaseMetrics) (h : 1 ≤ period)
    (pos : 1 ≤ passes) (fit : SlotsFit slots) where
  Steps-IsPhaseMetrics :
      Steps access period passes slots m → IsPhaseMetrics access period passes slots m
  Steps-IsPhaseMetrics st =
      let two = slots_per_cycle-two slots 0 st.per_cycle st.cycle_step in
      let cycle = slots_per_cycle-some slots 0 st.per_cycle fit st.cycle_step in
      let product =
        (checked_multiply-some (passes / period) st.per_cycle st.in_cycles).0 st.product_step in
      let ext =
        pass_extremes-some period (min passes period - 1) slots 0 0 st.extremes (omega arith) fit
          two st.extremes_step in
      let all =
        add_selected-some period (passes % period) slots st.in_cycles st.total h
          (omega (arith, mod-lt passes {m = period} h)) fit st.total_step in
      let some_phase =
        distinct_and_bytes-some access period (min passes period) slots 0 0 st.counted (omega arith)
          (omega arith) fit two st.counted_step in
      let in_all : st.total ≡ sum_map (λ n. visits period n passes) slots =
        grind (arith, sum_visits period passes slots h) in
      let zero_phase : 0 % period ≡ 0 = small_mod 0 period h in
      let last_phase : (min passes period - 1) % period ≡ min passes period - 1 =
        small_mod (min passes period - 1) period (omega arith) in
      subst (IsPhaseMetrics access period passes slots) st.written (record {
        total = in_all;
        distinct = omega (arith, some_phase.0);
        bytes = omega (arith, some_phase.1);
        cycles = refl;
        most = rw zero_phase (omega (arith, ext.0));
        fewest = rw last_phase (omega (arith, ext.1));
        bounds = λ q lt. (
          omega (arith, ext.1, pass_bounds period passes q slots h lt),
          omega (arith, ext.0, pass_bounds period passes q slots h lt),
        );
      })

guarded_plan :
    (plan : PatternWorkPlan) (passes : ℕ)
    → guard (metrics_guard plan passes) ≡ some tt
    → (1 ≤ passes) × (1 ≤ plan.stride_bytes / plan.access_size_bytes)
unfolding metrics_guard
guarded_plan plan passes e = ground arith

-- Where the slot counts of the workers fit `size_t`, the metrics that `calculate_phase_metrics`
-- returns are a count of every slot in every pass: all accesses, the distinct slots, the bytes up
-- to the last of them, the whole cycles, and the most and the fewest accesses of a pass, which
-- bound every pass.
pub calculate_phase_metrics-IsPhaseMetrics :
    (plan : PatternWorkPlan) (passes : ℕ) (m : PhaseMetrics)
    → SlotsFit (aligned_slots plan.access_size_bytes plan.workers)
    → calculate_phase_metrics plan passes ≡ some m
    → IsPhaseMetrics plan.access_size_bytes
        (plan.stride_bytes / plan.access_size_bytes)
        passes
        (aligned_slots plan.access_size_bytes plan.workers)
        m
unfolding calculate_phase_metrics
calculate_phase_metrics-IsPhaseMetrics plan passes m fit e =
    let (_, guarded, rest) = bind-some (guard (metrics_guard plan passes)) _ m e in
    let (pos, phases) = guarded_plan plan passes guarded in
    Steps-IsPhaseMetrics plan.access_size_bytes (plan.stride_bytes / plan.access_size_bytes) passes
      (aligned_slots plan.access_size_bytes plan.workers) m phases pos fit
      (metrics_of_slots-Steps _ _ _ _ m rest)
