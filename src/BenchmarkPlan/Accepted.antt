-- ===== src/BenchmarkPlan/Accepted.antt =====
-- The whole bandwidth planner: which arguments it accepts, and what a measured plan holds.
use mathlib.Core.Path.{subst₂}
use mac_os_memory_benchmark.Common.{
  ℕ, ◌*◌, ◌/◌, ◌≤◌, ◌<◌, ◌≡◌, ◌≢◌, refl, ap, sym, ◌∙◌, arith, min, max, size_max, int_max, length,
  some, none, true,
}
use mac_os_memory_benchmark.Common.Int.{ℤ, pos_part, is_positive}
use mac_os_memory_benchmark.Numeric.Checked.{checked_multiply-fits, checked_multiply-overflows}
use mac_os_memory_benchmark.Partition.{cache_line}
use mac_os_memory_benchmark.BenchmarkPlan.{
  MeasurementStatus, measured, Target, Operation, latency, Reason, WorkPlan,
  set_benchmark_work_plan_passes, pass_payload, finish_plan, initial_plan,
  build_benchmark_bandwidth_work_plan,
}
use mac_os_memory_benchmark.BenchmarkPlan.Bandwidth.{Tiles, IsPopulated, try_candidates-IsPopulated}

-- How often a pass moves each byte.
abbrev pub payload_multiplier : Operation → ℕ
payload_multiplier Operation.copy = 2
payload_multiplier _ = 1

pass_payload_lem :
    (o : Operation) (size : ℕ)
    → payload_multiplier o * size ≤ size_max
    → pass_payload o size ≡ some (payload_multiplier o * size)
unfolding pass_payload
pass_payload_lem Operation.copy size h =
    checked_multiply-fits size 2 (omega arith) ∙ ap some (omega arith)
pass_payload_lem _ size h = ap some (omega arith)

pass_payload-none :
    (o : Operation) (size : ℕ)
    → size ≤ size_max
    → size_max < payload_multiplier o * size
    → pass_payload o size ≡ none
unfolding pass_payload
pass_payload-none Operation.copy size fits h = checked_multiply-overflows size 2 (omega arith)
pass_payload-none _ size fits h = absurd (omega arith)

-- What the planner accepts: work to do, a positive thread count, a bandwidth operation, and
-- totals that fit.
pub record Accepts (size : ℕ) (threads : ℤ) (passes : ℕ) (o : Operation) : Type 0 where
  pub has_buffer : 1 ≤ size
  pub has_threads : is_positive threads ≡ true
  pub has_passes : (1 ≤ passes) × (passes ≤ int_max)
  pub bandwidth : o ≢ latency
  pub total_fits : payload_multiplier o * size * passes ≤ size_max

-- What a measured plan promises.
pub record IsMeasuredPlan (size : ℕ) (threads : ℤ) (passes : ℕ) (o : Operation) (plan : WorkPlan)
    : Type 0 where
  pub is_measured : (plan.status ≡ measured) × (plan.status_reason ≡ Reason.no_reason)
  pub thread_count : plan.effective_threads ≡ min (pos_part threads) (max 1 (size / cache_line))
  pub one_each : length plan.workers ≡ plan.effective_threads
  pub tiles : Tiles 0 size plan.workers
  pub payload : plan.payload_bytes_per_pass ≡ payload_multiplier o * size
  pub totals :
      (plan.passes ≡ passes) × (plan.total_payload_bytes ≡ plan.payload_bytes_per_pass * passes)

finish_plan-measured :
    (plan : WorkPlan) (passes : ℕ)
    → 1 ≤ plan.buffer_size_bytes
    → (1 ≤ passes) × (passes ≤ int_max)
    → payload_multiplier plan.operation * plan.buffer_size_bytes * passes ≤ size_max
    → finish_plan plan passes ≡ record plan {
      status = measured;
      status_reason = Reason.no_reason;
      payload_bytes_per_pass = payload_multiplier plan.operation * plan.buffer_size_bytes;
      passes = passes;
      total_payload_bytes = payload_multiplier plan.operation * plan.buffer_size_bytes * passes;
    }
unfolding finish_plan set_benchmark_work_plan_passes
finish_plan-measured plan passes pos hp fits =
    let one : payload_multiplier plan.operation * plan.buffer_size_bytes ≤ size_max = grind arith in
    ground (
      arith,
      pass_payload_lem plan.operation plan.buffer_size_bytes one,
      checked_multiply-fits (payload_multiplier plan.operation * plan.buffer_size_bytes) passes
          fits,
    )

positive_count : (threads : ℤ) → is_positive threads ≡ true → 1 ≤ pos_part threads
positive_count threads h = ground arith

-- The guards that come before the partition.
pub record PassesGuards (size : ℕ) (threads : ℤ) (passes : ℕ) (o : Operation) : Type 0 where
  pub some_buffer : 1 ≤ size
  pub some_threads : is_positive threads ≡ true
  pub some_passes : 1 ≤ passes
  pub some_bandwidth : o ≢ latency

partitioned :
    (size : ℕ) (threads : ℤ) (passes : ℕ) (t : Target) (o : Operation)
    → size ≤ size_max
    → PassesGuards size threads passes o
    → (populated : WorkPlan) × (build_benchmark_bandwidth_work_plan size threads passes t o
        ≡ finish_plan populated passes)
      × IsPopulated
          (initial_plan size threads t o)
          populated
          (min (pos_part threads) (max 1 (size / cache_line)))
unfolding build_benchmark_bandwidth_work_plan
partitioned size threads passes t o fits ok =
    let (populated, e, is) =
      try_candidates-IsPopulated (initial_plan size threads t o)
        (min (pos_part threads) (max 1 (size / cache_line)))
        (omega (arith, positive_count threads ok.some_threads)) (omega arith) ok.some_buffer fits in
    (populated, ground arith, is)

-- What the partition leaves of the initial plan.
populated_fields :
    (size : ℕ) (threads : ℤ) (t : Target) (o : Operation) {populated : WorkPlan} {count : ℕ}
    → IsPopulated (initial_plan size threads t o) populated count
    → (populated.status ≡ MeasurementStatus.invalid)
      × (populated.operation ≡ o)
      × (populated.buffer_size_bytes ≡ size)
      × (populated.effective_threads ≡ count)
unfolding initial_plan
populated_fields size threads t o is = (
  ap (λ (p : WorkPlan). p.status) is.same,
  ap (λ (p : WorkPlan). p.operation) is.same,
  ap (λ (p : WorkPlan). p.buffer_size_bytes) is.same,
  ap (λ (p : WorkPlan). p.effective_threads) is.same,
)

finish_plan-IsMeasuredPlan :
    (threads : ℤ) (passes : ℕ) (plan : WorkPlan)
    → Accepts plan.buffer_size_bytes threads passes plan.operation
    → plan.effective_threads ≡ min (pos_part threads) (max 1 (plan.buffer_size_bytes / cache_line))
    → length plan.workers ≡ plan.effective_threads
    → Tiles 0 plan.buffer_size_bytes plan.workers
    → IsMeasuredPlan plan.buffer_size_bytes threads passes plan.operation (finish_plan plan passes)
finish_plan-IsMeasuredPlan threads passes plan ok count one_each tiles =
    rw (finish_plan-measured plan passes ok.has_buffer ok.has_passes ok.total_fits) (record {
      is_measured = (refl, refl);
      thread_count = count;
      one_each = one_each;
      tiles = tiles;
      payload = refl;
      totals = (refl, refl);
    })

-- For a buffer size that fits `size_t`, accepted arguments give a measured plan: the ranges tile
-- the buffer without gap or overlap, one to a worker and none of them empty, on exactly as many
-- workers as were asked for or have a cache line each (at least one); and the payload totals are
-- the exact products.
pub build_benchmark_bandwidth_work_plan-IsMeasuredPlan :
    (size : ℕ) (threads : ℤ) (passes : ℕ) (t : Target) (o : Operation)
    → size ≤ size_max
    → Accepts size threads passes o
    → IsMeasuredPlan size threads passes o
        (build_benchmark_bandwidth_work_plan size threads passes t o)
unfolding initial_plan
build_benchmark_bandwidth_work_plan-IsMeasuredPlan size threads passes t o fits ok =
    let (populated, e, is) = partitioned size threads passes t o fits (record {
      some_buffer = ok.has_buffer;
      some_threads = ok.has_threads;
      some_passes = ok.has_passes.0;
      some_bandwidth = ok.bandwidth;
    }) in
    let (_, same_operation, same_size, count) = populated_fields size threads t o is in
    let known =
      finish_plan-IsMeasuredPlan threads passes populated (rw (same_operation, same_size) ok)
        (rw same_size count) (is.one_each ∙ sym count) (rw (same_size) is.tiles) in
    rw e (
      subst₂ (λ n p. IsMeasuredPlan n threads passes p (finish_plan populated passes)) same_size
        same_operation known)

finish_plan-fits :
    (plan : WorkPlan) (passes : ℕ)
    → plan.status ≢ measured
    → plan.buffer_size_bytes ≤ size_max
    → (finish_plan plan passes).status ≡ measured
    → (passes ≤ int_max)
      × (payload_multiplier plan.operation * plan.buffer_size_bytes * passes ≤ size_max)
unfolding finish_plan set_benchmark_work_plan_passes
finish_plan-fits plan passes h fits m = ground (
  arith,
  pass_payload_lem plan.operation plan.buffer_size_bytes,
  pass_payload-none plan.operation plan.buffer_size_bytes fits,
  checked_multiply-overflows (payload_multiplier plan.operation * plan.buffer_size_bytes) passes,
)

guards_of_measured :
    (size : ℕ) (threads : ℤ) (passes : ℕ) (t : Target) (o : Operation)
    → (build_benchmark_bandwidth_work_plan size threads passes t o).status ≡ measured
    → PassesGuards size threads passes o
unfolding build_benchmark_bandwidth_work_plan
guards_of_measured size threads passes t o h = ground arith

-- For a buffer size that fits `size_t`, a plan is measured only if the planner accepts its
-- arguments: a buffer, a positive thread count, from one pass to the largest `int`, a bandwidth
-- operation, and a total payload that fits `size_t`.
pub build_benchmark_bandwidth_work_plan-Accepts :
    (size : ℕ) (threads : ℤ) (passes : ℕ) (t : Target) (o : Operation)
    → size ≤ size_max
    → (build_benchmark_bandwidth_work_plan size threads passes t o).status ≡ measured
    → Accepts size threads passes o
build_benchmark_bandwidth_work_plan-Accepts size threads passes t o fits h =
    let guards = guards_of_measured size threads passes t o h in
    let (populated, e, is) = partitioned size threads passes t o fits guards in
    let (is_invalid, same_operation, same_size, count) = populated_fields size threads t o is in
    let (few, total) =
      finish_plan-fits populated passes (λ m. cc) (rw same_size fits) (rw e at h) in
    record {
      has_buffer = guards.some_buffer;
      has_threads = guards.some_threads;
      has_passes = (guards.some_passes, few);
      bandwidth = guards.some_bandwidth;
      total_fits =
          subst₂ (λ p n. payload_multiplier p * n * passes ≤ size_max) same_operation same_size
            total;
    }
