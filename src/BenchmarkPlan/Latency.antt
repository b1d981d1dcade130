-- ===== src/BenchmarkPlan/Latency.antt =====
-- The latency planner: access counts that are whole cycles of the pointer chain.
use native.Mathlib.Nat.{div-add-mod, div-le_self, le_trans}
use mac_os_memory_benchmark.Common.{
  ℕ, ◌+◌, ◌*◌, ◌/◌, ◌≤◌, ◌<◌, ◌≡◌, ◌≢◌, inl, inr, arith, max, size_max, Option-cases,
}
use mac_os_memory_benchmark.Common.Division.{mul-mod_left}
use mac_os_memory_benchmark.Numeric.{checked_multiply, checked_round_up}
use mac_os_memory_benchmark.Numeric.Checked.{
  checked_multiply-some, checked_multiply-fits, checked_round_up-some, checked_round_up-least,
}
use mac_os_memory_benchmark.BenchmarkPlan.{
  measured, Target, LatencyWorkPlan, finish_latency_plan, initial_latency_plan,
  build_benchmark_latency_work_plan,
}

-- The accesses that a request asks for at least.
abbrev pub required_accesses : ℕ → ℕ → ℕ → ℕ
required_accesses nodes desired cycles = max desired (nodes * cycles)

-- What a measured latency plan promises: the least whole number of chain cycles that covers the
-- desired and the minimum work, within the limit.
pub record IsWholeCycles (nodes desired cycles limit : ℕ) (plan : LatencyWorkPlan) : Type 0 where
  pub chain : (plan.chain_node_count ≡ nodes) × (2 ≤ nodes)
  pub whole : plan.access_count ≡ nodes * plan.complete_chain_cycles
  pub covers : required_accesses nodes desired cycles ≤ plan.access_count
  pub least : plan.access_count < required_accesses nodes desired cycles + nodes
  pub bounded : plan.access_count ≤ limit

finish_latency_plan-IsWholeCycles :
    (plan : LatencyWorkPlan) (desired cycles limit : ℕ)
    → plan.status ≢ measured
    → 2 ≤ plan.chain_node_count
    → plan.chain_node_count ≤ size_max
    → desired ≤ size_max
    → limit ≤ size_max
    → (finish_latency_plan plan desired cycles limit).status ≡ measured
    → IsWholeCycles plan.chain_node_count desired cycles limit
        (finish_latency_plan plan desired cycles limit)
unfolding finish_latency_plan
finish_latency_plan-IsWholeCycles plan desired cycles limit h two hn hd hl m =
    let nodes = plan.chain_node_count in
    elim (Option-cases (checked_multiply nodes cycles)) [
      | inl e ↦ absurd (ground arith)
      | inr (p, e) ↦ elim (Option-cases (checked_round_up (max desired p) nodes)) [
        | inl e' ↦ absurd (ground arith)
        | inr (r, e') ↦ ground (
          arith,
          (checked_multiply-some nodes cycles p).0 e,
          (checked_round_up-some (max desired p) nodes r
                (ground (arith, (checked_multiply-some nodes cycles p).0 e)) hn).0
              e',
          div-add-mod r nodes,
        )
      ]
    ]

-- Where some whole number of cycles meets the request, the plan is measured.
finish_latency_plan-measured :
    (plan : LatencyWorkPlan) (desired cycles limit k : ℕ)
    → 2 ≤ plan.chain_node_count
    → plan.chain_node_count ≤ size_max
    → 1 ≤ cycles
    → limit ≤ size_max
    → required_accesses plan.chain_node_count desired cycles ≤ plan.chain_node_count * k
    → plan.chain_node_count * k ≤ limit
    → (finish_latency_plan plan desired cycles limit).status ≡ measured
unfolding finish_latency_plan
finish_latency_plan-measured plan desired cycles limit k two hn hc hl covers bounded =
    let nodes = plan.chain_node_count in
    let (r, e, above, below) =
      checked_round_up-least (max desired (nodes * cycles)) nodes (nodes * k) (omega arith)
        (mul-mod_left nodes k) covers (omega arith) in
    let work : 1 ≤ nodes * cycles = grind arith in
    ground (arith, checked_multiply-fits nodes cycles (omega arith))

-- The plan that the last part of the planner starts from.
abbrev pub chained_plan : ℕ → ℕ → Target → ℕ → LatencyWorkPlan
chained_plan size stride t seed = record (initial_latency_plan size stride t seed) {
  chain_node_count = size / stride;
}

-- The guards before it.
abbrev pub LatencyGuards : ℕ → ℕ → ℕ → ℕ → Type 0
LatencyGuards size stride cycles limit =
    (1 ≤ size) × (1 ≤ stride) × (1 ≤ cycles) × (1 ≤ limit) × (2 ≤ size / stride)

past_guards :
    (size stride desired cycles limit : ℕ) (t : Target) (seed : ℕ)
    → LatencyGuards size stride cycles limit
    → build_benchmark_latency_work_plan size stride desired cycles limit t seed
      ≡ finish_latency_plan (chained_plan size stride t seed) desired cycles limit
unfolding build_benchmark_latency_work_plan
past_guards size stride desired cycles limit t seed h = ground arith

guards_of_measured :
    (size stride desired cycles limit : ℕ) (t : Target) (seed : ℕ)
    → (build_benchmark_latency_work_plan size stride desired cycles limit t seed).status ≡ measured
    → LatencyGuards size stride cycles limit
unfolding build_benchmark_latency_work_plan
guards_of_measured size stride desired cycles limit t seed m = ground arith

quotient_bound : (size stride : ℕ) → size ≤ size_max → size / stride ≤ size_max
quotient_bound size stride h = le_trans (div-le_self size stride) h

chained_status :
    (size stride : ℕ) (t : Target) (seed : ℕ) → (chained_plan size stride t seed).status ≢ measured
unfolding initial_latency_plan
chained_status size stride t seed e = cc

-- For sizes and counts that fit `size_t`, a measured plan covers the desired work and the minimum
-- of complete cycles, by the least whole number of cycles that does, within the access limit.
pub build_benchmark_latency_work_plan-IsWholeCycles :
    (size stride desired cycles limit : ℕ) (t : Target) (seed : ℕ)
    → size ≤ size_max
    → desired ≤ size_max
    → limit ≤ size_max
    → (build_benchmark_latency_work_plan size stride desired cycles limit t seed).status ≡ measured
    → IsWholeCycles
        (size / stride)
        desired
        cycles
        limit
        (build_benchmark_latency_work_plan size stride desired cycles limit t seed)
build_benchmark_latency_work_plan-IsWholeCycles size stride desired cycles limit t seed hs hd hl m =
    let guards = guards_of_measured size stride desired cycles limit t seed m in
    let e = past_guards size stride desired cycles limit t seed guards in
    rw e (
      finish_latency_plan-IsWholeCycles (chained_plan size stride t seed) desired cycles limit
        (chained_status size stride t seed) guards.4 (quotient_bound size stride hs) hd hl
        (rw e at m))

-- For a buffer size and a limit that fit `size_t`, the plan is measured whenever the guards pass
-- and some whole number of cycles covers the request within the limit.
pub build_benchmark_latency_work_plan-measured :
    (size stride desired cycles limit : ℕ) (t : Target) (seed k : ℕ)
    → LatencyGuards size stride cycles limit
    → size ≤ size_max
    → limit ≤ size_max
    → required_accesses (size / stride) desired cycles ≤ size / stride * k
    → size / stride * k ≤ limit
    → (build_benchmark_latency_work_plan size stride desired cycles limit t seed).status ≡ measured
build_benchmark_latency_work_plan-measured size stride desired cycles limit t seed k guards hs hl
      covers bounded =
    rw (past_guards size stride desired cycles limit t seed guards) (
      finish_latency_plan-measured (chained_plan size stride t seed) desired cycles limit k guards.4
        (quotient_bound size stride hs) guards.2 hl covers bounded)
