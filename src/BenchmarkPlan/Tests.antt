-- ===== src/BenchmarkPlan/Tests.antt =====
-- The theorems on the standard plans at concrete inputs.
use mac_os_memory_benchmark.Common.{ℕ, ◌/◌, ◌≡◌, refl, arith, [], ◌∷◌, ◌==◌, Bool}
use mac_os_memory_benchmark.Common.Int.{pos}
use mac_os_memory_benchmark.BenchmarkPlan.{
  measured, main_memory, l1, copy, build_benchmark_bandwidth_work_plan,
  build_benchmark_latency_work_plan, execute_benchmark_phase_schedule,
}
use mac_os_memory_benchmark.BenchmarkPlan.Accepted.{
  Accepts, IsMeasuredPlan, build_benchmark_bandwidth_work_plan-IsMeasuredPlan,
  build_benchmark_bandwidth_work_plan-Accepts,
}
use mac_os_memory_benchmark.BenchmarkPlan.Latency.{
  IsWholeCycles, build_benchmark_latency_work_plan-IsWholeCycles,
  build_benchmark_latency_work_plan-measured,
}
use mac_os_memory_benchmark.BenchmarkPlan.Phases.{IsRun, execute_benchmark_phase_schedule-IsRun}

-- A copy of 1000 bytes by 3 threads, 7 passes of it.
copy_accepted : Accepts 1000 (pos 3) 7 copy
copy_accepted = record {
  has_buffer = omega arith;
  has_threads = refl;
  has_passes = (omega arith, omega arith);
  bandwidth = λ e. cc;
  total_fits = omega arith;
}

build_benchmark_bandwidth_work_plan-IsMeasuredPlan_example :
    IsMeasuredPlan 1000
      (pos 3)
      7
      copy
      (build_benchmark_bandwidth_work_plan 1000 (pos 3) 7 main_memory copy)
build_benchmark_bandwidth_work_plan-IsMeasuredPlan_example =
    build_benchmark_bandwidth_work_plan-IsMeasuredPlan 1000 (pos 3) 7 main_memory copy (omega arith)
      copy_accepted

copy_measured :
    (build_benchmark_bandwidth_work_plan 1000 (pos 3) 7 main_memory copy).status ≡ measured
copy_measured =
    (build_benchmark_bandwidth_work_plan-IsMeasuredPlan 1000 (pos 3) 7 main_memory copy
      (omega arith) copy_accepted).is_measured.0

build_benchmark_bandwidth_work_plan-Accepts_example : Accepts 1000 (pos 3) 7 copy
build_benchmark_bandwidth_work_plan-Accepts_example =
    build_benchmark_bandwidth_work_plan-Accepts 1000 (pos 3) 7 main_memory copy (omega arith)
      copy_measured

-- A chain of 64 nodes, 1000 accesses wanted: 16 cycles.
build_benchmark_latency_work_plan-measured_example :
    (build_benchmark_latency_work_plan 8192 128 1000 2 4096 l1 5).status ≡ measured
build_benchmark_latency_work_plan-measured_example =
    build_benchmark_latency_work_plan-measured 8192 128 1000 2 4096 l1 5 16
      (omega arith, omega arith, omega arith, omega arith, omega arith) (omega arith) (omega arith)
      (omega arith) (omega arith)

chain_measured : (build_benchmark_latency_work_plan 8192 128 1000 2 4096 l1 5).status ≡ measured
chain_measured =
    build_benchmark_latency_work_plan-measured 8192 128 1000 2 4096 l1 5 16
      (omega arith, omega arith, omega arith, omega arith, omega arith) (omega arith) (omega arith)
      (omega arith) (omega arith)

build_benchmark_latency_work_plan-IsWholeCycles_example :
    IsWholeCycles
      (8192 / 128)
      1000
      2
      4096
      (build_benchmark_latency_work_plan 8192 128 1000 2 4096 l1 5)
build_benchmark_latency_work_plan-IsWholeCycles_example =
    build_benchmark_latency_work_plan-IsWholeCycles 8192 128 1000 2 4096 l1 5 (omega arith)
      (omega arith) (omega arith) chain_measured

-- A stop request that comes while the second phase runs.
abbrev stop_in_second : ℕ → Bool
stop_in_second query = query == 3

execute_benchmark_phase_schedule-IsRun_example :
    IsRun stop_in_second 0 0
      (2 ∷ 0 ∷ 1 ∷ [])
      (execute_benchmark_phase_schedule stop_in_second (2 ∷ 0 ∷ 1 ∷ []))
execute_benchmark_phase_schedule-IsRun_example =
    execute_benchmark_phase_schedule-IsRun stop_in_second (2 ∷ 0 ∷ 1 ∷ [])
