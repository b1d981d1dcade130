-- ===== src/SweepRuns/Tests.antt =====
-- A sweep over two sizes and two thread counts.
use mac_os_memory_benchmark.Common.{ℕ, ◌≡◌, ◌↔◌, refl, true, List, [], ◌∷◌, length}
use mac_os_memory_benchmark.Common.Bytes.{codes}
use mac_os_memory_benchmark.Common.Int.{pos}
use mac_os_memory_benchmark.Config.{
  LatencyChainMode, TlbSweepDensity, SweepParameter, SweepValue, SweepSpec, BenchmarkConfig,
  default_config,
}
use mac_os_memory_benchmark.SweepRuns.{
  SweepAssignment, for_each, append_assignments_recursive, build_sweep_assignments, apply_value,
  apply_assignment, apply_assignments, build_run_config, cap_threads,
}
use mac_os_memory_benchmark.SweepRuns.Choices.{Among, IsChoice, build_sweep_assignments_iff}

abbrev a_value : ℕ → SweepValue
a_value n = record {
  raw_value = [];
  integer_value = pos n;
  latency_chain_mode = LatencyChainMode.auto;
  tlb_sweep_density = TlbSweepDensity.medium;
}

abbrev sizes : SweepSpec
sizes = record {
  parameter = SweepParameter.buffer_size_mb;
  parameter_name = codes "buffer-size";
  values = a_value 64 ∷ a_value 128 ∷ [];
}

abbrev thread_counts : SweepSpec
thread_counts = record {
  parameter = SweepParameter.threads;
  parameter_name = codes "threads";
  values = a_value 1 ∷ a_value 4 ∷ [];
}

abbrev four_runs : BenchmarkConfig
four_runs = record default_config {
  run_benchmark = true;
  run_sweep = true;
  output_file = codes "out.json";
  sweep_specs = sizes ∷ thread_counts ∷ [];
}

abbrev big_and_four : List SweepAssignment
big_and_four =
    record { spec = sizes; value = a_value 128 }
    ∷ record { spec = thread_counts; value = a_value 4 }
    ∷ []

four_assignments : length (build_sweep_assignments four_runs) ≡ 4
unfolding build_sweep_assignments append_assignments_recursive for_each
four_assignments = refl

big_and_four_threads : (build_run_config 8 four_runs big_and_four).num_threads ≡ 4
unfolding build_run_config apply_assignments apply_assignment apply_value cap_threads
big_and_four_threads = refl

build_sweep_assignments_iff_example :
    Among big_and_four (build_sweep_assignments four_runs)
    ↔ IsChoice (sizes ∷ thread_counts ∷ []) big_and_four
build_sweep_assignments_iff_example = build_sweep_assignments_iff four_runs big_and_four
