-- ===== src/Validation/Tests.antt =====
-- The validation of a plain benchmark and of a sweep.
use mac_os_memory_benchmark.Common.{
  ℕ, ◌*◌, ◌/◌, ◌≤◌, ◌≡◌, ◌↔◌, refl, arith, true, false, List, [], ◌∷◌, length,
}
use mac_os_memory_benchmark.Common.Bytes.{codes}
use mac_os_memory_benchmark.Common.Int.{pos}
use mac_os_memory_benchmark.Common.Results.{ok, err}
use mac_os_memory_benchmark.Numeric.{saturating_multiply, checked_multiply}
use mac_os_memory_benchmark.Config.{
  LatencyChainMode, TlbSweepDensity, SweepParameter, SweepValue, SweepSpec, BenchmarkConfig,
  default_config, resolve_latency_chain_mode, latency_chain_mode_uses_locality,
}
use mac_os_memory_benchmark.Config.SweepText.{cartesian_run_count_from}
use mac_os_memory_benchmark.Validation.{
  Machine, latency_stride_alignment, sweep_parameter_allowed, is_seen, validate_sweep_spec,
  validate_sweep_specs, calculate_sweep_run_count_from_specs, validate_sweep, validate_seed_flags,
  validate_latency_stride, uses_locality, validate_mode_flags, validate_cache_pointers,
  validate_zero_sizes, validate_locality, max_total_mb, max_allowed_mb_per_buffer,
  cap_buffer_size_mb, limit_to, apply_memory_limit, validate_arguments, validate_mode,
  validate_config,
}
use mac_os_memory_benchmark.Validation.Limit.{limited_config, IsAccepted, validate_config_iff}
use mac_os_memory_benchmark.Validation.Again.{validate_config_idem}
use mac_os_memory_benchmark.Validation.Sweep.{IsSweep, validate_config-IsSweep}
use mac_os_memory_benchmark.SweepRuns.{build_sweep_assignments}
use mac_os_memory_benchmark.SweepRuns.Choices.{length-validated_sweep}
use mac_os_memory_benchmark.Allocation.{calculate_pattern_allocation_bytes}
use mac_os_memory_benchmark.Validation.Memory.{validate_config-allocates}

abbrev laptop : Machine
laptop = record { page_size = 16384; available_memory_mb = 16000; memory_limit = λ mb. mb * 8 / 10 }

abbrev plain_benchmark : BenchmarkConfig
plain_benchmark = record default_config {
  run_benchmark = true;
  buffer_size_mb = 8000;
  l1_cache_size = 131072;
  l2_cache_size = 16777216;
}

abbrev megabytes : List SweepValue → SweepSpec
megabytes values = record {
  parameter = SweepParameter.buffer_size_mb;
  parameter_name = codes "buffer-size";
  values = values;
}

abbrev size_value : ℕ → SweepValue
size_value mb = record {
  raw_value = [];
  integer_value = pos mb;
  latency_chain_mode = LatencyChainMode.auto;
  tlb_sweep_density = TlbSweepDensity.medium;
}

abbrev two_sizes : BenchmarkConfig
two_sizes = record plain_benchmark {
  run_sweep = true;
  output_file = codes "out.json";
  sweep_specs = megabytes (size_value 64 ∷ size_value 128 ∷ []) ∷ [];
}

plain_benchmark_passes :
    validate_config laptop plain_benchmark ≡ ok (limited_config laptop plain_benchmark)
unfolding validate_config validate_mode validate_arguments apply_memory_limit limit_to
    cap_buffer_size_mb max_allowed_mb_per_buffer max_total_mb validate_locality validate_zero_sizes
    validate_cache_pointers validate_mode_flags uses_locality validate_latency_stride
    validate_seed_flags resolve_latency_chain_mode latency_chain_mode_uses_locality
plain_benchmark_passes = refl

two_sizes_pass : validate_config laptop two_sizes ≡ ok (limited_config laptop two_sizes)
unfolding validate_config validate_mode validate_arguments apply_memory_limit limit_to
    cap_buffer_size_mb max_allowed_mb_per_buffer max_total_mb validate_locality validate_zero_sizes
    validate_cache_pointers validate_mode_flags uses_locality validate_latency_stride
    validate_seed_flags resolve_latency_chain_mode latency_chain_mode_uses_locality validate_sweep
    validate_sweep_specs validate_sweep_spec is_seen sweep_parameter_allowed
    calculate_sweep_run_count_from_specs cartesian_run_count_from saturating_multiply
    checked_multiply
two_sizes_pass = refl

odd_stride_fails :
    validate_config laptop (record plain_benchmark { latency_stride_bytes = 100 })
    ≡ err latency_stride_alignment
unfolding validate_config validate_mode validate_arguments validate_latency_stride
    validate_seed_flags
odd_stride_fails = refl

validate_config_iff_example :
    (validate_config laptop plain_benchmark ≡ ok (limited_config laptop plain_benchmark))
    ↔ IsAccepted laptop plain_benchmark (limited_config laptop plain_benchmark)
validate_config_iff_example =
    validate_config_iff laptop plain_benchmark (limited_config laptop plain_benchmark) refl refl

validate_config_idem_example :
    validate_config laptop (limited_config laptop two_sizes) ≡ ok (limited_config laptop two_sizes)
validate_config_idem_example =
    validate_config_idem laptop two_sizes (limited_config laptop two_sizes) two_sizes_pass

validate_config-IsSweep_example : IsSweep 16384 two_sizes
validate_config-IsSweep_example =
    validate_config-IsSweep laptop two_sizes (limited_config laptop two_sizes) refl (omega arith)
      two_sizes_pass

length-validated_sweep_example :
    (1 ≤ length (build_sweep_assignments two_sizes))
    × (length (build_sweep_assignments two_sizes) ≤ 256)
length-validated_sweep_example =
    length-validated_sweep laptop two_sizes (limited_config laptop two_sizes) refl (omega arith)
      two_sizes_pass

abbrev pattern_run : BenchmarkConfig
pattern_run = record plain_benchmark { run_benchmark = false; run_patterns = true }

pattern_run_passes : validate_config laptop pattern_run ≡ ok (limited_config laptop pattern_run)
unfolding validate_config validate_mode validate_arguments apply_memory_limit limit_to
    cap_buffer_size_mb max_allowed_mb_per_buffer max_total_mb validate_locality validate_zero_sizes
    validate_cache_pointers validate_mode_flags uses_locality validate_latency_stride
    validate_seed_flags resolve_latency_chain_mode latency_chain_mode_uses_locality
pattern_run_passes = refl

validate_config-allocates_example :
    calculate_pattern_allocation_bytes (limited_config laptop pattern_run) ≡ ok (6400 * 1048576 * 2)
unfolding max_total_mb
validate_config-allocates_example =
    validate_config-allocates laptop pattern_run (limited_config laptop pattern_run) refl refl refl
      (omega arith) (omega arith) pattern_run_passes
