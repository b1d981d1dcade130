-- ===== src/CommandLine/Platform.antt =====
-- What the parser takes from the system, and what it settles after the options:
-- `parse_arguments` of src/core/config/argument_parser.cpp.
use mac_os_memory_benchmark.Common.{
  ℕ, zero, ◌*◌, true, false, Option, none, some, ltb, if◌then◌else◌, mul_size,
}
use mac_os_memory_benchmark.Common.Bytes.{Bytes}
use mac_os_memory_benchmark.Common.Int.{ℤ, pos, negsuc, to_size}
use mac_os_memory_benchmark.Config.{BenchmarkConfig, bytes_per_kb}

-- What the parser asks of the system, and the seed that it would generate.
pub record Platform : Type 0 where
  pub cpu_name : Bytes
  pub macos_version : Bytes
  pub performance_cores : ℕ
  pub efficiency_cores : ℕ
  pub total_logical_cores : ℕ
  pub l1_cache_size : ℕ
  pub l2_cache_size : ℕ
  pub generated_seed : ℕ

-- Between the passes: the cache size that was found, the system, the caches and the default access
-- counts.
unfoldable pub set_cache_size : Option ℕ → BenchmarkConfig → BenchmarkConfig
set_cache_size none c = c
set_cache_size (some kb) c = record c { custom_cache_size_kb_ll = pos kb }

-- -1 is no custom cache size.
unfoldable pub with_caches : Platform → ℤ → BenchmarkConfig → BenchmarkConfig
with_caches s (negsuc zero) c = record c {
  use_custom_cache_size = false;
  l1_cache_size = s.l1_cache_size;
  l2_cache_size = s.l2_cache_size;
}
with_caches s kb c = record c {
  use_custom_cache_size = true;
  custom_cache_size_bytes = mul_size (to_size kb) bytes_per_kb;
}

unfoldable pub with_platform : Platform → BenchmarkConfig → BenchmarkConfig
with_platform s c = record c {
  cpu_name = s.cpu_name;
  macos_version = s.macos_version;
  perf_cores = s.performance_cores;
  eff_cores = s.efficiency_cores;
  num_threads = s.total_logical_cores;
  l1_num_accesses = 100 * 1000 * 1000;
  l2_num_accesses = 50 * 1000 * 1000;
  custom_num_accesses = 100 * 1000 * 1000;
}

-- After the second pass.
unfoldable pub finish_buffer_size : Option ℕ → BenchmarkConfig → BenchmarkConfig
finish_buffer_size none c = c
finish_buffer_size (some mb) c = record c { buffer_size_mb = mb }

unfoldable pub finish_threads : ℕ → Option ℕ → BenchmarkConfig → BenchmarkConfig
finish_threads max_cores none c = c
finish_threads max_cores (some requested) c = record c {
  num_threads = if ltb max_cores requested then max_cores else requested;
  user_specified_threads = true;
}

unfoldable pub finish_locality : Option ℕ → BenchmarkConfig → BenchmarkConfig
finish_locality none c = c
finish_locality (some kb) c = record c { latency_tlb_locality_bytes = mul_size kb bytes_per_kb }

unfoldable pub finish_seed : ℕ → Option ℕ → BenchmarkConfig → BenchmarkConfig
finish_seed generated (some given) c =
    if c.run_benchmark
    then record c { benchmark_seed = given; user_specified_benchmark_seed = true }
    else record c { pattern_seed = given; user_specified_pattern_seed = true }
finish_seed generated none c =
    if c.run_patterns
    then record c { pattern_seed = generated }
    else if c.run_benchmark
    then record c { benchmark_seed = generated }
    else c

unfoldable pub prepare : Platform → Option ℕ → BenchmarkConfig → BenchmarkConfig
prepare s cache_size_kb c =
    let platform = with_platform s (set_cache_size cache_size_kb c) in
    with_caches s platform.custom_cache_size_kb_ll platform
