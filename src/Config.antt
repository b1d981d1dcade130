-- ===== src/Config.antt =====
-- The configuration of one command: src/core/config/config.h, with the defaults that it takes from
-- src/core/config/constants.h, and the chain modes of src/core/memory/memory_utils.cpp.
pub mod SweepText
use mac_os_memory_benchmark.Common.{ℕ, ◌*◌, Bool, true, false, List, [], ◌==◌, if◌then◌else◌}
use mac_os_memory_benchmark.Common.Int.{ℤ, negsuc}
use mac_os_memory_benchmark.Common.Bytes.{Bytes}

pub data LatencyChainMode : Type 0 where
  auto global_random random_in_box_random_box : LatencyChainMode
  same_random_in_box_increasing_box diff_random_in_box_increasing_box : LatencyChainMode

pub data TlbSweepDensity : Type 0 where
  low medium high : TlbSweepDensity

pub data SweepParameter : Type 0 where
  buffer_size_mb cache_size_kb threads latency_tlb_locality_kb : SweepParameter
  latency_stride_bytes latency_chain_mode tlb_density : SweepParameter

-- One candidate: the number, the chain mode or the density, by the parameter of its spec.
pub record SweepValue : Type 0 where
  pub raw_value : Bytes
  pub integer_value : ℤ
  pub latency_chain_mode : LatencyChainMode
  pub tlb_sweep_density : TlbSweepDensity

pub record SweepSpec : Type 0 where
  pub parameter : SweepParameter
  pub parameter_name : Bytes
  pub values : List SweepValue

abbrev pub bytes_per_kb : ℕ
bytes_per_kb = 1024

abbrev pub bytes_per_mb : ℕ
bytes_per_mb = 1024 * 1024

pub record BenchmarkConfig : Type 0 where
  -- user-provided settings
  pub buffer_size_mb : ℕ
  pub iterations : ℕ
  pub loop_count : ℕ
  pub custom_cache_size_kb_ll : ℤ
  pub latency_sample_count : ℕ
  pub latency_stride_bytes : ℕ
  pub latency_chain_mode : LatencyChainMode
  pub latency_tlb_locality_bytes : ℕ
  pub tlb_sweep_density : TlbSweepDensity
  pub tlb_seed : ℕ
  pub pattern_seed : ℕ
  pub benchmark_seed : ℕ
  -- calculated sizes
  pub buffer_size : ℕ
  pub l1_buffer_size : ℕ
  pub l2_buffer_size : ℕ
  pub custom_buffer_size : ℕ
  -- access counts
  pub lat_num_accesses : ℕ
  pub l1_num_accesses : ℕ
  pub l2_num_accesses : ℕ
  pub custom_num_accesses : ℕ
  -- system info
  pub cpu_name : Bytes
  pub macos_version : Bytes
  pub perf_cores : ℕ
  pub eff_cores : ℕ
  pub num_threads : ℕ
  pub l1_cache_size : ℕ
  pub l2_cache_size : ℕ
  pub custom_cache_size_bytes : ℕ
  pub max_total_allowed_mb : ℕ
  -- flags
  pub use_custom_cache_size : Bool
  pub run_benchmark : Bool
  pub run_patterns : Bool
  pub use_non_cacheable : Bool
  pub user_specified_threads : Bool
  pub only_bandwidth : Bool
  pub only_latency : Bool
  pub analyze_tlb : Bool
  pub run_sweep : Bool
  pub help_printed : Bool
  pub sweep_max_runs : ℕ
  -- what the user specified
  pub user_specified_iterations : Bool
  pub user_specified_latency_samples : Bool
  pub user_specified_latency_tlb_locality : Bool
  pub user_specified_tlb_seed : Bool
  pub user_specified_pattern_seed : Bool
  pub user_specified_benchmark_seed : Bool
  pub output_file : Bytes
  pub sweep_specs : List SweepSpec

-- `BenchmarkConfig{}`
abbrev pub default_config : BenchmarkConfig
default_config = record {
  buffer_size_mb = 512;
  iterations = 1000;
  loop_count = 1;
  custom_cache_size_kb_ll = negsuc 0;
  latency_sample_count = 1000;
  latency_stride_bytes = 256;
  latency_chain_mode = auto;
  latency_tlb_locality_bytes = 1024 * bytes_per_kb;
  tlb_sweep_density = medium;
  tlb_seed = 0;
  pattern_seed = 0;
  benchmark_seed = 0;
  buffer_size = 0;
  l1_buffer_size = 0;
  l2_buffer_size = 0;
  custom_buffer_size = 0;
  lat_num_accesses = 0;
  l1_num_accesses = 0;
  l2_num_accesses = 0;
  custom_num_accesses = 0;
  cpu_name = [];
  macos_version = [];
  perf_cores = 0;
  eff_cores = 0;
  num_threads = 0;
  l1_cache_size = 0;
  l2_cache_size = 0;
  custom_cache_size_bytes = 0;
  max_total_allowed_mb = 0;
  use_custom_cache_size = false;
  run_benchmark = false;
  run_patterns = false;
  use_non_cacheable = false;
  user_specified_threads = false;
  only_bandwidth = false;
  only_latency = false;
  analyze_tlb = false;
  run_sweep = false;
  help_printed = false;
  sweep_max_runs = 256;
  user_specified_iterations = false;
  user_specified_latency_samples = false;
  user_specified_latency_tlb_locality = false;
  user_specified_tlb_seed = false;
  user_specified_pattern_seed = false;
  user_specified_benchmark_seed = false;
  output_file = [];
  sweep_specs = [];
}

unfoldable pub resolve_latency_chain_mode : LatencyChainMode → ℕ → LatencyChainMode
resolve_latency_chain_mode auto tlb_locality_bytes =
    if tlb_locality_bytes == 0 then global_random else random_in_box_random_box
resolve_latency_chain_mode mode tlb_locality_bytes = mode

unfoldable pub latency_chain_mode_uses_locality : LatencyChainMode → Bool
latency_chain_mode_uses_locality global_random = false
latency_chain_mode_uses_locality _ = true
