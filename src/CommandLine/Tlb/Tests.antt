-- ===== src/CommandLine/Tlb/Tests.antt =====
-- A command line of the TLB analysis.
use mac_os_memory_benchmark.Common.{◌*◌, ◌/◌, ◌≡◌, refl, arith, List, [], ◌∷◌}
use mac_os_memory_benchmark.Common.Bytes.{Bytes, codes, same_bytes}
use mac_os_memory_benchmark.Common.Results.{ok}
use mac_os_memory_benchmark.Config.{TlbSweepDensity, BenchmarkConfig, default_config}
use mac_os_memory_benchmark.Validation.{Machine, validate_config}
use mac_os_memory_benchmark.CommandLine.{
  tlb_sweep_density_from_string, scan_digits, scan_number, scanned, parse_strict_signed_decimal,
  parse_signed_decimal_or_throw, parse_strict_unsigned_decimal, parse_unsigned_decimal_or_throw,
  is_option,
}
use mac_os_memory_benchmark.CommandLine.Platform.{Platform}
use mac_os_memory_benchmark.CommandLine.General.{has_seen, number_in}
use mac_os_memory_benchmark.CommandLine.Tlb.{
  tlb_argument_of, set_tlb_value, parse_tlb_options, finish_tlb, start_tlb, parse_tlb_arguments,
}
use mac_os_memory_benchmark.CommandLine.Tlb.Parsed.{parse_tlb_arguments-valid}

abbrev host : Platform
host = record {
  cpu_name = codes "M4";
  macos_version = codes "15";
  performance_cores = 4;
  efficiency_cores = 6;
  total_logical_cores = 10;
  l1_cache_size = 131072;
  l2_cache_size = 16777216;
  generated_seed = 7;
}

abbrev pages : Machine
pages = record { page_size = 16384; available_memory_mb = 16000; memory_limit = λ mb. mb * 8 / 10 }

abbrev dense : List Bytes
dense = codes "-T" ∷ codes "-D" ∷ codes "high" ∷ codes "-s" ∷ codes "256" ∷ []

abbrev dense_config : BenchmarkConfig
dense_config = record (start_tlb default_config) {
  tlb_sweep_density = TlbSweepDensity.high;
  latency_stride_bytes = 256;
  tlb_seed = 7;
  cpu_name = codes "M4";
  macos_version = codes "15";
  perf_cores = 4;
  eff_cores = 6;
}

dense_parses : parse_tlb_arguments host dense default_config ≡ ok dense_config
unfolding parse_tlb_arguments finish_tlb parse_tlb_options set_tlb_value tlb_argument_of
    tlb_sweep_density_from_string has_seen number_in scan_digits scan_number scanned
    parse_strict_signed_decimal parse_signed_decimal_or_throw parse_strict_unsigned_decimal
    parse_unsigned_decimal_or_throw is_option same_bytes
dense_parses = refl

parse_tlb_arguments-valid_example : validate_config pages dense_config ≡ ok dense_config
parse_tlb_arguments-valid_example =
    parse_tlb_arguments-valid host dense dense_config pages dense_parses refl (omega arith)
