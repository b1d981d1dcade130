-- ===== src/CommandLine/General/Tests.antt =====
-- A command line of the standard benchmark.
use mac_os_memory_benchmark.Common.{◌≡◌, refl, true, List, [], ◌∷◌, none}
use mac_os_memory_benchmark.Common.Bytes.{Bytes, codes, same_bytes}
use mac_os_memory_benchmark.Common.Results.{ok}
use mac_os_memory_benchmark.Config.{BenchmarkConfig, default_config}
use mac_os_memory_benchmark.CommandLine.{
  scan_digits, scan_number, scanned, parse_strict_signed_decimal, parse_signed_decimal_or_throw,
  parse_strict_unsigned_decimal, parse_unsigned_decimal_or_throw, is_option,
}
use mac_os_memory_benchmark.CommandLine.Options.{argument_of}
use mac_os_memory_benchmark.CommandLine.Platform.{
  Platform, set_cache_size, with_caches, with_platform, finish_buffer_size, finish_threads,
  finish_locality, finish_seed, prepare,
}
use mac_os_memory_benchmark.CommandLine.General.{
  has_seen, number_in, set_value, set_flag, take_value, end_of_arguments, parse_options,
  find_cache_size, finish_parse, finish_outcome, parse_general_arguments,
}
use mac_os_memory_benchmark.CommandLine.General.Parsed.{IsParsed, parse_general_arguments-IsParsed}

abbrev laptop : Platform
laptop = record {
  cpu_name = codes "M4";
  macos_version = codes "15";
  performance_cores = 4;
  efficiency_cores = 6;
  total_logical_cores = 10;
  l1_cache_size = 131072;
  l2_cache_size = 16777216;
  generated_seed = 7;
}

-- More threads are asked for than there are cores.
abbrev many_threads : List Bytes
many_threads = codes "--benchmark" ∷ codes "-t" ∷ codes "16" ∷ codes "-i" ∷ codes "5" ∷ []

abbrev ten_threads : BenchmarkConfig
ten_threads = record (prepare laptop none default_config) {
  run_benchmark = true;
  iterations = 5;
  user_specified_iterations = true;
  num_threads = 10;
  user_specified_threads = true;
  benchmark_seed = 7;
}

many_threads_parse : parse_general_arguments laptop many_threads default_config ≡ ok ten_threads
unfolding parse_general_arguments finish_outcome finish_parse finish_seed finish_locality
    finish_threads finish_buffer_size with_platform with_caches set_cache_size prepare
    find_cache_size parse_options end_of_arguments take_value set_flag set_value number_in has_seen
    argument_of scan_digits scan_number scanned parse_strict_signed_decimal
    parse_signed_decimal_or_throw parse_strict_unsigned_decimal parse_unsigned_decimal_or_throw
    is_option same_bytes
many_threads_parse = refl

parse_general_arguments-IsParsed_example : IsParsed laptop ten_threads
parse_general_arguments-IsParsed_example =
    parse_general_arguments-IsParsed laptop many_threads ten_threads many_threads_parse
