-- ===== src/CommandLine/Options.antt =====
-- The options and the errors of `parse_arguments`: src/core/config/argument_parser.cpp.
use mac_os_memory_benchmark.Common.{ℕ, if◌then◌else◌}
use mac_os_memory_benchmark.Common.Bytes.{Bytes, is_text}
use mac_os_memory_benchmark.CommandLine.{ValueError, is_option}

-- The options that take a value.
pub data ValueOption : Type 0 where
  iterations buffer_size count latency_samples latency_stride latency_chain_mode : ValueOption
  latency_tlb_locality cache_size sweep sweep_max_runs output seed threads tlb_density : ValueOption

abbrev pub option_number : ValueOption → ℕ
option_number iterations = 0
option_number buffer_size = 1
option_number count = 2
option_number latency_samples = 3
option_number latency_stride = 4
option_number latency_chain_mode = 5
option_number latency_tlb_locality = 6
option_number cache_size = 7
option_number sweep = 8
option_number sweep_max_runs = 9
option_number output = 10
option_number seed = 11
option_number threads = 12
option_number tlb_density = 13

pub data Flag : Type 0 where
  benchmark patterns non_cacheable only_bandwidth only_latency : Flag

pub data Argument : Type 0 where
  takes_value : ValueOption → Argument
  flag : Flag → Argument
  help unknown : Argument

pub data ParseError : Type 0 where
  duplicate_option missing_value : ValueOption → ParseError
  invalid_value : ValueOption → ValueError → ParseError
  unknown_option : Bytes → ParseError
  mutually_exclusive_modes analyze_tlb_must_be_used_alone : ParseError
  latency_stride_alignment analyze_tlb_global_random_unsupported : ParseError

-- The chain of `else if` over the argument.
unfoldable pub argument_of : Bytes → Argument
argument_of arg =
    if is_option arg "-i" "--iterations"
    then takes_value iterations
    else if is_option arg "-b" "--buffer-size"
    then takes_value buffer_size
    else if is_option arg "-r" "--count"
    then takes_value count
    else if is_option arg "-n" "--latency-samples"
    then takes_value latency_samples
    else if is_option arg "-s" "--latency-stride-bytes"
    then takes_value latency_stride
    else if is_option arg "-m" "--latency-chain-mode"
    then takes_value latency_chain_mode
    else if is_option arg "-l" "--latency-tlb-locality-kb"
    then takes_value latency_tlb_locality
    else if is_option arg "-k" "--cache-size"
    then takes_value cache_size
    else if is_option arg "-S" "--sweep"
    then takes_value sweep
    else if is_option arg "-X" "--sweep-max-runs"
    then takes_value sweep_max_runs
    else if is_option arg "-o" "--output"
    then takes_value output
    else if is_text arg "--seed"
    then takes_value seed
    else if is_option arg "-B" "--benchmark"
    then flag benchmark
    else if is_option arg "-P" "--patterns"
    then flag patterns
    else if is_option arg "-u" "--non-cacheable"
    then flag non_cacheable
    else if is_option arg "-W" "--only-bandwidth"
    then flag only_bandwidth
    else if is_option arg "-L" "--only-latency"
    then flag only_latency
    else if is_option arg "-t" "--threads"
    then takes_value threads
    else if is_option arg "-h" "--help"
    then help
    else unknown
