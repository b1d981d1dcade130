-- ===== src/CommandLine/General.antt =====
-- The options of the standard and the pattern mode: the part of `parse_arguments` of
-- src/core/config/argument_parser.cpp after the TLB analysis. An exception is an error value; usage
-- texts and warnings are left out. A loop over argv that takes the next argument with `++i` is a
-- recursion on the arguments left, with the option that waits for its value.
pub mod Settings
pub mod Sound
pub mod Parsed
mod Tests
use Prim.Native.String.{String}
use mac_os_memory_benchmark.Common.{
  ℕ, zero, ◌*◌, Bool, true, false, ◌&&◌, ◌||◌, not, List, [], ◌∷◌, ◌++◌, Option, none, some, ltb,
  ◌==◌, if◌then◌else◌, mul_size,
}
use mac_os_memory_benchmark.Common.Bytes.{Bytes, is_text}
use mac_os_memory_benchmark.Common.Int.{ℤ, pos, negsuc, pos_part, is_positive, to_size}
use mac_os_memory_benchmark.Common.Results.{Result, ok, err, ◌>>=◌, ◌>>◌, fail_if}
use mac_os_memory_benchmark.Config.{LatencyChainMode, SweepSpec, BenchmarkConfig, bytes_per_kb}
use mac_os_memory_benchmark.CommandLine.{
  ValueError, buffersize_invalid, cache_size_invalid, latency_tlb_locality_invalid,
  latency_stride_invalid, count_invalid, latency_chain_mode_invalid, parse_signed_decimal_or_throw,
  parse_unsigned_decimal_or_throw, is_option, latency_chain_mode_from_string,
}
use mac_os_memory_benchmark.CommandLine.Options.{
  ValueOption, option_number, Flag, Argument, ParseError, argument_of,
  analyze_tlb_global_random_unsupported, analyze_tlb_must_be_used_alone, benchmark, buffer_size,
  cache_size, count, duplicate_option, flag, help, invalid_value, iterations, latency_chain_mode,
  latency_samples, latency_stride, latency_stride_alignment, latency_tlb_locality, missing_value,
  mutually_exclusive_modes, non_cacheable, only_bandwidth, only_latency, output, patterns, seed,
  sweep, sweep_max_runs, takes_value, threads, tlb_density, unknown, unknown_option,
}
use mac_os_memory_benchmark.CommandLine.Platform.{
  Platform, set_cache_size, with_caches, with_platform, finish_buffer_size, finish_threads,
  finish_locality, finish_seed, prepare,
}
use mac_os_memory_benchmark.CommandLine.Specs.{
  bad_buffer_size, bad_cache_size, bad_count, bad_locality, parse_sweep_spec,
}

-- The configuration with the locals of the function: `none` is -1, the list holds the options whose
-- `…_seen` flag is set.
pub record Parse : Type 0 where
  pub config : BenchmarkConfig
  pub seen : List ValueOption
  pub requested_buffer_size_mb : Option ℕ
  pub requested_threads : Option ℕ
  pub requested_latency_tlb_locality_kb : Option ℕ
  pub parsed_general_seed : Option ℕ

abbrev pub Checked : Type 0 → Type 0
Checked A = Result ParseError A

unfoldable pub has_seen : ValueOption → List ValueOption → Bool
has_seen option [] = false
has_seen option (other ∷ others) =
    option_number option == option_number other || has_seen option others

abbrev pub of_value : {A : Type 0} → ValueOption → Result ValueError A → Checked A
of_value option (ok a) = ok a
of_value option (err e) = err (invalid_value option e)

-- A number that passes its range test.
unfoldable pub number_in : (ℤ → Bool) → ValueError → Bytes → Result ValueError ℕ
number_in bad error value = do
  n ← parse_signed_decimal_or_throw value
  fail_if (bad n) error
  ok (pos_part n)

abbrev pub bad_positive : ℤ → Bool
bad_positive n = not (is_positive n)

abbrev pub or_invalid_mode : Option LatencyChainMode → Result ValueError LatencyChainMode
or_invalid_mode none = err latency_chain_mode_invalid
or_invalid_mode (some mode) = ok mode

-- What an option does with its value.
pub set_value : ValueOption → Bytes → Parse → Result ValueError Parse
set_value iterations value p = do
  n ← number_in bad_count count_invalid value
  ok (record p { config = record p.config { iterations = n; user_specified_iterations = true } })
set_value buffer_size value p = do
  n ← number_in bad_buffer_size buffersize_invalid value
  ok (record p { requested_buffer_size_mb = some n })
set_value count value p = do
  n ← number_in bad_count count_invalid value
  ok (record p { config = record p.config { loop_count = n } })
set_value latency_samples value p = do
  n ← number_in bad_count count_invalid value
  ok (record p {
    config = record p.config { latency_sample_count = n; user_specified_latency_samples = true };
  })
set_value latency_stride value p = do
  n ← number_in bad_positive latency_stride_invalid value
  ok (record p { config = record p.config { latency_stride_bytes = n } })
set_value latency_chain_mode value p = do
  mode ← or_invalid_mode (latency_chain_mode_from_string value)
  ok (record p { config = record p.config { latency_chain_mode = mode } })
set_value latency_tlb_locality value p = do
  n ← number_in bad_locality latency_tlb_locality_invalid value
  ok (record p {
    requested_latency_tlb_locality_kb = some n;
    config = record p.config { user_specified_latency_tlb_locality = true };
  })
set_value sweep value p = do
  spec ← parse_sweep_spec value
  ok (record p {
    config = record p.config { sweep_specs = p.config.sweep_specs ++ spec ∷ []; run_sweep = true };
  })
set_value sweep_max_runs value p = do
  n ← number_in bad_positive count_invalid value
  ok (record p { config = record p.config { sweep_max_runs = n } })
set_value output value p = ok (record p { config = record p.config { output_file = value } })
set_value seed value p = do
  n ← parse_unsigned_decimal_or_throw value
  ok (record p { parsed_general_seed = some n })
set_value threads value p = do
  n ← number_in bad_count count_invalid value
  ok (record p { requested_threads = some n })
set_value _ value p = ok p

pub set_flag : Flag → BenchmarkConfig → Checked BenchmarkConfig
set_flag benchmark c = do
  fail_if c.run_patterns mutually_exclusive_modes
  ok (record c { run_benchmark = true })
set_flag patterns c = do
  fail_if c.run_benchmark mutually_exclusive_modes
  ok (record c { run_patterns = true })
set_flag non_cacheable c = ok (record c { use_non_cacheable = true })
set_flag only_bandwidth c = ok (record c { only_bandwidth = true })
set_flag only_latency c = ok (record c { only_latency = true })

-- The options that may stand once. The cache size is tested in the first pass.
abbrev pub stands_once : ValueOption → Bool
stands_once cache_size = false
stands_once sweep = false
stands_once _ = true

abbrev pub mark_seen : ValueOption → Parse → Parse
mark_seen option p = record p { seen = option ∷ p.seen }

pub take_value : ValueOption → Bytes → Parse → Checked Parse
take_value option value p = do
  q ← of_value option (set_value option value p)
  ok (mark_seen option q)

-- Help ends the parse with success.
pub data Outcome : Type 0 where
  help_printed : BenchmarkConfig → Outcome
  parsed : Parse → Outcome

-- The end of argv, where an option may wait for its value.
pub end_of_arguments : Option ValueOption → Parse → Checked Outcome
end_of_arguments none p = ok (parsed p)
end_of_arguments (some cache_size) p = ok (parsed p)
end_of_arguments (some option) p = err (missing_value option)

-- The second pass.
pub parse_options : List Bytes → Option ValueOption → Parse → Checked Outcome
parse_options [] waiting p = end_of_arguments waiting p
parse_options (value ∷ args) (some option) p = do
  q ← take_value option value p
  parse_options args none q
parse_options (arg ∷ args) none p = elim (argument_of arg) [
  | takes_value option ↦ do
    fail_if (stands_once option && has_seen option p.seen) (duplicate_option option)
    parse_options args (some option) p
  | flag f ↦ do c ← set_flag f p.config; parse_options args none (record p { config = c })
  | help ↦ ok (help_printed (record p.config { help_printed = true }))
  | unknown ↦ err (unknown_option arg)
]

-- The first pass: the cache size in kilobytes, if it is given.
pub find_cache_size : List Bytes → Bool → Option ℕ → Checked (Option ℕ)
find_cache_size [] true found = err (missing_value cache_size)
find_cache_size [] false found = ok found
find_cache_size (value ∷ args) true found = do
  n ← of_value cache_size (number_in bad_cache_size cache_size_invalid value)
  find_cache_size args false (some n)
find_cache_size (arg ∷ args) false none =
    find_cache_size args (is_option arg "-k" "--cache-size") none
find_cache_size (arg ∷ args) false (some n) = do
  fail_if (is_option arg "-k" "--cache-size") (duplicate_option cache_size)
  find_cache_size args false (some n)

pub finish_parse : Platform → Parse → BenchmarkConfig
finish_parse s p = finish_seed s.generated_seed p.parsed_general_seed (
    finish_locality p.requested_latency_tlb_locality_kb (
      finish_threads s.total_logical_cores p.requested_threads
        (finish_buffer_size p.requested_buffer_size_mb p.config)))

pub finish_outcome : Platform → Outcome → BenchmarkConfig
finish_outcome s (help_printed c) = c
finish_outcome s (parsed p) = finish_parse s p

abbrev pub start_parse : BenchmarkConfig → Parse
start_parse c = record {
  config = c;
  seen = [];
  requested_buffer_size_mb = none;
  requested_threads = none;
  requested_latency_tlb_locality_kb = none;
  parsed_general_seed = none;
}

-- The arguments after the program's name.
pub parse_general_arguments : Platform → List Bytes → BenchmarkConfig → Checked BenchmarkConfig
parse_general_arguments s args c = do
  cache_size_kb ← find_cache_size args false none
  outcome ← parse_options args none (start_parse (prepare s cache_size_kb c))
  ok (finish_outcome s outcome)
