-- ===== src/CommandLine/Tlb.antt =====
-- The options of the TLB analysis, and the choice between the two parts: `parse_arguments` of
-- src/core/config/argument_parser.cpp.
pub mod Parsed
mod Tests
use mac_os_memory_benchmark.Common.{
  ℕ, ◌%◌, Bool, true, false, ◌&&◌, ◌||◌, not, List, [], ◌∷◌, ◌++◌, Option, none, some, ◌==◌,
  if◌then◌else◌,
}
use mac_os_memory_benchmark.Common.Bytes.{Bytes, is_text}
use mac_os_memory_benchmark.Common.Results.{Result, ok, err, ◌>>=◌, ◌>>◌, fail_if}
use mac_os_memory_benchmark.Config.{LatencyChainMode, TlbSweepDensity, BenchmarkConfig}
use mac_os_memory_benchmark.CommandLine.{
  ValueError, latency_stride_invalid, count_invalid, density_invalid,
  parse_unsigned_decimal_or_throw, is_option, latency_chain_mode_from_string,
  tlb_sweep_density_from_string,
}
use mac_os_memory_benchmark.CommandLine.Specs.{parse_sweep_spec}
use mac_os_memory_benchmark.CommandLine.Options.{
  ValueOption, ParseError, duplicate_option, missing_value, analyze_tlb_must_be_used_alone,
  latency_stride_alignment, analyze_tlb_global_random_unsupported,
}
use mac_os_memory_benchmark.CommandLine.Platform.{Platform}
use mac_os_memory_benchmark.CommandLine.General.{
  Checked, has_seen, of_value, number_in, bad_positive, or_invalid_mode, parse_general_arguments,
}

-- Some argument is the selector of the mode.
pub analyze_tlb_present : List Bytes → Bool
analyze_tlb_present [] = false
analyze_tlb_present (arg ∷ args) = is_option arg "-T" "--analyze-tlb" || analyze_tlb_present args

pub data TlbArgument : Type 0 where
  selector unknown : TlbArgument
  takes_value : ValueOption → TlbArgument

pub tlb_argument_of : Bytes → TlbArgument
tlb_argument_of arg =
    if is_option arg "-T" "--analyze-tlb"
    then selector
    else if is_option arg "-o" "--output"
    then takes_value ValueOption.output
    else if is_option arg "-S" "--sweep"
    then takes_value ValueOption.sweep
    else if is_option arg "-X" "--sweep-max-runs"
    then takes_value ValueOption.sweep_max_runs
    else if is_option arg "-s" "--latency-stride-bytes"
    then takes_value ValueOption.latency_stride
    else if is_option arg "-m" "--latency-chain-mode"
    then takes_value ValueOption.latency_chain_mode
    else if is_option arg "-D" "--tlb-density"
    then takes_value ValueOption.tlb_density
    else if is_text arg "--seed"
    then takes_value ValueOption.seed
    else unknown

-- sizeof(void*)
abbrev pub pointer_bytes : ℕ
pointer_bytes = 8

abbrev pub is_global_random : LatencyChainMode → Bool
is_global_random LatencyChainMode.global_random = true
is_global_random _ = false

abbrev pub or_invalid_density : Option TlbSweepDensity → Result ValueError TlbSweepDensity
or_invalid_density none = err density_invalid
or_invalid_density (some density) = ok density

pub set_tlb_value : ValueOption → Bytes → BenchmarkConfig → Checked BenchmarkConfig
set_tlb_value ValueOption.output value c = ok (record c { output_file = value })
set_tlb_value ValueOption.sweep value c = do
  spec ← of_value ValueOption.sweep (parse_sweep_spec value)
  ok (record c { sweep_specs = c.sweep_specs ++ spec ∷ []; run_sweep = true })
set_tlb_value ValueOption.sweep_max_runs value c = do
  n ← of_value ValueOption.sweep_max_runs (number_in bad_positive count_invalid value)
  ok (record c { sweep_max_runs = n })
set_tlb_value ValueOption.latency_stride value c = do
  n ← of_value ValueOption.latency_stride (number_in bad_positive latency_stride_invalid value)
  fail_if (not (n % pointer_bytes == 0)) latency_stride_alignment
  ok (record c { latency_stride_bytes = n })
set_tlb_value ValueOption.latency_chain_mode value c = do
  mode ←
      of_value ValueOption.latency_chain_mode
        (or_invalid_mode (latency_chain_mode_from_string value))
  fail_if (is_global_random mode) analyze_tlb_global_random_unsupported
  ok (record c { latency_chain_mode = mode })
set_tlb_value ValueOption.tlb_density value c = do
  density ←
      of_value ValueOption.tlb_density (or_invalid_density (tlb_sweep_density_from_string value))
  ok (record c { tlb_sweep_density = density })
set_tlb_value ValueOption.seed value c = do
  n ← of_value ValueOption.seed (parse_unsigned_decimal_or_throw value)
  ok (record c { tlb_seed = n; user_specified_tlb_seed = true })
set_tlb_value _ value c = ok c

abbrev pub tlb_stands_once : ValueOption → Bool
tlb_stands_once ValueOption.sweep = false
tlb_stands_once _ = true

-- The loop. The list holds the options whose `…_seen` flag is set.
pub parse_tlb_options :
    List Bytes → Option ValueOption → List ValueOption → BenchmarkConfig → Checked BenchmarkConfig
parse_tlb_options [] none seen c = ok c
parse_tlb_options [] (some option) seen c = err (missing_value option)
parse_tlb_options (value ∷ args) (some option) seen c = do
  d ← set_tlb_value option value c
  parse_tlb_options args none (option ∷ seen) d
parse_tlb_options (arg ∷ args) none seen c = elim (tlb_argument_of arg) [
  | selector ↦ parse_tlb_options args none seen c
  | takes_value option ↦ do
    fail_if (tlb_stands_once option && has_seen option seen) (duplicate_option option)
    parse_tlb_options args (some option) seen c
  | unknown ↦ err analyze_tlb_must_be_used_alone
]

-- `if (!seed_seen)`: a seed that was seen is a seed that the user specified.
pub finish_tlb : Platform → BenchmarkConfig → BenchmarkConfig
finish_tlb s c = record c {
  tlb_seed = if c.user_specified_tlb_seed then c.tlb_seed else s.generated_seed;
  cpu_name = s.cpu_name;
  macos_version = s.macos_version;
  perf_cores = s.performance_cores;
  eff_cores = s.efficiency_cores;
}

-- DEFAULT_ANALYZE_TLB_SWEEP_MAX_RUNS
abbrev pub default_analyze_tlb_sweep_max_runs : ℕ
default_analyze_tlb_sweep_max_runs = 16

abbrev pub start_tlb : BenchmarkConfig → BenchmarkConfig
start_tlb c = record c {
  analyze_tlb = true;
  tlb_sweep_density = TlbSweepDensity.medium;
  sweep_max_runs = default_analyze_tlb_sweep_max_runs;
}

pub parse_tlb_arguments : Platform → List Bytes → BenchmarkConfig → Checked BenchmarkConfig
parse_tlb_arguments s args c = do
  parsed ← parse_tlb_options args none [] (start_tlb c)
  ok (finish_tlb s parsed)

pub parse_arguments : Platform → List Bytes → BenchmarkConfig → Checked BenchmarkConfig
parse_arguments s args c =
    if analyze_tlb_present args
    then parse_tlb_arguments s args c
    else parse_general_arguments s args c
