-- ===== src/CommandLine/Specs.antt =====
-- The specs of a sweep: `parse_sweep_spec` of src/core/config/argument_parser.cpp.
pub mod Ranges
mod Tests
use mac_os_memory_benchmark.Common.{
  ℕ, ◌/◌, Bool, true, false, ◌&&◌, ◌||◌, not, List, [], ◌∷◌, Option, none, some, ltb, if◌then◌else◌,
  int_max, size_max,
}
use mac_os_memory_benchmark.Common.Bytes.{Bytes}
use mac_os_memory_benchmark.Common.Int.{ℤ, pos, negsuc, is_positive}
use mac_os_memory_benchmark.Common.Results.{Result, ok, err, ◌>>=◌, ◌>>◌, fail_if}
use mac_os_memory_benchmark.Config.{
  LatencyChainMode, TlbSweepDensity, SweepParameter, SweepValue, SweepSpec, bytes_per_kb,
}
use mac_os_memory_benchmark.Config.SweepText.{ParsedSweepText, SweepTextError, parse_sweep_text}
use mac_os_memory_benchmark.CommandLine.{
  ValueError, buffersize_invalid, cache_size_invalid, threads_invalid, latency_tlb_locality_invalid,
  latency_stride_invalid, latency_chain_mode_invalid, density_invalid, unsupported_sweep_parameter,
  sweep_text, parse_signed_decimal_or_throw, latency_chain_mode_from_string,
  tlb_sweep_density_from_string, sweep_parameter_from_string,
}

abbrev pub min_cache_size_kb : ℕ
min_cache_size_kb = 16

abbrev pub max_cache_size_kb : ℕ
max_cache_size_kb = 1048576

abbrev pub max_locality_kb : ℕ
max_locality_kb = size_max / bytes_per_kb

-- The ranges of the numbers, by what is refused. A comparison with the largest `unsigned long`
-- refuses no `long long`.
abbrev pub bad_buffer_size : ℤ → Bool
bad_buffer_size (pos n) = ltb size_max n
bad_buffer_size (negsuc n) = true

abbrev pub bad_cache_size : ℤ → Bool
bad_cache_size (pos n) = ltb max_cache_size_kb n || (ltb 0 n && ltb n min_cache_size_kb)
bad_cache_size (negsuc n) = true

-- A positive `int`.
abbrev pub bad_count : ℤ → Bool
bad_count (pos n) = not (ltb 0 n) || ltb int_max n
bad_count (negsuc n) = true

abbrev pub bad_locality : ℤ → Bool
bad_locality (pos n) = ltb max_locality_kb n
bad_locality (negsuc n) = true

pub check_sweep_number : SweepParameter → ℤ → Result ValueError (Unit {0})
check_sweep_number SweepParameter.buffer_size_mb n = fail_if (bad_buffer_size n) buffersize_invalid
check_sweep_number SweepParameter.cache_size_kb n = fail_if (bad_cache_size n) cache_size_invalid
check_sweep_number SweepParameter.threads n = fail_if (bad_count n) threads_invalid
check_sweep_number SweepParameter.latency_tlb_locality_kb n =
    fail_if (bad_locality n) latency_tlb_locality_invalid
check_sweep_number SweepParameter.latency_stride_bytes n =
    fail_if (not (is_positive n)) latency_stride_invalid
check_sweep_number _ n = ok tt

-- `SweepValue{}` with its text
abbrev pub empty_value : Bytes → SweepValue
empty_value raw_value = record {
  raw_value = raw_value;
  integer_value = pos 0;
  latency_chain_mode = LatencyChainMode.auto;
  tlb_sweep_density = TlbSweepDensity.medium;
}

pub chain_mode_value : Bytes → Option LatencyChainMode → Result ValueError SweepValue
chain_mode_value raw none = err latency_chain_mode_invalid
chain_mode_value raw (some mode) = ok (record (empty_value raw) { latency_chain_mode = mode })

pub density_value : Bytes → Option TlbSweepDensity → Result ValueError SweepValue
density_value raw none = err density_invalid
density_value raw (some density) = ok (record (empty_value raw) { tlb_sweep_density = density })

pub number_value : SweepParameter → Bytes → Result ValueError SweepValue
number_value parameter raw = do
  parsed ← parse_signed_decimal_or_throw raw
  check_sweep_number parameter parsed
  ok (record (empty_value raw) { integer_value = parsed })

pub parse_sweep_value : SweepParameter → Bytes → Result ValueError SweepValue
parse_sweep_value SweepParameter.latency_chain_mode raw =
    chain_mode_value raw (latency_chain_mode_from_string raw)
parse_sweep_value SweepParameter.tlb_density raw =
    density_value raw (tlb_sweep_density_from_string raw)
parse_sweep_value parameter raw = number_value parameter raw

pub parse_sweep_values : SweepParameter → List Bytes → Result ValueError (List SweepValue)
parse_sweep_values parameter [] = ok []
parse_sweep_values parameter (raw ∷ raws) = do
  value ← parse_sweep_value parameter raw
  values ← parse_sweep_values parameter raws
  ok (value ∷ values)

abbrev pub lift_text : Result SweepTextError ParsedSweepText → Result ValueError ParsedSweepText
lift_text (ok p) = ok p
lift_text (err e) = err (sweep_text e)

abbrev pub or_unsupported : Option SweepParameter → Result ValueError SweepParameter
or_unsupported none = err unsupported_sweep_parameter
or_unsupported (some p) = ok p

pub parse_sweep_spec : Bytes → Result ValueError SweepSpec
parse_sweep_spec spec_text = do
  text ← lift_text (parse_sweep_text spec_text)
  parameter ← or_unsupported (sweep_parameter_from_string text.key)
  values ← parse_sweep_values parameter text.values
  ok (record { parameter = parameter; parameter_name = text.key; values = values })
