-- ===== src/CommandLine.antt =====
-- The integers of the command line, and the words of the chain modes, the densities and the sweep
-- parameters: src/core/config/argument_parser.cpp and src/core/memory/memory_utils.cpp.
pub mod Decimals
pub mod Specs
pub mod Options
pub mod Platform
pub mod General
pub mod Tlb
pub mod Modes
mod Tests
use Prim.Native.String.{String}
use mac_os_memory_benchmark.Common.{
  ℕ, zero, suc, ◌+◌, ◌-◌, ◌*◌, ◌^◌, Bool, true, false, ◌&&◌, ◌||◌, List, [], ◌∷◌, map, Option, none,
  some, ltb, leb, ◌==◌, if◌then◌else◌,
}
use mac_os_memory_benchmark.Common.Bytes.{Bytes, codes, same_bytes, is_text}
use mac_os_memory_benchmark.Common.Int.{ℤ, pos, negsuc}
use mac_os_memory_benchmark.Common.Results.{Result, ok, err}
use mac_os_memory_benchmark.Config.{LatencyChainMode, TlbSweepDensity, SweepParameter}
use mac_os_memory_benchmark.Config.SweepText.{SweepTextError}

-- The text and the status of a strict parse: the value on success.
pub data StrictIntegerParse (A : Type 0) : Type 0 where
  success : A → StrictIntegerParse A
  invalid out_of_range : StrictIntegerParse A

abbrev pub is_digit : ℕ → Bool
is_digit c = leb b'0' c && leb c b'9'

-- `std::from_chars` in base 10 reads as many digits as there are, one at least: the number and the
-- rest of the text.
pub scan_digits : ℕ → Bytes → ℕ × Bytes
scan_digits number [] = (number, [])
scan_digits number (c ∷ text) =
    let rest = scan_digits (number * 10 + (c - b'0')) text in
    if is_digit c then rest else (number, c ∷ text)

pub scan_number : Bytes → Option (ℕ × Bytes)
scan_number [] = none
scan_number (c ∷ text) = if is_digit c then some (scan_digits (c - b'0') text) else none

-- The two tests of its result: out of range first, then the end of the text.
pub scanned : {A : Type 0} → ℕ → (ℕ → A) → Option (ℕ × Bytes) → StrictIntegerParse A
scanned maximum value none = invalid
scanned maximum value (some (number, rest)) =
    if ltb maximum number
    then out_of_range
    else elim rest [ [] ↦ success (value number) | _ ∷ _ ↦ invalid ]

-- std::numeric_limits of long long and uint64_t
abbrev pub long_long_max : ℕ
long_long_max = 2 ^ 63 - 1

abbrev pub uint64_max : ℕ
uint64_max = 2 ^ 64 - 1

abbrev pub negated : ℕ → ℤ
negated zero = pos 0
negated (suc n) = negsuc n

pub parse_strict_signed_decimal : Bytes → StrictIntegerParse ℤ
parse_strict_signed_decimal [] = invalid
parse_strict_signed_decimal (c ∷ text) =
    if c == b'-'
    then scanned (long_long_max + 1) negated (scan_number text)
    else scanned long_long_max pos (scan_number (c ∷ text))

pub parse_strict_unsigned_decimal : Bytes → StrictIntegerParse ℕ
parse_strict_unsigned_decimal text = scanned uint64_max (λ n. n) (scan_number text)

-- The exceptions of the parser, by what they say.
pub data ValueError : Type 0 where
  not_an_integer integer_out_of_range buffersize_invalid cache_size_invalid : ValueError
  threads_invalid latency_tlb_locality_invalid latency_stride_invalid count_invalid : ValueError
  latency_chain_mode_invalid density_invalid unsupported_sweep_parameter : ValueError
  sweep_text : SweepTextError → ValueError

abbrev pub or_throw : {A : Type 0} → StrictIntegerParse A → Result ValueError A
or_throw (success n) = ok n
or_throw invalid = err not_an_integer
or_throw out_of_range = err integer_out_of_range

pub parse_signed_decimal_or_throw : Bytes → Result ValueError ℤ
parse_signed_decimal_or_throw value = or_throw (parse_strict_signed_decimal value)

pub parse_unsigned_decimal_or_throw : Bytes → Result ValueError ℕ
parse_unsigned_decimal_or_throw value = or_throw (parse_strict_unsigned_decimal value)

pub is_option : Bytes → String → String → Bool
is_option arg short_option long_option = is_text arg short_option || is_text arg long_option

-- `std::tolower` in the C locale
abbrev to_lower : ℕ → ℕ
to_lower c = if leb b'A' c && leb c b'Z' then c + 32 else c

pub normalize_mode_token : Bytes → Bytes
normalize_mode_token = map (λ c. if c == b'-' || c == b' ' then b'_' else to_lower c)

pub latency_chain_mode_of : Bytes → Option LatencyChainMode
latency_chain_mode_of normalized =
    if is_text normalized "auto"
    then some LatencyChainMode.auto
    else if is_text normalized "global" || is_text normalized "global_random"
    then some LatencyChainMode.global_random
    else if is_text normalized "random_box" || is_text normalized "random_in_box_random_box"
    then some LatencyChainMode.random_in_box_random_box
    else if is_text normalized "same_random_in_box"
        || is_text normalized "same_random_in_box_increasing_box"
    then some LatencyChainMode.same_random_in_box_increasing_box
    else if is_text normalized "diff_random_in_box"
        || is_text normalized "diff_random_in_box_increasing_box"
    then some LatencyChainMode.diff_random_in_box_increasing_box
    else none

pub latency_chain_mode_from_string : Bytes → Option LatencyChainMode
latency_chain_mode_from_string value = latency_chain_mode_of (normalize_mode_token value)

pub latency_chain_mode_to_string : LatencyChainMode → Bytes
latency_chain_mode_to_string LatencyChainMode.auto = codes "auto"
latency_chain_mode_to_string LatencyChainMode.global_random = codes "global-random"
latency_chain_mode_to_string LatencyChainMode.random_in_box_random_box = codes "random-box"
latency_chain_mode_to_string LatencyChainMode.same_random_in_box_increasing_box =
    codes "same-random-in-box"
latency_chain_mode_to_string LatencyChainMode.diff_random_in_box_increasing_box =
    codes "diff-random-in-box"

pub tlb_sweep_density_from_string : Bytes → Option TlbSweepDensity
tlb_sweep_density_from_string value =
    if is_text value "low"
    then some TlbSweepDensity.low
    else if is_text value "medium"
    then some TlbSweepDensity.medium
    else if is_text value "high"
    then some TlbSweepDensity.high
    else none

-- The parameter of a name; the parser keeps the same text as the parameter's name.
pub sweep_parameter_from_string : Bytes → Option SweepParameter
sweep_parameter_from_string value =
    if is_text value "buffer-size"
    then some SweepParameter.buffer_size_mb
    else if is_text value "cache-size"
    then some SweepParameter.cache_size_kb
    else if is_text value "threads"
    then some SweepParameter.threads
    else if is_text value "latency-tlb-locality-kb"
    then some SweepParameter.latency_tlb_locality_kb
    else if is_text value "latency-stride-bytes"
    then some SweepParameter.latency_stride_bytes
    else if is_text value "latency-chain-mode"
    then some SweepParameter.latency_chain_mode
    else if is_text value "tlb-density"
    then some SweepParameter.tlb_density
    else none
