-- ===== src/Validation.antt =====
-- The validation of a parsed configuration: src/core/config/config_validator.cpp. A function that
-- prints a message and returns EXIT_FAILURE returns the message as an error; warnings are left out.
pub mod Sweep
pub mod Memory
pub mod Arguments
pub mod Limit
pub mod Again
pub mod Tlb
mod Tests
use mac_os_memory_benchmark.Common.{
  ℕ, ◌/◌, ◌%◌, Bool, true, false, ◌&&◌, ◌||◌, not, List, [], ◌∷◌, ltb, ◌==◌, if◌then◌else◌, length,
  mul_size,
}
use mac_os_memory_benchmark.Common.Bytes.{Bytes}
use mac_os_memory_benchmark.Common.Int.{ℤ, pos, pos_part, is_positive}
use mac_os_memory_benchmark.Common.Results.{Result, ok, err, ◌>>=◌, ◌>>◌, fail_if}
use mac_os_memory_benchmark.Config.{
  LatencyChainMode, SweepParameter, SweepValue, SweepSpec, BenchmarkConfig, bytes_per_mb,
  resolve_latency_chain_mode, latency_chain_mode_uses_locality,
}
use mac_os_memory_benchmark.Config.SweepText.{cartesian_run_count_from}

-- What the validator asks of the machine. `memory_limit mb` is
-- `static_cast<unsigned long>(mb * MEMORY_LIMIT_FACTOR)`, a floating-point product.
pub record Machine : Type 0 where
  pub page_size : ℕ
  pub available_memory_mb : ℕ
  pub memory_limit : ℕ → ℕ

pub data ConfigError : Type 0 where
  latency_stride_invalid latency_stride_alignment stride_exceeds_page : ConfigError
  sweep_requires_parameter sweep_requires_output duplicate_sweep_parameter : ConfigError
  sweep_parameter_not_allowed global_random_unsupported sweep_too_many_runs : ConfigError
  seed_requires_supported_mode chain_mode_requires_locality incompatible_flags : ConfigError
  only_flags_with_patterns only_flags_require_benchmark : ConfigError
  only_bandwidth_with_cache_size only_bandwidth_with_latency_samples : ConfigError
  only_latency_with_iterations buffer_stride_invalid_latency_chain : ConfigError
  cache_size_zero_requires_only_latency buffersize_zero_requires_only_latency : ConfigError
  only_latency_requires_latency_target latency_tlb_locality_page_multiple : ConfigError
  latency_tlb_locality_too_small_for_stride buffer_size_calculation : ConfigError
  buffer_size_too_small : ConfigError

abbrev pub Checked : Type 0 → Type 0
Checked A = Result ConfigError A

-- sizeof(uintptr_t)
abbrev pub pointer_bytes : ℕ
pointer_bytes = 8

pub validate_analyze_tlb_stride : ℕ → ℕ → Checked (Unit {0})
validate_analyze_tlb_stride stride_bytes page_size_bytes = do
  fail_if (stride_bytes == 0) latency_stride_invalid
  fail_if (not (stride_bytes % pointer_bytes == 0)) latency_stride_alignment
  fail_if (ltb page_size_bytes stride_bytes) stride_exceeds_page

-- The enumerator's value.
abbrev pub parameter_value : SweepParameter → ℕ
parameter_value SweepParameter.buffer_size_mb = 0
parameter_value SweepParameter.cache_size_kb = 1
parameter_value SweepParameter.threads = 2
parameter_value SweepParameter.latency_tlb_locality_kb = 3
parameter_value SweepParameter.latency_stride_bytes = 4
parameter_value SweepParameter.latency_chain_mode = 5
parameter_value SweepParameter.tlb_density = 6

infix 50 ◌is◌
abbrev pub ◌is◌ : SweepParameter → SweepParameter → Bool
a is b = parameter_value a == parameter_value b

pub sweep_parameter_allowed : BenchmarkConfig → SweepParameter → Bool
sweep_parameter_allowed c parameter =
    if c.analyze_tlb
    then parameter is SweepParameter.latency_stride_bytes
      || parameter is SweepParameter.latency_chain_mode
      || parameter is SweepParameter.tlb_density
    else if c.run_patterns
    then parameter is SweepParameter.buffer_size_mb || parameter is SweepParameter.threads
    else if c.only_bandwidth
    then parameter is SweepParameter.buffer_size_mb || parameter is SweepParameter.threads
    else if c.only_latency
    then parameter is SweepParameter.buffer_size_mb
      || parameter is SweepParameter.cache_size_kb
      || parameter is SweepParameter.latency_tlb_locality_kb
      || parameter is SweepParameter.latency_stride_bytes
      || parameter is SweepParameter.latency_chain_mode
    else parameter is SweepParameter.buffer_size_mb
      || parameter is SweepParameter.cache_size_kb
      || parameter is SweepParameter.threads
      || parameter is SweepParameter.latency_tlb_locality_kb
      || parameter is SweepParameter.latency_stride_bytes
      || parameter is SweepParameter.latency_chain_mode

abbrev pub is_global_random : LatencyChainMode → Bool
is_global_random LatencyChainMode.global_random = true
is_global_random _ = false

pub validate_chain_mode_values : List SweepValue → Checked (Unit {0})
validate_chain_mode_values [] = ok tt
validate_chain_mode_values (value ∷ values) = do
  fail_if (is_global_random value.latency_chain_mode) global_random_unsupported
  validate_chain_mode_values values

pub validate_stride_values : ℕ → List SweepValue → Checked (Unit {0})
validate_stride_values page_size [] = ok tt
validate_stride_values page_size (value ∷ values) = do
  fail_if (not (is_positive value.integer_value)) latency_stride_invalid
  validate_analyze_tlb_stride (pos_part value.integer_value) page_size
  validate_stride_values page_size values

-- `std::set<SweepParameter>` as the list of what was inserted.
pub is_seen : SweepParameter → List SweepParameter → Bool
is_seen parameter [] = false
is_seen parameter (other ∷ others) = parameter is other || is_seen parameter others

abbrev pub when_so : Bool → Checked (Unit {0}) → Checked (Unit {0})
when_so true check = check
when_so false check = ok tt

-- One round of the loop over the specs, and the loop.
pub validate_sweep_spec : ℕ → BenchmarkConfig → SweepSpec → List SweepParameter → Checked (Unit {0})
validate_sweep_spec page_size c spec seen = do
  fail_if (is_seen spec.parameter seen) duplicate_sweep_parameter
  fail_if (not (sweep_parameter_allowed c spec.parameter)) sweep_parameter_not_allowed
  when_so (c.analyze_tlb && (spec.parameter is SweepParameter.latency_chain_mode))
      (validate_chain_mode_values spec.values)
  when_so (c.analyze_tlb && (spec.parameter is SweepParameter.latency_stride_bytes))
      (validate_stride_values page_size spec.values)

pub validate_sweep_specs :
    ℕ → BenchmarkConfig → List SweepSpec → List SweepParameter → Checked (Unit {0})
validate_sweep_specs page_size c [] seen = ok tt
validate_sweep_specs page_size c (spec ∷ specs) seen = do
  validate_sweep_spec page_size c spec seen
  validate_sweep_specs page_size c specs (spec.parameter ∷ seen)

pub calculate_sweep_run_count_from_specs : List SweepSpec → ℕ
calculate_sweep_run_count_from_specs specs =
    cartesian_run_count_from (λ (spec : SweepSpec). length spec.values) specs 1

abbrev pub no_specs : List SweepSpec → Bool
no_specs [] = true
no_specs (spec ∷ specs) = false

abbrev pub no_text : Bytes → Bool
no_text [] = true
no_text (b ∷ bs) = false

-- The block under `if (config.run_sweep)`.
pub validate_sweep : ℕ → BenchmarkConfig → Checked (Unit {0})
validate_sweep page_size c = do
  fail_if (no_specs c.sweep_specs) sweep_requires_parameter
  fail_if (no_text c.output_file) sweep_requires_output
  validate_sweep_specs page_size c c.sweep_specs []
  let run_count = calculate_sweep_run_count_from_specs c.sweep_specs
  fail_if (run_count == 0 || ltb c.sweep_max_runs run_count) sweep_too_many_runs

pub validate_seed_flags : BenchmarkConfig → Checked (Unit {0})
validate_seed_flags c = do
  fail_if (c.user_specified_pattern_seed && not c.run_patterns) seed_requires_supported_mode
  fail_if (c.user_specified_benchmark_seed && not c.run_benchmark) seed_requires_supported_mode

pub validate_latency_stride : BenchmarkConfig → Checked (Unit {0})
validate_latency_stride c = do
  fail_if (c.latency_stride_bytes == 0) latency_stride_invalid
  fail_if (not (c.latency_stride_bytes % pointer_bytes == 0)) latency_stride_alignment

-- `chain_mode_uses_locality`
pub uses_locality : BenchmarkConfig → Bool
uses_locality c =
    latency_chain_mode_uses_locality
      (resolve_latency_chain_mode c.latency_chain_mode c.latency_tlb_locality_bytes)

pub validate_mode_flags : BenchmarkConfig → Checked (Unit {0})
validate_mode_flags c = do
  fail_if (uses_locality c && c.latency_tlb_locality_bytes == 0) chain_mode_requires_locality
  fail_if (c.only_bandwidth && c.only_latency) incompatible_flags
  fail_if (c.run_patterns && (c.only_bandwidth || c.only_latency)) only_flags_with_patterns
  fail_if ((not c.run_benchmark && not c.run_patterns) && (c.only_bandwidth || c.only_latency))
      only_flags_require_benchmark
  fail_if (c.only_bandwidth && c.use_custom_cache_size) only_bandwidth_with_cache_size
  fail_if (c.only_bandwidth && c.user_specified_latency_samples) only_bandwidth_with_latency_samples
  fail_if (c.only_latency && c.user_specified_iterations) only_latency_with_iterations

-- A cache that is measured holds two pointers.
abbrev pub lacks_pointers : BenchmarkConfig → ℕ → Bool
lacks_pointers c size = ltb 0 size && ltb (size / c.latency_stride_bytes) 2

pub validate_cache_pointers : BenchmarkConfig → Checked (Unit {0})
validate_cache_pointers c = do
  fail_if
      (not c.only_bandwidth
        && (c.use_custom_cache_size && lacks_pointers c c.custom_cache_size_bytes))
      buffer_stride_invalid_latency_chain
  fail_if
      (not c.only_bandwidth && (not c.use_custom_cache_size && lacks_pointers c c.l1_cache_size))
      buffer_stride_invalid_latency_chain
  fail_if
      (not c.only_bandwidth && (not c.use_custom_cache_size && lacks_pointers c c.l2_cache_size))
      buffer_stride_invalid_latency_chain

abbrev pub is_zero : ℤ → Bool
is_zero (pos n) = n == 0
is_zero _ = false

pub validate_zero_sizes : BenchmarkConfig → Checked (Unit {0})
validate_zero_sizes c = do
  fail_if (is_zero c.custom_cache_size_kb_ll && not c.only_latency)
      cache_size_zero_requires_only_latency
  fail_if (c.buffer_size_mb == 0 && not c.only_latency) buffersize_zero_requires_only_latency
  fail_if (c.only_latency && (is_zero c.custom_cache_size_kb_ll && c.buffer_size_mb == 0))
      only_latency_requires_latency_target

pub validate_locality : ℕ → BenchmarkConfig → Checked (Unit {0})
validate_locality page_size c = do
  fail_if
      (uses_locality c
        && (ltb 0 c.latency_tlb_locality_bytes
            && not (c.latency_tlb_locality_bytes % page_size == 0)))
      latency_tlb_locality_page_multiple
  fail_if
      (uses_locality c
        && (ltb 0 c.latency_tlb_locality_bytes
            && ltb (c.latency_tlb_locality_bytes / c.latency_stride_bytes) 2))
      latency_tlb_locality_too_small_for_stride

-- FALLBACK_TOTAL_LIMIT_MB and MINIMUM_LIMIT_MB_PER_BUFFER
abbrev pub fallback_total_limit_mb : ℕ
fallback_total_limit_mb = 2048

abbrev pub minimum_limit_mb_per_buffer : ℕ
minimum_limit_mb_per_buffer = 64

pub max_total_mb : Machine → ℕ
max_total_mb m =
    if ltb 0 m.available_memory_mb
    then m.memory_limit m.available_memory_mb
    else fallback_total_limit_mb

pub max_allowed_mb_per_buffer : Machine → Bool → ℕ
max_allowed_mb_per_buffer m only_latency =
    let share = max_total_mb m / (if only_latency then 1 else 2) in
    if ltb share minimum_limit_mb_per_buffer then minimum_limit_mb_per_buffer else share

pub cap_buffer_size_mb : Machine → BenchmarkConfig → ℕ
cap_buffer_size_mb m c =
    if ltb (max_allowed_mb_per_buffer m c.only_latency) c.buffer_size_mb
    then max_allowed_mb_per_buffer m c.only_latency
    else c.buffer_size_mb

-- The part after the checks of the arguments, for the capped size: the checks of the final size.
pub limit_to : Machine → BenchmarkConfig → ℕ → Checked BenchmarkConfig
limit_to m c mb = do
  let size = mul_size mb bytes_per_mb
  fail_if (ltb 0 mb && (size == 0 || not (size / bytes_per_mb == mb))) buffer_size_calculation
  fail_if (ltb 0 mb && (ltb size m.page_size || ltb (size / c.latency_stride_bytes) 2))
      buffer_size_too_small
  ok (record c { max_total_allowed_mb = max_total_mb m; buffer_size_mb = mb; buffer_size = size })

pub apply_memory_limit : Machine → BenchmarkConfig → Checked BenchmarkConfig
apply_memory_limit m c = limit_to m c (cap_buffer_size_mb m c)

pub validate_arguments : ℕ → BenchmarkConfig → Checked (Unit {0})
validate_arguments page_size c = do
  validate_seed_flags c
  validate_latency_stride c
  validate_mode_flags c
  validate_cache_pointers c
  validate_zero_sizes c
  validate_locality page_size c

-- The part after the sweep.
pub validate_mode : Machine → BenchmarkConfig → Bool → Checked BenchmarkConfig
validate_mode m c true = do validate_analyze_tlb_stride c.latency_stride_bytes m.page_size; ok c
validate_mode m c false = do validate_arguments m.page_size c; apply_memory_limit m c

pub validate_config : Machine → BenchmarkConfig → Checked BenchmarkConfig
validate_config m c = do
  when_so c.run_sweep (validate_sweep m.page_size c)
  validate_mode m c c.analyze_tlb
