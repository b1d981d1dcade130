-- ===== src/Validation/Memory.antt =====
-- What the limit on the main buffer leaves for the allocation of the pattern buffers.
use mathlib.Core.Path.{subst}
use mac_os_memory_benchmark.Common.{ℕ, ◌*◌, ◌/◌, ◌≤◌, ◌≡◌, ◌≢◌, arith, true, false, size_max, min}
use mac_os_memory_benchmark.Common.Results.{ok}
use mac_os_memory_benchmark.Config.{BenchmarkConfig, bytes_per_mb}
use mac_os_memory_benchmark.Allocation.{calculate_pattern_allocation_bytes}
use mac_os_memory_benchmark.Allocation.Pattern.{pattern_bytes}
use mac_os_memory_benchmark.Validation.{
  Machine, max_total_mb, minimum_limit_mb_per_buffer, validate_config,
}
use mac_os_memory_benchmark.Validation.Limit.{buffer_limit, limited_config, validate_config_iff}

-- Twice a size in megabytes that is at most half of the limit is within the limit.
doubled_within : (mb total : ℕ) → mb * 2 ≤ total → mb * bytes_per_mb * 2 / bytes_per_mb ≤ total
doubled_within mb total h = omega arith

half_limit :
    (m : Machine) (c : BenchmarkConfig)
    → c.only_latency ≡ false
    → 2 * minimum_limit_mb_per_buffer ≤ max_total_mb m
    → min c.buffer_size_mb (buffer_limit m c) * 2 ≤ max_total_mb m
half_limit m c both h = ground arith

-- A pattern command, without a sweep, that passed the validation passes the check of the allocation
-- too, if the machine's limit is 128 MB or more and fits `size_t` in bytes: the two pattern buffers
-- take twice the main buffer. The minimum of a buffer can exceed half of a smaller limit.
pub validate_config-allocates :
    (m : Machine) (c c' : BenchmarkConfig)
    → c.analyze_tlb ≡ false
    → c.run_sweep ≡ false
    → c.run_patterns ≡ true
    → 2 * minimum_limit_mb_per_buffer ≤ max_total_mb m
    → max_total_mb m * bytes_per_mb ≤ size_max
    → validate_config m c ≡ ok c'
    → calculate_pattern_allocation_bytes c' ≡ ok (c'.buffer_size * 2)
validate_config-allocates m c c' no_tlb no_sweep patterns enough fits e =
    let valid = (validate_config_iff m c c' no_tlb no_sweep).0 e in
    let both : c.only_latency ≡ false = ground (arith, valid.mode.only_latency) in
    let half = half_limit m c both enough in
    let some_size : c.buffer_size_mb ≢ 0 = ground (arith, valid.sizes.main_target) in
    let capped : min c.buffer_size_mb (buffer_limit m c) ≢ 0 = ground arith in
    subst (λ k. calculate_pattern_allocation_bytes k ≡ ok (k.buffer_size * 2)) valid.changed
      (pattern_bytes (limited_config m c) (omega arith) (omega arith)
        (doubled_within (min c.buffer_size_mb (buffer_limit m c)) (max_total_mb m) half))
