-- ===== src/Validation/Arguments.antt =====
-- Which flags and sizes of a configuration pass.
use mac_os_memory_benchmark.Common.{
  ℕ, ◌*◌, ◌/◌, ◌%◌, ◌≤◌, ◌≡◌, ◌≢◌, ◌⊎◌, ◌↔◌, arith, Bool, true, false,
}
use mac_os_memory_benchmark.Common.Results.{ok, err, ◌>>◌, fail_if}
use mac_os_memory_benchmark.Config.{BenchmarkConfig}
use mac_os_memory_benchmark.Validation.{
  ConfigError, Checked, pointer_bytes, validate_seed_flags, validate_latency_stride, uses_locality,
  validate_mode_flags, validate_cache_pointers, is_zero, validate_zero_sizes, validate_locality,
  validate_arguments,
}

pub then-ok :
    {B : Type 0} (first : Checked (Unit {0})) (next : Checked B) (b : B)
    → ((first >> next) ≡ ok b) ↔ ((first ≡ ok tt) × (next ≡ ok b))
then-ok (ok u) next b = ground arith
then-ok (err e) next b = ground arith

pub guard-ok :
    (test : Bool) (e : ConfigError) (u : Unit {0}) → (fail_if test e ≡ ok u) ↔ (test ≡ false)
guard-ok true e u = ground arith
guard-ok false e u = ground arith

-- The seeds and the flags go together.
pub record HasMode (c : BenchmarkConfig) : Type 0 where
  pub pattern_seed : (c.user_specified_pattern_seed ≡ false) ⊎ (c.run_patterns ≡ true)
  pub benchmark_seed : (c.user_specified_benchmark_seed ≡ false) ⊎ (c.run_benchmark ≡ true)
  pub locality : (uses_locality c ≡ false) ⊎ (c.latency_tlb_locality_bytes ≢ 0)
  pub one_only : (c.only_bandwidth ≡ false) ⊎ (c.only_latency ≡ false)
  pub only_bandwidth :
      (c.only_bandwidth ≡ false) ⊎ ((c.run_benchmark ≡ true) × (c.run_patterns ≡ false))
  pub only_latency :
      (c.only_latency ≡ false) ⊎ ((c.run_benchmark ≡ true) × (c.run_patterns ≡ false))
  pub no_cache : (c.only_bandwidth ≡ false) ⊎ (c.use_custom_cache_size ≡ false)
  pub no_samples : (c.only_bandwidth ≡ false) ⊎ (c.user_specified_latency_samples ≡ false)
  pub no_iterations : (c.only_latency ≡ false) ⊎ (c.user_specified_iterations ≡ false)

seed_flags_iff :
    (c : BenchmarkConfig)
    → (validate_seed_flags c ≡ ok tt) ↔ (
        ((c.user_specified_pattern_seed ≡ false) ⊎ (c.run_patterns ≡ true))
        × ((c.user_specified_benchmark_seed ≡ false) ⊎ (c.run_benchmark ≡ true)))
unfolding validate_seed_flags
seed_flags_iff c = ground arith

mode_iff :
    (c : BenchmarkConfig)
    → ((validate_seed_flags c ≡ ok tt) × (validate_mode_flags c ≡ ok tt)) ↔ HasMode c
unfolding validate_mode_flags
mode_iff c = (
  λ h. ground (arith, (seed_flags_iff c).0 h.0),
  λ h. (ground (arith, (seed_flags_iff c).1), ground arith),
)

-- No cache, or one that holds two pointers.
abbrev pub HoldsTwo : ℕ → ℕ → Type 0
HoldsTwo stride size = (size ≡ 0) ⊎ (2 * stride ≤ size)

pub two_fit : (size stride : ℕ) → 1 ≤ stride → (2 ≤ size / stride) ↔ (2 * stride ≤ size)
two_fit size stride h = (λ k. grind arith, λ k. grind arith)

-- The sizes suit the stride and the page.
pub record HasSizes (page_size : ℕ) (c : BenchmarkConfig) : Type 0 where
  pub stride_positive : 1 ≤ c.latency_stride_bytes
  pub stride_aligned : c.latency_stride_bytes % pointer_bytes ≡ 0
  pub custom_pointers :
      (c.only_bandwidth ≡ true)
      ⊎ ((c.use_custom_cache_size ≡ false)
          ⊎ HoldsTwo c.latency_stride_bytes c.custom_cache_size_bytes)
  pub l1_pointers :
      (c.only_bandwidth ≡ true)
      ⊎ ((c.use_custom_cache_size ≡ true) ⊎ HoldsTwo c.latency_stride_bytes c.l1_cache_size)
  pub l2_pointers :
      (c.only_bandwidth ≡ true)
      ⊎ ((c.use_custom_cache_size ≡ true) ⊎ HoldsTwo c.latency_stride_bytes c.l2_cache_size)
  pub cache_target :
      (is_zero c.custom_cache_size_kb_ll ≡ false)
      ⊎ ((c.only_latency ≡ true) × (c.buffer_size_mb ≢ 0))
  pub main_target :
      (c.buffer_size_mb ≢ 0)
      ⊎ ((c.only_latency ≡ true) × (is_zero c.custom_cache_size_kb_ll ≡ false))
  pub locality_pages :
      (uses_locality c ≡ false)
      ⊎ ((c.latency_tlb_locality_bytes ≡ 0) ⊎ (c.latency_tlb_locality_bytes % page_size ≡ 0))
  pub locality_pointers :
      (uses_locality c ≡ false)
      ⊎ ((c.latency_tlb_locality_bytes ≡ 0)
          ⊎ (2 * c.latency_stride_bytes ≤ c.latency_tlb_locality_bytes))

sizes_iff :
    (page_size : ℕ) (c : BenchmarkConfig)
    → ((validate_latency_stride c ≡ ok tt)
        × (validate_cache_pointers c ≡ ok tt)
        × (validate_zero_sizes c ≡ ok tt)
        × (validate_locality page_size c ≡ ok tt))
      ↔ HasSizes page_size c
unfolding validate_latency_stride validate_cache_pointers validate_zero_sizes validate_locality
sizes_iff page_size c =
    let fit =
      λ (size : ℕ) (h : 1 ≤ c.latency_stride_bytes). two_fit size c.latency_stride_bytes h in
    (
      λ h. ground (
        arith,
        fit c.custom_cache_size_bytes,
        fit c.l1_cache_size,
        fit c.l2_cache_size,
        fit c.latency_tlb_locality_bytes,
      ),
      λ h. (
        ground arith,
        ground (
          arith,
          fit c.custom_cache_size_bytes h.stride_positive,
          fit c.l1_cache_size h.stride_positive,
          fit c.l2_cache_size h.stride_positive,
        ),
        ground arith,
        ground (arith, fit c.latency_tlb_locality_bytes h.stride_positive),
      ),
    )

pub arguments_iff :
    (page_size : ℕ) (c : BenchmarkConfig)
    → (validate_arguments page_size c ≡ ok tt) ↔ (HasMode c × HasSizes page_size c)
unfolding validate_arguments
arguments_iff page_size c = ground (arith, mode_iff c, sizes_iff page_size c)
