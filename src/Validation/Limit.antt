-- ===== src/Validation/Limit.antt =====
-- Which configurations pass, and what the memory limit changes.
use mac_os_memory_benchmark.Common.{
  ℕ, ◌*◌, ◌/◌, ◌≤◌, ◌≡◌, ◌⊎◌, ◌↔◌, arith, refl, Bool, true, false, not, ◌&&◌, ◌||◌, ltb, ◌==◌,
  if◌then◌else◌, size_max, mul_size, mul_size_exact, ◌∙◌, ap, sym, min, max,
}
use mac_os_memory_benchmark.Common.Results.{ok, ◌>>◌, fail_if}
use mac_os_memory_benchmark.Config.{BenchmarkConfig, bytes_per_mb}
use mac_os_memory_benchmark.Validation.{
  Machine, max_total_mb, max_allowed_mb_per_buffer, cap_buffer_size_mb, limit_to,
  minimum_limit_mb_per_buffer, buffer_size_calculation, buffer_size_too_small, apply_memory_limit,
  validate_arguments, validate_config, when_so, validate_sweep, validate_mode,
}
use mac_os_memory_benchmark.Validation.Arguments.{
  then-ok, HasMode, HasSizes, two_fit, arguments_iff,
}

-- The limit on the main buffer, in megabytes: the share of the total that the buffers of the mode
-- have each, or the minimum.
abbrev pub buffer_limit : Machine → BenchmarkConfig → ℕ
buffer_limit m c =
    max minimum_limit_mb_per_buffer (max_total_mb m / (if c.only_latency then 1 else 2))

cap_min :
    (m : Machine) (c : BenchmarkConfig)
    → cap_buffer_size_mb m c ≡ min c.buffer_size_mb (buffer_limit m c)
unfolding cap_buffer_size_mb max_allowed_mb_per_buffer
cap_min m c = ground arith

abbrev sized_config : Machine → BenchmarkConfig → ℕ → BenchmarkConfig
sized_config m c mb = record c {
  max_total_allowed_mb = max_total_mb m;
  buffer_size_mb = mb;
  buffer_size = mb * bytes_per_mb;
}

-- The configuration after the limit.
abbrev pub limited_config : Machine → BenchmarkConfig → BenchmarkConfig
limited_config m c = sized_config m c (min c.buffer_size_mb (buffer_limit m c))

-- The main buffer is off, or it fits `size_t` and has a page and two pointers.
pub record HasBuffer (m : Machine) (c : BenchmarkConfig) : Type 0 where
  pub fits : min c.buffer_size_mb (buffer_limit m c) * bytes_per_mb ≤ size_max
  pub holds :
      (c.buffer_size_mb ≡ 0)
      ⊎ ((m.page_size ≤ min c.buffer_size_mb (buffer_limit m c) * bytes_per_mb)
          × (2 * c.latency_stride_bytes ≤ min c.buffer_size_mb (buffer_limit m c) * bytes_per_mb))

-- The consistency check of the product finds every overflow.
overflow_check_iff :
    (mb : ℕ)
    → ((ltb 0 mb
          && (mul_size mb bytes_per_mb == 0 || not (mul_size mb bytes_per_mb / bytes_per_mb == mb)))
        ≡ false)
      ↔ (mb * bytes_per_mb ≤ size_max)
overflow_check_iff mb = ground arith

too_small_iff :
    (page_size stride mb size : ℕ)
    → 1 ≤ stride
    → ((ltb 0 mb && (ltb size page_size || ltb (size / stride) 2)) ≡ false)
      ↔ ((mb ≡ 0) ⊎ ((page_size ≤ size) × (2 * stride ≤ size)))
too_small_iff page_size stride mb size h = ground (arith, two_fit size stride h)

-- The checks with the size as a variable.
checks-ok :
    (test test' : Bool) (result c' : BenchmarkConfig)
    → ((fail_if test buffer_size_calculation >> (fail_if test' buffer_size_too_small >> ok result))
        ≡ ok c')
      ↔ ((test ≡ false) × (test' ≡ false) × (result ≡ c'))
checks-ok true test' result c' = ground arith
checks-ok false true result c' = ground arith
checks-ok false false result c' = (λ e. (refl, refl, ground arith), λ k. ap ok k.2)

limit_to-ok :
    (m : Machine) (c c' : BenchmarkConfig) (mb : ℕ)
    → 1 ≤ c.latency_stride_bytes
    → (limit_to m c mb ≡ ok c') ↔ (
        (mb * bytes_per_mb ≤ size_max)
        × ((mb ≡ 0)
            ⊎ ((m.page_size ≤ mb * bytes_per_mb)
                × (2 * c.latency_stride_bytes ≤ mb * bytes_per_mb)))
        × (sized_config m c mb ≡ c'))
unfolding limit_to
limit_to-ok m c c' mb h =
    let size = mul_size mb bytes_per_mb in
    let checks =
      checks-ok _ _
        (record c {
          max_total_allowed_mb = max_total_mb m;
          buffer_size_mb = mb;
          buffer_size = size;
        })
        c' in
    let small = too_small_iff m.page_size c.latency_stride_bytes mb size h in
    let with_size = λ (n : ℕ). record c {
      max_total_allowed_mb = max_total_mb m;
      buffer_size_mb = mb;
      buffer_size = n;
    } in
    (
      λ e.
          let (t, t', r) = checks.0 e in
          let fits = (overflow_check_iff mb).0 t in
          let exact = mul_size_exact mb bytes_per_mb fits in
          (fits, ground (arith, small.0 t', exact), ap with_size (sym exact) ∙ r),
      λ k.
          let exact = mul_size_exact mb bytes_per_mb k.0 in
          checks.1 (
            (overflow_check_iff mb).1 k.0,
            small.1 (ground (arith, k.1, exact)),
            ap with_size exact ∙ k.2,
          ),
    )

-- Every check passes, and the configuration is changed by the limit only.
pub record IsAccepted (m : Machine) (c c' : BenchmarkConfig) : Type 0 where
  pub mode : HasMode c
  pub sizes : HasSizes m.page_size c
  pub buffer : HasBuffer m c
  pub changed : limited_config m c ≡ c'

limit-IsAccepted :
    (m : Machine) (c c' : BenchmarkConfig)
    → 1 ≤ c.latency_stride_bytes
    → (apply_memory_limit m c ≡ ok c') ↔ (HasBuffer m c × (limited_config m c ≡ c'))
unfolding apply_memory_limit
limit-IsAccepted m c c' h =
    let capped = cap_min m c in
    let step = limit_to-ok m c c' (min c.buffer_size_mb (buffer_limit m c)) h in
    rw capped (
      λ e.
          let (fits, holds, changed) = step.0 e in
          (record { fits = fits; holds = ground (arith, holds) }, changed),
      λ k. step.1 (k.0.fits, ground (arith, k.0.holds), k.1),
    )

-- The part after the sweep, outside the TLB analysis.
pub validate_mode_iff :
    (m : Machine) (c c' : BenchmarkConfig) → (validate_mode m c false ≡ ok c') ↔ IsAccepted m c c'
unfolding validate_mode
validate_mode_iff m c c' =
    let parts = then-ok (validate_arguments m.page_size c) (apply_memory_limit m c) c' in
    (
      λ e.
          let (first, second) = parts.0 e in
          let (mode, sizes) = (arguments_iff m.page_size c).0 first in
          let (buffer, changed) = (limit-IsAccepted m c c' sizes.stride_positive).0 second in
          record { mode = mode; sizes = sizes; buffer = buffer; changed = changed },
      λ a. parts.1 (
        (arguments_iff m.page_size c).1 (a.mode, a.sizes),
        (limit-IsAccepted m c c' a.sizes.stride_positive).1 (a.buffer, a.changed),
      ),
    )

plain_validation :
    (m : Machine) (c : BenchmarkConfig) (sweep tlb : Bool)
    → sweep ≡ false
    → tlb ≡ false
    → (when_so sweep (validate_sweep m.page_size c) >> validate_mode m c tlb)
      ≡ validate_mode m c false
plain_validation m c true tlb s t = cc
plain_validation m c false true s t = cc
plain_validation m c false false s t = refl

-- A configuration that is neither a sweep nor for the TLB analysis passes just when its flags go
-- together, its sizes suit the stride and the page, and its main buffer, capped by the limit, fits
-- `size_t` and holds a page and two pointers or is off; the validation sets the limit and the
-- capped size of the main buffer, and changes nothing else.
pub validate_config_iff :
    (m : Machine) (c c' : BenchmarkConfig)
    → c.analyze_tlb ≡ false
    → c.run_sweep ≡ false
    → (validate_config m c ≡ ok c') ↔ IsAccepted m c c'
unfolding validate_config
validate_config_iff m c c' no_tlb no_sweep =
    let plain = plain_validation m c c.run_sweep c.analyze_tlb no_sweep no_tlb in
    let mode = validate_mode_iff m c c' in (λ e. mode.0 (sym plain ∙ e), λ a. plain ∙ mode.1 a)
