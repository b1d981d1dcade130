-- ===== src/Buffers/Sized.antt =====
-- The buffers hold two pointers and a page, and are no larger than their cache unless these need
-- it.
use native.Mathlib.Nat.{div-add-mod, mod-lt}
use mac_os_memory_benchmark.Common.{
  ℕ, ◌+◌, ◌*◌, ◌/◌, ◌%◌, ◌≤◌, ◌<◌, ◌≡◌, ◌⊎◌, arith, Bool, true, false, leb, max, ◌==◌,
  if◌then◌else◌, size_max, ◌^◌, ap, ◌∙◌, refl,
}
use mac_os_memory_benchmark.Common.Division.{mul-mod_left}
use mac_os_memory_benchmark.Config.{BenchmarkConfig}
use mac_os_memory_benchmark.Buffers.{
  Scaling, latency_stride, min_latency_buffer_size, round_to_stride, raise_to_minimum,
  raise_to_page, replace_zero, fit_buffer_size, level_buffer_size, calculate_buffer_sizes,
}

-- A buffer for a cache of a given size: room for two pointers and a page; whole strides, unless the
-- page is what it was raised to; no larger than the cache, unless two pointers or a page are; and
-- less than a stride of the cache is left out.
pub record IsSized (page_size stride cache_size size : ℕ) : Type 0 where
  pub two_pointers : 2 * stride ≤ size
  pub a_page : page_size ≤ size
  pub whole_strides : (size % stride ≡ 0) ⊎ (size ≡ page_size)
  pub in_cache : size ≤ max cache_size (max (2 * stride) page_size)
  pub fills : cache_size < size + stride

mul_swap : (a b : ℕ) → a * b ≡ b * a
mul_swap a b = grind arith

mul-mod_right : (q k : ℕ) → (k * q) % q ≡ 0
mul-mod_right q k = ap (λ n. n % q) (mul_swap k q) ∙ mul-mod_left q k

round_to_stride_lem :
    (stride size : ℕ)
    → 1 ≤ stride
    → 2 * stride ≤ size_max
    → size ≤ size_max
    → round_to_stride stride size ≡ (if leb stride size then size / stride * stride else 2 * stride)
unfolding round_to_stride min_latency_buffer_size
round_to_stride_lem stride size h hs hc = ground (arith, div-add-mod size stride)

-- Rounding alone, as facts that hold of the number.
record IsRounded (stride size r : ℕ) : Type 0 where
  whole : r % stride ≡ 0
  below : r ≤ max size (2 * stride)
  fills : size < r + stride

round_to_stride-IsRounded :
    (stride size : ℕ)
    → 1 ≤ stride
    → 2 * stride ≤ size_max
    → size ≤ size_max
    → IsRounded stride size (round_to_stride stride size)
round_to_stride-IsRounded stride size h hs hc =
    let e = round_to_stride_lem stride size h hs hc in
    let whole_quotient : (size / stride * stride) % stride ≡ 0 =
      mul-mod_right stride (size / stride) in
    let whole_two : (2 * stride) % stride ≡ 0 = mul-mod_right stride 2 in
    record {
      whole = ground (arith, e, whole_quotient, whole_two);
      below = ground (arith, e, div-add-mod size stride);
      fills = ground (arith, e, div-add-mod size stride, mod-lt size {m = stride});
    }

fitted_lem :
    (page_size stride r : ℕ)
    → 1 ≤ stride
    → 2 * stride ≤ size_max
    → replace_zero stride (raise_to_page page_size (raise_to_minimum stride r))
      ≡ max (max r (2 * stride)) page_size
unfolding replace_zero raise_to_page raise_to_minimum min_latency_buffer_size
fitted_lem page_size stride r h hs = ground arith

pub fit_buffer_size-IsSized :
    (page_size stride cache_size : ℕ)
    → 1 ≤ stride
    → 2 * stride ≤ size_max
    → cache_size ≤ size_max
    → IsSized page_size stride cache_size (fit_buffer_size page_size stride cache_size)
unfolding fit_buffer_size
fit_buffer_size-IsSized page_size stride cache_size h hs hc =
    let rounded = round_to_stride-IsRounded stride cache_size h hs hc in
    let fitted = fitted_lem page_size stride (round_to_stride stride cache_size) h hs in
    let whole_two : (2 * stride) % stride ≡ 0 = mul-mod_right stride 2 in
    record {
      two_pointers = ground (arith, fitted);
      a_page = ground (arith, fitted);
      whole_strides = ground (arith, fitted, rounded.whole, whole_two);
      in_cache = ground (arith, fitted, rounded.below);
      fills = ground (arith, fitted, rounded.fills);
    }

-- What the calculation leaves in the configuration.
abbrev AreSizedBy : Bool → Bool → ℕ → ℕ → BenchmarkConfig → BenchmarkConfig → Type 0
AreSizedBy custom zero_size page_size stride c after =
    if custom
    then (if zero_size
        then after.custom_buffer_size ≡ 0
        else IsSized page_size stride c.custom_cache_size_bytes after.custom_buffer_size)
    else (IsSized page_size stride c.l1_cache_size after.l1_buffer_size
        × IsSized page_size stride c.l2_cache_size after.l2_buffer_size)

abbrev pub AreSized : ℕ → ℕ → BenchmarkConfig → BenchmarkConfig → Type 0
AreSized page_size stride c =
    AreSizedBy c.use_custom_cache_size (c.custom_cache_size_bytes == 0) page_size stride c

-- The branches of the calculation, with the sizes computed.
branches-AreSized :
    (custom zero_size : Bool) (page_size stride : ℕ) (c : BenchmarkConfig) (custom_size l1 l2 : ℕ)
    → IsSized page_size stride c.custom_cache_size_bytes custom_size
    → IsSized page_size stride c.l1_cache_size l1
    → IsSized page_size stride c.l2_cache_size l2
    → AreSizedBy custom zero_size page_size stride c (
        if custom
        then (if zero_size
            then record c { custom_buffer_size = 0 }
            else record c { custom_buffer_size = custom_size })
        else record c { l1_buffer_size = l1; l2_buffer_size = l2 })
branches-AreSized true true page_size stride c custom_size l1 l2 hc h1 h2 = refl
branches-AreSized true false page_size stride c custom_size l1 l2 hc h1 h2 = hc
branches-AreSized false zero_size page_size stride c custom_size l1 l2 hc h1 h2 = (h1, h2)

latency_stride_lem :
    (c : BenchmarkConfig) → 1 ≤ c.latency_stride_bytes → latency_stride c ≡ c.latency_stride_bytes
unfolding latency_stride
latency_stride_lem c h = ground arith

fitted_at :
    (page_size stride' stride size' size : ℕ)
    → stride' ≡ stride
    → size' ≡ size
    → 1 ≤ stride
    → 2 * stride ≤ size_max
    → size ≤ size_max
    → IsSized page_size stride size (fit_buffer_size page_size stride' size')
fitted_at page_size stride' stride size' size e f h hs hc =
    rw e (rw f (fit_buffer_size-IsSized page_size stride size h hs hc))

level_buffer_size_lem :
    (fp : Scaling) (cache_size : ℕ)
    → cache_size ≤ size_max
    → fp.cache_factor ≡ 1
    → fp.scale_cache_size cache_size ≡ cache_size
    → level_buffer_size fp cache_size ≡ cache_size
unfolding level_buffer_size
level_buffer_size_lem fp cache_size h one exact = ground (arith, ap (λ n. size_max / n) one)

-- Where a factor of 1.0 leaves the sizes of the caches as they are, every cache buffer has room
-- for two pointers and a page, is a multiple of the stride unless it is the page size itself, is no
-- larger than its cache unless two pointers or a page are, and leaves out less than a stride of the
-- cache; a custom cache of size 0 has no buffer.
pub calculate_buffer_sizes-AreSized :
    (fp : Scaling) (page_size : ℕ) (c : BenchmarkConfig)
    → fp.cache_factor ≡ 1
    → ((n : ℕ) → n ≤ 2 ^ 53 → fp.scale_cache_size n ≡ n)
    → 1 ≤ c.latency_stride_bytes
    → 2 * c.latency_stride_bytes ≤ size_max
    → c.custom_cache_size_bytes ≤ size_max
    → c.l1_cache_size ≤ 2 ^ 53
    → c.l2_cache_size ≤ 2 ^ 53
    → AreSized page_size c.latency_stride_bytes c (calculate_buffer_sizes fp page_size c)
unfolding calculate_buffer_sizes
calculate_buffer_sizes-AreSized fp page_size c one exact h hs hc h1 h2 =
    let same : latency_stride c ≡ c.latency_stride_bytes = latency_stride_lem c h in
    let level = λ (n : ℕ) (k : n ≤ 2 ^ 53).
      fitted_at page_size _ _ _ n same (level_buffer_size_lem fp n (omega arith) one (exact n k)) h
        hs (omega arith) in
    branches-AreSized c.use_custom_cache_size (c.custom_cache_size_bytes == 0) page_size
      c.latency_stride_bytes c _ _ _ (fitted_at page_size _ _ _ _ same refl h hs hc)
      (level c.l1_cache_size h1) (level c.l2_cache_size h2)
