-- ===== src/Buffers.antt =====
-- The sizes of the cache buffers and the accesses of the latency tests:
-- src/core/config/buffer_calculator.cpp. Messages on std::cout and std::cerr are left out: none of
-- them changes what is computed.
pub mod Sized
mod Tests
use mac_os_memory_benchmark.Common.{
  ℕ, ◌*◌, ◌/◌, ◌≤◌, Bool, ◌&&◌, ltb, leb, ◌==◌, if◌then◌else◌, size_max, mul_size,
}
use mac_os_memory_benchmark.Config.{BenchmarkConfig}

abbrev pub default_latency_stride_bytes : ℕ
default_latency_stride_bytes = 256

abbrev pub base_latency_accesses : ℕ
base_latency_accesses = 200 * 1000 * 1000

-- The floating-point operations of the two functions.
pub record Scaling : Type 1 where
  pub Double : Type 0
  -- `static_cast<size_t>(size * 1.0)`, for the factors of L1 and L2
  pub scale_cache_size : ℕ → ℕ
  -- `static_cast<size_t>(1.0)`
  pub cache_factor : ℕ
  -- `BASE_LATENCY_ACCESSES * (static_cast<double>(mb) / DEFAULT_BUFFER_SIZE_MB)`
  pub scaled_accesses : ℕ → Double
  -- `scaled > static_cast<double>(SIZE_MAX)`, `scaled < 0` and `static_cast<size_t>(scaled)`
  pub exceeds_size_max : Double → Bool
  pub is_negative : Double → Bool
  pub to_size : Double → ℕ

pub latency_stride : BenchmarkConfig → ℕ
latency_stride c =
    if ltb 0 c.latency_stride_bytes then c.latency_stride_bytes else default_latency_stride_bytes

-- Room for two pointers.
pub min_latency_buffer_size : ℕ → ℕ
min_latency_buffer_size stride = if leb stride (size_max / 2) then mul_size stride 2 else size_max

-- The roundings that each of the three buffer sizes goes through, in order.
pub round_to_stride : ℕ → ℕ → ℕ
round_to_stride stride size =
    if leb stride size then mul_size (size / stride) stride else min_latency_buffer_size stride

pub raise_to_minimum : ℕ → ℕ → ℕ
raise_to_minimum stride size =
    if ltb size (min_latency_buffer_size stride) then min_latency_buffer_size stride else size

pub raise_to_page : ℕ → ℕ → ℕ
raise_to_page page_size size = if ltb size page_size then page_size else size

pub replace_zero : ℕ → ℕ → ℕ
replace_zero stride size = if size == 0 then min_latency_buffer_size stride else size

pub fit_buffer_size : ℕ → ℕ → ℕ → ℕ
fit_buffer_size page_size stride size =
    replace_zero stride
      (raise_to_page page_size (raise_to_minimum stride (round_to_stride stride size)))

module _ (fp : Scaling) where
  open fp use {
    scale_cache_size, cache_factor, scaled_accesses, exceeds_size_max, is_negative, to_size,
  }

  -- The first size of the buffer of a cache level.
  pub level_buffer_size : ℕ → ℕ
  level_buffer_size cache_size =
      if ltb 0 cache_size && (ltb 0 cache_factor && ltb (size_max / cache_factor) cache_size)
      then size_max
      else scale_cache_size cache_size

  pub calculate_buffer_sizes : ℕ → BenchmarkConfig → BenchmarkConfig
  calculate_buffer_sizes page_size c =
      let fit = fit_buffer_size page_size (latency_stride c) in
      if c.use_custom_cache_size
      then (if c.custom_cache_size_bytes == 0
          then record c { custom_buffer_size = 0 }
          else record c { custom_buffer_size = fit c.custom_cache_size_bytes })
      else record c {
        l1_buffer_size = fit (level_buffer_size c.l1_cache_size);
        l2_buffer_size = fit (level_buffer_size c.l2_cache_size);
      }

  pub scaled_access_count : ℕ → ℕ
  scaled_access_count buffer_size_mb =
      let scaled = scaled_accesses buffer_size_mb in
      if exceeds_size_max scaled
      then size_max
      else if is_negative scaled
      then base_latency_accesses
      else to_size scaled

  pub calculate_access_counts : BenchmarkConfig → BenchmarkConfig
  calculate_access_counts c =
      if c.buffer_size_mb == 0
      then record c { lat_num_accesses = 0 }
      else if scaled_access_count c.buffer_size_mb == 0
      then record c { lat_num_accesses = base_latency_accesses }
      else record c { lat_num_accesses = scaled_access_count c.buffer_size_mb }
