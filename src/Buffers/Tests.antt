-- ===== src/Buffers/Tests.antt =====
-- The buffers of an L1 cache of 128 KB and an L2 cache of 16 MB.
use mac_os_memory_benchmark.Common.{ℕ, ◌*◌, ◌≡◌, refl, arith, false}
use mac_os_memory_benchmark.Config.{BenchmarkConfig, default_config}
use mac_os_memory_benchmark.Buffers.{
  Scaling, min_latency_buffer_size, round_to_stride, raise_to_minimum, raise_to_page, replace_zero,
  fit_buffer_size, calculate_buffer_sizes,
}
use mac_os_memory_benchmark.Buffers.Sized.{AreSized, calculate_buffer_sizes-AreSized}

-- The operations at the numbers that a double holds exactly.
abbrev exact_scaling : Scaling
exact_scaling = record {
  Double = ℕ;
  scale_cache_size = λ n. n;
  cache_factor = 1;
  scaled_accesses = λ mb. mb * 390625;
  exceeds_size_max = λ n. false;
  is_negative = λ n. false;
  to_size = λ n. n;
}

abbrev two_caches : BenchmarkConfig
two_caches = record default_config { l1_cache_size = 131072; l2_cache_size = 16777216 }

odd_stride : fit_buffer_size 16384 24 16384 ≡ 16384
unfolding fit_buffer_size replace_zero raise_to_page raise_to_minimum round_to_stride
    min_latency_buffer_size
odd_stride = refl

calculate_buffer_sizes-AreSized_example :
    AreSized 16384 256 two_caches (calculate_buffer_sizes exact_scaling 16384 two_caches)
calculate_buffer_sizes-AreSized_example =
    calculate_buffer_sizes-AreSized exact_scaling 16384 two_caches refl (λ n h. refl) (omega arith)
      (omega arith) (omega arith) (omega arith) (omega arith)
