-- ===== src/Allocation/Tests.antt =====
-- The peak of a benchmark of 512 MB.
use mac_os_memory_benchmark.Common.{◌*◌, ◌≡◌, ◌↔◌, refl, arith, true}
use mac_os_memory_benchmark.Common.Results.{ok}
use mac_os_memory_benchmark.Numeric.{checked_add, checked_multiply}
use mac_os_memory_benchmark.Config.{BenchmarkConfig, default_config, bytes_per_mb}
use mac_os_memory_benchmark.Allocation.{
  validate_main_buffer_size_for_bandwidth, validate_memory_limit, calculate_doubled_bytes,
  add_to_phase_bytes, add_doubled_to_phase_bytes, update_peak, peak_of_phase, main_bandwidth_peak,
  main_latency_peak, custom_cache_peak, doubled_levels, single_levels, level_cache_peak, cache_peak,
  calculate_peak_allocation_bytes, calculate_total_allocation_bytes,
}
use mac_os_memory_benchmark.Allocation.Peak.{IsPeak, calculate_total_allocation_bytes_iff}

abbrev half_gigabyte : BenchmarkConfig
half_gigabyte = record default_config {
  run_benchmark = true;
  buffer_size = 512 * bytes_per_mb;
  l1_buffer_size = 131072;
  l2_buffer_size = 16 * bytes_per_mb;
  max_total_allowed_mb = 2048;
}

half_gigabyte_peak : calculate_total_allocation_bytes half_gigabyte ≡ ok (1024 * bytes_per_mb)
unfolding calculate_total_allocation_bytes calculate_peak_allocation_bytes cache_peak
    level_cache_peak single_levels doubled_levels custom_cache_peak main_latency_peak
    main_bandwidth_peak peak_of_phase update_peak add_doubled_to_phase_bytes add_to_phase_bytes
    calculate_doubled_bytes validate_memory_limit validate_main_buffer_size_for_bandwidth
    checked_add checked_multiply
half_gigabyte_peak = refl

calculate_total_allocation_bytes_iff_example :
    (calculate_total_allocation_bytes half_gigabyte ≡ ok (1024 * bytes_per_mb))
    ↔ IsPeak half_gigabyte (1024 * bytes_per_mb)
calculate_total_allocation_bytes_iff_example =
    calculate_total_allocation_bytes_iff half_gigabyte (1024 * bytes_per_mb) (omega arith)
