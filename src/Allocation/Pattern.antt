-- ===== src/Allocation/Pattern.antt =====
-- The bytes of the two pattern buffers.
use mac_os_memory_benchmark.Common.{◌*◌, ◌/◌, ◌≤◌, ◌≡◌, ◌≢◌, arith, size_max}
use mac_os_memory_benchmark.Common.Results.{ok}
use mac_os_memory_benchmark.Config.{BenchmarkConfig, bytes_per_mb}
use mac_os_memory_benchmark.Allocation.{calculate_pattern_allocation_bytes, validate_memory_limit}
use mac_os_memory_benchmark.Allocation.Phases.{doubled_lem}

pub pattern_bytes :
    (c : BenchmarkConfig)
    → c.buffer_size ≢ 0
    → c.buffer_size * 2 ≤ size_max
    → c.buffer_size * 2 / bytes_per_mb ≤ c.max_total_allowed_mb
    → calculate_pattern_allocation_bytes c ≡ ok (c.buffer_size * 2)
unfolding calculate_pattern_allocation_bytes validate_memory_limit
pattern_bytes c some_buffer fits within = ground (arith, doubled_lem c.buffer_size)
