-- ===== src/Allocation.antt =====
-- The memory that a command needs: src/core/memory/buffer_allocator.cpp. A function that returns
-- EXIT_FAILURE, with its message on std::cerr, returns the message as an error.
pub mod Phases
pub mod Pattern
pub mod Peak
mod Tests
use mac_os_memory_benchmark.Common.{
  ℕ, ◌/◌, Bool, true, false, ◌&&◌, ◌||◌, not, Option, none, some, ltb, ◌==◌, if◌then◌else◌,
}
use mac_os_memory_benchmark.Common.Bytes.{Bytes, codes}
use mac_os_memory_benchmark.Common.Results.{Result, ok, err, ◌>>=◌, ◌>>◌, fail_if}
use mac_os_memory_benchmark.Numeric.{checked_add, checked_multiply}
use mac_os_memory_benchmark.Config.{BenchmarkConfig, bytes_per_mb}

pub data AllocationError : Type 0 where
  main_buffer_size_zero buffer_size_overflow total_memory_overflow : AllocationError
  total_memory_exceeds_limit allocation_failed : AllocationError

abbrev Checked : Type 0 → Type 0
Checked A = Result AllocationError A

pub validate_main_buffer_size_for_bandwidth : BenchmarkConfig → Checked (Unit {0})
validate_main_buffer_size_for_bandwidth c =
    fail_if (c.buffer_size == 0 && not c.only_latency) main_buffer_size_zero

pub validate_memory_limit : BenchmarkConfig → ℕ → Checked (Unit {0})
validate_memory_limit c bytes_required =
    if c.max_total_allowed_mb == 0
    then ok tt
    else fail_if (ltb c.max_total_allowed_mb (bytes_required / bytes_per_mb))
        total_memory_exceeds_limit

abbrev or_error : Option ℕ → AllocationError → Checked ℕ
or_error none e = err e
or_error (some n) e = ok n

pub calculate_doubled_bytes : ℕ → Checked ℕ
calculate_doubled_bytes buffer_size = or_error (checked_multiply buffer_size 2) buffer_size_overflow

pub calculate_pattern_allocation_bytes : BenchmarkConfig → Checked ℕ
calculate_pattern_allocation_bytes c = do
  fail_if (c.buffer_size == 0) main_buffer_size_zero
  bytes ← calculate_doubled_bytes c.buffer_size
  validate_memory_limit c bytes
  ok bytes

pub add_to_phase_bytes : ℕ → ℕ → Checked ℕ
add_to_phase_bytes value phase_bytes =
    or_error (checked_add phase_bytes value) total_memory_overflow

pub add_doubled_to_phase_bytes : ℕ → ℕ → Checked ℕ
add_doubled_to_phase_bytes value phase_bytes = do
  doubled ← calculate_doubled_bytes value
  add_to_phase_bytes doubled phase_bytes

pub update_peak : ℕ → ℕ → ℕ
update_peak candidate peak = if ltb peak candidate then candidate else peak

-- A block that computes the bytes of a phase and updates the peak, if the phase runs.
pub peak_of_phase : Bool → Checked ℕ → ℕ → Checked ℕ
peak_of_phase true phase_bytes peak = do bytes ← phase_bytes; ok (update_peak bytes peak)
peak_of_phase false phase_bytes peak = ok peak

-- The blocks of `calculate_peak_allocation_bytes`, each on the peak so far.
pub main_bandwidth_peak : BenchmarkConfig → ℕ → Checked ℕ
main_bandwidth_peak c =
    peak_of_phase (not c.only_latency && ltb 0 c.buffer_size)
      (calculate_doubled_bytes c.buffer_size)

pub main_latency_peak : BenchmarkConfig → ℕ → Checked ℕ
main_latency_peak c =
    peak_of_phase (not c.only_bandwidth && not c.run_patterns && ltb 0 c.buffer_size)
      (ok c.buffer_size)

pub custom_cache_peak : BenchmarkConfig → ℕ → Checked ℕ
custom_cache_peak c peak = do
  bandwidth ←
      peak_of_phase (not c.only_latency && ltb 0 c.custom_buffer_size)
        (calculate_doubled_bytes c.custom_buffer_size) peak
  peak_of_phase (not c.only_bandwidth) (ok c.custom_buffer_size) bandwidth

pub doubled_levels : BenchmarkConfig → Checked ℕ
doubled_levels c = do
  l1 ← add_doubled_to_phase_bytes c.l1_buffer_size 0
  add_doubled_to_phase_bytes c.l2_buffer_size l1

pub single_levels : BenchmarkConfig → Checked ℕ
single_levels c = do
  l1 ← add_to_phase_bytes c.l1_buffer_size 0
  add_to_phase_bytes c.l2_buffer_size l1

pub level_cache_peak : BenchmarkConfig → ℕ → Checked ℕ
level_cache_peak c peak = do
  bandwidth ← peak_of_phase (not c.only_latency) (doubled_levels c) peak
  peak_of_phase (not c.only_bandwidth) (single_levels c) bandwidth

pub cache_peak : BenchmarkConfig → ℕ → Checked ℕ
cache_peak c peak =
    if not c.run_patterns && c.use_custom_cache_size
    then custom_cache_peak c peak
    else if not c.run_patterns
    then level_cache_peak c peak
    else ok peak

pub calculate_peak_allocation_bytes : BenchmarkConfig → Checked ℕ
calculate_peak_allocation_bytes c = do
  validate_main_buffer_size_for_bandwidth c
  bandwidth ← main_bandwidth_peak c 0
  main ← main_latency_peak c bandwidth
  peak ← cache_peak c main
  validate_memory_limit c peak
  ok peak

pub calculate_total_allocation_bytes : BenchmarkConfig → Checked ℕ
calculate_total_allocation_bytes = calculate_peak_allocation_bytes

-- The two mappings of the pattern buffers, through the memory manager: `allocate` gets whether to
-- discourage caching, the size and the name.
pub record PatternBuffers (M : Type 0) : Type 0 where
  pub src_buffer_ptr : M
  pub dst_buffer_ptr : M

module _ {M : Type 0} (allocate : Bool → ℕ → Bytes → Option M) where
  pub allocate_pattern_mapping : BenchmarkConfig → Bytes → Checked M
  allocate_pattern_mapping c name = elim (allocate c.use_non_cacheable c.buffer_size name) [
    | none ↦ err allocation_failed
    | some mapping ↦ ok mapping
  ]

  pub allocate_pattern_buffers : BenchmarkConfig → Checked (PatternBuffers M)
  allocate_pattern_buffers c = do
    _bytes ← calculate_pattern_allocation_bytes c
    src ← allocate_pattern_mapping c (codes "src_buffer")
    dst ← allocate_pattern_mapping c (codes "dst_buffer")
    ok (record { src_buffer_ptr = src; dst_buffer_ptr = dst })
