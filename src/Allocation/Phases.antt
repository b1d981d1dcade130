-- ===== src/Allocation/Phases.antt =====
-- The demand of each phase of src/core/memory/buffer_allocator.cpp.
use mac_os_memory_benchmark.Common.{
  ℕ, ◌+◌, ◌*◌, ◌≤◌, ◌≡◌, ◌↔◌, refl, arith, Bool, true, false, ◌&&◌, ◌||◌, not, ltb, leb, max,
  if◌then◌else◌, size_max,
}
use mac_os_memory_benchmark.Common.Results.{Result, ok, err, ◌>>=◌, bind-ok}
use mac_os_memory_benchmark.Numeric.{checked_add}
use mac_os_memory_benchmark.Numeric.Checked.{checked_multiply-fits, checked_multiply-overflows}
use mac_os_memory_benchmark.Config.{BenchmarkConfig}
use mac_os_memory_benchmark.Allocation.{
  AllocationError, buffer_size_overflow, total_memory_overflow, calculate_doubled_bytes,
  add_to_phase_bytes, add_doubled_to_phase_bytes, update_peak, main_bandwidth_peak,
  main_latency_peak, peak_of_phase, doubled_levels, single_levels, custom_cache_peak,
  level_cache_peak, cache_peak,
}

-- The exact bytes that each phase holds at once; 0 for a phase that does not run.
abbrev pub main_bandwidth_demand : BenchmarkConfig → ℕ
main_bandwidth_demand c = if c.only_latency then 0 else c.buffer_size * 2

abbrev pub main_latency_demand : BenchmarkConfig → ℕ
main_latency_demand c = if c.only_bandwidth || c.run_patterns then 0 else c.buffer_size

abbrev pub cache_bandwidth_demand : BenchmarkConfig → ℕ
cache_bandwidth_demand c =
    if c.only_latency || c.run_patterns
    then 0
    else if c.use_custom_cache_size
    then c.custom_buffer_size * 2
    else c.l1_buffer_size * 2 + c.l2_buffer_size * 2

abbrev pub cache_latency_demand : BenchmarkConfig → ℕ
cache_latency_demand c =
    if c.only_bandwidth || c.run_patterns
    then 0
    else if c.use_custom_cache_size
    then c.custom_buffer_size
    else c.l1_buffer_size + c.l2_buffer_size

pub doubled_lem :
    (n : ℕ)
    → calculate_doubled_bytes n
      ≡ (if leb (n * 2) size_max then ok (n * 2) else err buffer_size_overflow)
unfolding calculate_doubled_bytes
doubled_lem n = ground (arith, checked_multiply-fits n 2, checked_multiply-overflows n 2)

added_lem :
    (value phase : ℕ)
    → value ≤ size_max
    → add_to_phase_bytes value phase
      ≡ (if leb (phase + value) size_max then ok (phase + value) else err total_memory_overflow)
unfolding add_to_phase_bytes checked_add
added_lem value phase h = ground arith

-- A phase that runs raises the peak to its bytes, and fails where they do not fit.
peak_of_phase-ok :
    (runs : Bool) (phase : Result AllocationError ℕ) (demand peak q : ℕ)
    → ((n : ℕ) → (phase ≡ ok n) ↔ ((demand ≤ size_max) × (n ≡ demand)))
    → (peak_of_phase runs phase peak ≡ ok q)
      ↔ (((if runs then demand else 0) ≤ size_max) × (q ≡ max peak (if runs then demand else 0)))
unfolding peak_of_phase update_peak
peak_of_phase-ok false phase demand peak q h = ground arith
peak_of_phase-ok true (ok n) demand peak q h = ground (arith, h n)
peak_of_phase-ok true (err e) demand peak q h = ground (arith, h demand)

doubled_iff : (n m : ℕ) → (calculate_doubled_bytes n ≡ ok m) ↔ ((n * 2 ≤ size_max) × (m ≡ n * 2))
doubled_iff n m = ground (arith, doubled_lem n)

doubled_levels_iff :
    (c : BenchmarkConfig) (m : ℕ)
    → (doubled_levels c ≡ ok m) ↔ (
        (c.l1_buffer_size * 2 + c.l2_buffer_size * 2 ≤ size_max)
        × (m ≡ c.l1_buffer_size * 2 + c.l2_buffer_size * 2))
unfolding doubled_levels add_doubled_to_phase_bytes
doubled_levels_iff c m = ground (
  arith,
  doubled_lem c.l1_buffer_size,
  doubled_lem c.l2_buffer_size,
  added_lem (c.l1_buffer_size * 2) 0,
  added_lem (c.l2_buffer_size * 2) (c.l1_buffer_size * 2),
)

single_levels_iff :
    (c : BenchmarkConfig) (m : ℕ)
    → c.l1_buffer_size ≤ size_max
    → c.l2_buffer_size ≤ size_max
    → (single_levels c ≡ ok m) ↔ (
        (c.l1_buffer_size + c.l2_buffer_size ≤ size_max)
        × (m ≡ c.l1_buffer_size + c.l2_buffer_size))
unfolding single_levels
single_levels_iff c m h1 h2 =
    ground (arith, added_lem c.l1_buffer_size 0, added_lem c.l2_buffer_size c.l1_buffer_size)

-- A chain whose first part is known exactly.
chain-ok :
    (P : Type 0) (m : Result AllocationError ℕ) (f : ℕ → Result AllocationError ℕ) (v q : ℕ)
    → ((a : ℕ) → (m ≡ ok a) ↔ (P × (a ≡ v)))
    → ((m >>= f) ≡ ok q) ↔ (P × (f v ≡ ok q))
chain-ok P m f v q h = (
  λ e.
      let (a, first, rest) = bind-ok m f e in
      let known = (h a).0 first in (known.0, rw (← known.1) rest),
  λ k. rw ((h v).1 (k.0, refl)) k.1,
)

-- Two phases, one after the other.
phases-ok :
    (runs runs' : Bool) (phase phase' : Result AllocationError ℕ) (demand demand' peak q : ℕ)
    → ((n : ℕ) → (phase ≡ ok n) ↔ ((demand ≤ size_max) × (n ≡ demand)))
    → ((n : ℕ) → (phase' ≡ ok n) ↔ ((demand' ≤ size_max) × (n ≡ demand')))
    → ((peak_of_phase runs phase peak >>= peak_of_phase runs' phase') ≡ ok q) ↔ (
        ((if runs then demand else 0) ≤ size_max)
        × ((if runs' then demand' else 0) ≤ size_max)
        × (q ≡ max (max peak (if runs then demand else 0)) (if runs' then demand' else 0)))
phases-ok runs runs' phase phase' demand demand' peak q h h' =
    let first =
      chain-ok ((if runs then demand else 0) ≤ size_max) (peak_of_phase runs phase peak)
        (peak_of_phase runs' phase') (max peak (if runs then demand else 0)) q
        (λ a. peak_of_phase-ok runs phase demand peak a h) in
    let second =
      peak_of_phase-ok runs' phase' demand' (max peak (if runs then demand else 0)) q h' in
    (
      λ e. let (fits, rest) = first.0 e in let (fits', is) = second.0 rest in (fits, fits', is),
      λ k. first.1 (k.0, second.1 (k.1, k.2)),
    )

abbrev pub AreSizes : BenchmarkConfig → Type 0
AreSizes c =
    (c.buffer_size ≤ size_max)
    × (c.custom_buffer_size ≤ size_max)
    × (c.l1_buffer_size ≤ size_max)
    × (c.l2_buffer_size ≤ size_max)

plain_iff :
    (n m : ℕ)
    → n ≤ size_max
    → (let plain : Result AllocationError ℕ = ok n in plain ≡ ok m) ↔ ((n ≤ size_max) × (m ≡ n))
plain_iff n m h = ground arith

pub main_peak_iff :
    (c : BenchmarkConfig) (peak q : ℕ)
    → c.buffer_size ≤ size_max
    → ((main_bandwidth_peak c peak >>= main_latency_peak c) ≡ ok q) ↔ (
        (main_bandwidth_demand c ≤ size_max)
        × (main_latency_demand c ≤ size_max)
        × (q ≡ max (max peak (main_bandwidth_demand c)) (main_latency_demand c)))
unfolding main_bandwidth_peak main_latency_peak
main_peak_iff c peak q h = ground (
  arith,
  phases-ok (not c.only_latency && ltb 0 c.buffer_size)
      (not c.only_bandwidth && not c.run_patterns && ltb 0 c.buffer_size)
      (calculate_doubled_bytes c.buffer_size) (ok c.buffer_size) (c.buffer_size * 2) c.buffer_size
      peak q (doubled_iff c.buffer_size) (λ n. plain_iff c.buffer_size n h),
)

pub cache_peak_iff :
    (c : BenchmarkConfig) (peak q : ℕ)
    → AreSizes c
    → (cache_peak c peak ≡ ok q) ↔ (
        (cache_bandwidth_demand c ≤ size_max)
        × (cache_latency_demand c ≤ size_max)
        × (q ≡ max (max peak (cache_bandwidth_demand c)) (cache_latency_demand c)))
unfolding cache_peak custom_cache_peak level_cache_peak
cache_peak_iff c peak q (_, hc, h1, h2) = ground (
  arith,
  phases-ok (not c.only_latency && ltb 0 c.custom_buffer_size) (not c.only_bandwidth)
      (calculate_doubled_bytes c.custom_buffer_size) (ok c.custom_buffer_size)
      (c.custom_buffer_size * 2) c.custom_buffer_size peak q (doubled_iff c.custom_buffer_size)
      (λ n. plain_iff c.custom_buffer_size n hc),
  phases-ok (not c.only_latency) (not c.only_bandwidth) (doubled_levels c) (single_levels c)
      (c.l1_buffer_size * 2 + c.l2_buffer_size * 2) (c.l1_buffer_size + c.l2_buffer_size) peak q
      (doubled_levels_iff c) (λ n. single_levels_iff c n h1 h2),
)
