-- ===== src/Allocation/Peak.antt =====
-- The peak is the largest of the phases' exact demands.
use mac_os_memory_benchmark.Common.{
  ℕ, ◌/◌, ◌≤◌, ◌≡◌, ◌≢◌, ◌⊎◌, ◌↔◌, refl, ap, sym, ◌∙◌, arith, true, max, size_max,
}
use mac_os_memory_benchmark.Common.Results.{Result, ok, err, ◌>>◌, bind-ok}
use mac_os_memory_benchmark.Config.{BenchmarkConfig, bytes_per_mb}
use mac_os_memory_benchmark.Allocation.{
  AllocationError, main_bandwidth_peak, main_latency_peak, cache_peak, validate_memory_limit,
  validate_main_buffer_size_for_bandwidth, calculate_peak_allocation_bytes,
  calculate_total_allocation_bytes,
}
use mac_os_memory_benchmark.Allocation.Phases.{
  main_bandwidth_demand, main_latency_demand, cache_bandwidth_demand, cache_latency_demand,
  AreSizes, main_peak_iff, cache_peak_iff,
}

-- What a successful peak computation says.
pub record IsPeak (c : BenchmarkConfig) (peak : ℕ) : Type 0 where
  pub has_main : (c.buffer_size ≢ 0) ⊎ (c.only_latency ≡ true)
  pub main_bandwidth_fits : main_bandwidth_demand c ≤ size_max
  pub main_latency_fits : main_latency_demand c ≤ size_max
  pub cache_bandwidth_fits : cache_bandwidth_demand c ≤ size_max
  pub cache_latency_fits : cache_latency_demand c ≤ size_max
  pub largest :
      peak
      ≡ max
          (max (max (main_bandwidth_demand c) (main_latency_demand c)) (cache_bandwidth_demand c))
          (cache_latency_demand c)
  pub within_limit : (c.max_total_allowed_mb ≡ 0) ⊎ (peak / bytes_per_mb ≤ c.max_total_allowed_mb)

limit_iff :
    (c : BenchmarkConfig) (n : ℕ)
    → (validate_memory_limit c n ≡ ok tt)
      ↔ ((c.max_total_allowed_mb ≡ 0) ⊎ (n / bytes_per_mb ≤ c.max_total_allowed_mb))
unfolding validate_memory_limit
limit_iff c n = ground arith

has_main_iff :
    (c : BenchmarkConfig)
    → (validate_main_buffer_size_for_bandwidth c ≡ ok tt)
      ↔ ((c.buffer_size ≢ 0) ⊎ (c.only_latency ≡ true))
unfolding validate_main_buffer_size_for_bandwidth
has_main_iff c = ground arith

zero_max : (a b : ℕ) → max (max 0 a) b ≡ max a b
zero_max a b = omega arith

limited :
    (m : Result AllocationError (Unit {0})) (p n : ℕ) → (m >> ok p) ≡ ok n → (m ≡ ok tt) × (p ≡ n)
limited (ok u) p n e = ground arith
limited (err x) p n e = absurd (ground arith)

parts-IsPeak :
    (c : BenchmarkConfig) (bandwidth main peak n : ℕ)
    → AreSizes c
    → validate_main_buffer_size_for_bandwidth c ≡ ok tt
    → main_bandwidth_peak c 0 ≡ ok bandwidth
    → main_latency_peak c bandwidth ≡ ok main
    → cache_peak c main ≡ ok peak
    → (validate_memory_limit c peak >> ok peak) ≡ ok n
    → IsPeak c n
parts-IsPeak c bandwidth main peak n sizes e0 e1 e2 e3 e4 =
    let (allowed, same) = limited (validate_memory_limit c peak) peak n e4 in
    let mains = (main_peak_iff c 0 main sizes.0).0 (rw e1 e2) in
    let caches = (cache_peak_iff c main n sizes).0 (e3 ∙ ap ok same) in
    record {
      has_main = (has_main_iff c).0 e0;
      main_bandwidth_fits = mains.0;
      main_latency_fits = mains.1;
      cache_bandwidth_fits = caches.0;
      cache_latency_fits = caches.1;
      largest =
          caches.2
          ∙ ap (λ m. max (max m (cache_bandwidth_demand c)) (cache_latency_demand c))
              (mains.2 ∙ zero_max (main_bandwidth_demand c) (main_latency_demand c));
      within_limit = (limit_iff c n).0 (ap (validate_memory_limit c) (sym same) ∙ allowed);
    }

largest_phase :
    (c : BenchmarkConfig) (n : ℕ)
    → AreSizes c
    → calculate_peak_allocation_bytes c ≡ ok n
    → IsPeak c n
unfolding calculate_peak_allocation_bytes
largest_phase c n sizes e =
    let (u, e0, r0) = bind-ok (validate_main_buffer_size_for_bandwidth c) _ e in
    let (bandwidth, e1, r1) = bind-ok (main_bandwidth_peak c 0) _ r0 in
    let (main, e2, r2) = bind-ok (main_latency_peak c bandwidth) _ r1 in
    let (peak, e3, r3) = bind-ok (cache_peak c main) _ r2 in
    parts-IsPeak c bandwidth main peak n sizes e0 e1 e2 e3 r3

IsPeak-peak :
    (c : BenchmarkConfig) (n : ℕ)
    → AreSizes c
    → IsPeak c n
    → calculate_peak_allocation_bytes c ≡ ok n
unfolding calculate_peak_allocation_bytes
IsPeak-peak c n sizes is =
    let main = max (max 0 (main_bandwidth_demand c)) (main_latency_demand c) in
    let mains =
      (main_peak_iff c 0 main sizes.0).1 (is.main_bandwidth_fits, is.main_latency_fits, refl) in
    let (bandwidth, e1, e2) = bind-ok (main_bandwidth_peak c 0) (main_latency_peak c) mains in
    let e3 : cache_peak c main ≡ ok n = (cache_peak_iff c main n sizes).1 (
      is.cache_bandwidth_fits,
      is.cache_latency_fits,
      is.largest
          ∙ ap (λ m. max (max m (cache_bandwidth_demand c)) (cache_latency_demand c))
              (sym (zero_max (main_bandwidth_demand c) (main_latency_demand c))),
    ) in
    rw ((has_main_iff c).1 is.has_main)
      (rw e1 (rw e2 (rw e3 (rw ((limit_iff c n).1 is.within_limit) refl))))

-- For sizes that fit `size_t`, the peak is computed just when there is a main buffer (or only
-- latency is measured), the demand of each of the four phases fits `size_t`, and the largest of
-- them is within the limit, if there is one; the peak is then that largest demand.
pub calculate_total_allocation_bytes_iff :
    (c : BenchmarkConfig) (n : ℕ)
    → AreSizes c
    → (calculate_total_allocation_bytes c ≡ ok n) ↔ IsPeak c n
unfolding calculate_total_allocation_bytes
calculate_total_allocation_bytes_iff c n sizes = (largest_phase c n sizes, IsPeak-peak c n sizes)
