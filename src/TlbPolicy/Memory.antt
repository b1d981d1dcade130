-- ===== src/TlbPolicy/Memory.antt =====
-- The memory estimate of the TLB analysis, and the test against the budget.
use mac_os_memory_benchmark.Common.{
  ℕ, ◌+◌, ◌*◌, ◌/◌, ◌≤◌, ◌≡◌, ◌↔◌, arith, min, true, size_max, ltb, ◌==◌, ◌||◌, Bool-cases, inl,
  inr, leb→le, le→leb, mul_size,
}
use mac_os_memory_benchmark.Numeric.Checked.{saturating_multiply-min}
use mac_os_memory_benchmark.Config.{bytes_per_mb}
use mac_os_memory_benchmark.TlbPolicy.{
  estimate_tlb_scratch_bytes, estimate_tlb_peak_memory_bytes, budget_bytes,
  tlb_buffer_fits_memory_budget,
}

-- The buffer, 256 bytes for each node, and one MiB.
abbrev pub peak_bytes : ℕ → ℕ → ℕ
peak_bytes buffer nodes = buffer + (nodes * 256 + bytes_per_mb)

-- The peak is the exact sum, or the largest `size_t` where the sum is larger.
pub estimate_tlb_peak_memory_bytes-min :
    (buffer nodes : ℕ)
    → estimate_tlb_peak_memory_bytes buffer nodes ≡ min size_max (peak_bytes buffer nodes)
unfolding estimate_tlb_peak_memory_bytes estimate_tlb_scratch_bytes
estimate_tlb_peak_memory_bytes-min buffer nodes = ground (arith, saturating_multiply-min nodes 256)

budget_bytes-min : (mb : ℕ) → budget_bytes mb ≡ min size_max (mb * bytes_per_mb)
unfolding budget_bytes
budget_bytes-min mb = ground arith

-- A buffer fits just when it and its page size are not 0, its bytes fit `size_t`, and the peak is
-- within the budget, both as they saturate.
pub tlb_buffer_fits_memory_budget_iff :
    (candidate page budget : ℕ)
    → ((tlb_buffer_fits_memory_budget candidate page budget).0 ≡ true) ↔ (
        (1 ≤ candidate)
        × (1 ≤ page)
        × (candidate * bytes_per_mb ≤ size_max)
        × (min size_max (peak_bytes (candidate * bytes_per_mb) (candidate * bytes_per_mb / page))
            ≤ min size_max (budget * bytes_per_mb)))
unfolding tlb_buffer_fits_memory_budget
tlb_buffer_fits_memory_budget_iff candidate page budget =
    elim (Bool-cases (candidate == 0 || page == 0 || ltb (size_max / bytes_per_mb) candidate)) [
      | inl e ↦ rw e (λ x. cc, λ h. ground arith)
      | inr e ↦
          let bytes : mul_size candidate bytes_per_mb ≡ candidate * bytes_per_mb = ground arith in
          let peak =
            estimate_tlb_peak_memory_bytes-min (candidate * bytes_per_mb)
              (candidate * bytes_per_mb / page) in
          rw (e, bytes, peak, budget_bytes-min budget)
            (λ x. (ground arith, ground arith, ground arith, leb→le _ _ x), λ h. le→leb _ _ h.3)
    ]
