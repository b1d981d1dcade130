-- ===== src/Validation/Tlb.antt =====
-- The validation of the TLB analysis without a sweep.
use mac_os_memory_benchmark.Common.{ℕ, ◌%◌, ◌≤◌, ◌≡◌, refl, arith, Bool, true, false}
use mac_os_memory_benchmark.Common.Results.{ok, ◌>>◌}
use mac_os_memory_benchmark.Config.{BenchmarkConfig}
use mac_os_memory_benchmark.Validation.{
  Machine, pointer_bytes, validate_config, validate_mode, validate_analyze_tlb_stride, when_so,
  validate_sweep,
}

stride_passes :
    (stride page_size : ℕ)
    → 1 ≤ stride
    → stride % pointer_bytes ≡ 0
    → stride ≤ page_size
    → validate_analyze_tlb_stride stride page_size ≡ ok tt
unfolding validate_analyze_tlb_stride
stride_passes stride page_size h k l = ground arith

validated_by :
    (m : Machine) (c : BenchmarkConfig) (sweep mode : Bool)
    → sweep ≡ false
    → mode ≡ true
    → validate_analyze_tlb_stride c.latency_stride_bytes m.page_size ≡ ok tt
    → (when_so sweep (validate_sweep m.page_size c) >> validate_mode m c mode) ≡ ok c
unfolding validate_mode
validated_by m c false true s t e = rw e refl
validated_by m c true mode s t e = cc
validated_by m c false false s t e = cc

pub validate_config-tlb :
    (m : Machine) (c : BenchmarkConfig)
    → c.run_sweep ≡ false
    → c.analyze_tlb ≡ true
    → 1 ≤ c.latency_stride_bytes
    → c.latency_stride_bytes % pointer_bytes ≡ 0
    → c.latency_stride_bytes ≤ m.page_size
    → validate_config m c ≡ ok c
unfolding validate_config
validate_config-tlb m c no_sweep in_mode some_stride aligned within =
    validated_by m c c.run_sweep c.analyze_tlb no_sweep in_mode
      (stride_passes c.latency_stride_bytes m.page_size some_stride aligned within)
