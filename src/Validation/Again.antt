-- ===== src/Validation/Again.antt =====
-- A validated configuration passes again unchanged: a sweep validates each configuration before
-- the first run, and once more when it runs.
use mac_os_memory_benchmark.Common.{
  ◌*◌, ◌≡◌, ◌≢◌, refl, sym, ◌∙◌, arith, ap, Bool, true, false, min, List, [], ◌∷◌,
}
use mac_os_memory_benchmark.Common.Results.{Result, ok, ◌>>◌, bind-ok, ok_injective}
use mac_os_memory_benchmark.Config.{BenchmarkConfig, SweepParameter, SweepSpec, bytes_per_mb}
use mac_os_memory_benchmark.Validation.{
  Machine, ConfigError, validate_config, validate_mode, validate_sweep, validate_sweep_specs,
  validate_sweep_spec, sweep_parameter_allowed, validate_analyze_tlb_stride, when_so, uses_locality,
}
use mac_os_memory_benchmark.Validation.Arguments.{HasMode, HasSizes}
use mac_os_memory_benchmark.Validation.Limit.{
  buffer_limit, limited_config, HasBuffer, validate_mode_iff,
}
use mathlib.Core.Path.{subst}

capped_twice :
    (m : Machine) (c : BenchmarkConfig)
    → min (min c.buffer_size_mb (buffer_limit m c)) (buffer_limit m c)
      ≡ min c.buffer_size_mb (buffer_limit m c)
capped_twice m c = omega arith

limited_mode : (m : Machine) (c : BenchmarkConfig) → HasMode c → HasMode (limited_config m c)
unfolding uses_locality
limited_mode m c h = record {
  pattern_seed = h.pattern_seed;
  benchmark_seed = h.benchmark_seed;
  locality = h.locality;
  one_only = h.one_only;
  only_bandwidth = h.only_bandwidth;
  only_latency = h.only_latency;
  no_cache = h.no_cache;
  no_samples = h.no_samples;
  no_iterations = h.no_iterations;
}

capped_ne :
    (m : Machine) (c : BenchmarkConfig)
    → c.buffer_size_mb ≢ 0
    → min c.buffer_size_mb (buffer_limit m c) ≢ 0
capped_ne m c h = ground arith

limited_sizes :
    (m : Machine) (c : BenchmarkConfig)
    → HasSizes m.page_size c
    → HasSizes m.page_size (limited_config m c)
unfolding uses_locality
limited_sizes m c h = record {
  stride_positive = h.stride_positive;
  stride_aligned = h.stride_aligned;
  custom_pointers = h.custom_pointers;
  l1_pointers = h.l1_pointers;
  l2_pointers = h.l2_pointers;
  cache_target = ground (arith, h.cache_target, capped_ne m c);
  main_target = ground (arith, h.main_target, capped_ne m c);
  locality_pages = h.locality_pages;
  locality_pointers = h.locality_pointers;
}

limited_buffer :
    (m : Machine) (c : BenchmarkConfig) → HasBuffer m c → HasBuffer m (limited_config m c)
limited_buffer m c h = record {
  fits = rw (capped_twice m c) h.fits;
  holds = ground (arith, capped_twice m c, h.holds);
}

limited_twice :
    (m : Machine) (c : BenchmarkConfig) → limited_config m (limited_config m c) ≡ limited_config m c
limited_twice m c =
    ap (λ mb. record (limited_config m c) { buffer_size_mb = mb; buffer_size = mb * bytes_per_mb })
      (capped_twice m c)

-- The checks of a sweep read none of the fields that the limit changes.
same_specs :
    (m : Machine) (c : BenchmarkConfig) (specs : List SweepSpec) (seen : List SweepParameter)
    → validate_sweep_specs m.page_size (limited_config m c) specs seen
      ≡ validate_sweep_specs m.page_size c specs seen
unfolding validate_sweep_specs validate_sweep_spec sweep_parameter_allowed
same_specs m c [] seen = refl
same_specs m c (spec ∷ specs) seen =
    ap (λ k. validate_sweep_spec m.page_size c spec seen >> k)
      (same_specs m c specs (spec.parameter ∷ seen))

same_sweep :
    (m : Machine) (c : BenchmarkConfig)
    → validate_sweep m.page_size (limited_config m c) ≡ validate_sweep m.page_size c
unfolding validate_sweep
same_sweep m c = rw (same_specs m c c.sweep_specs []) refl

composed :
    (m : Machine) (d : BenchmarkConfig) (sweep : Result ConfigError (Unit {0})) (tlb mode : Bool)
    → sweep ≡ ok tt
    → tlb ≡ mode
    → validate_mode m d mode ≡ ok d
    → (sweep >> validate_mode m d tlb) ≡ ok d
composed m d sweep tlb mode swept t e = rw (swept, t) e

tlb_unchanged : (m : Machine) (c c' : BenchmarkConfig) → validate_mode m c true ≡ ok c' → c ≡ c'
unfolding validate_mode
tlb_unchanged m c c' e =
    let (_, stride, same) =
      bind-ok (validate_analyze_tlb_stride c.latency_stride_bytes m.page_size) _ e in
    ok_injective same

mode_again :
    (m : Machine) (c c' : BenchmarkConfig) (tlb : Bool)
    → c.analyze_tlb ≡ tlb
    → when_so c.run_sweep (validate_sweep m.page_size c) ≡ ok tt
    → validate_mode m c tlb ≡ ok c'
    → validate_config m c' ≡ ok c'
unfolding validate_config
mode_again m c c' true t swept e =
    let same = tlb_unchanged m c c' e in
    subst (λ d. validate_config m d ≡ ok d) same
      (composed m c (when_so c.run_sweep (validate_sweep m.page_size c)) c.analyze_tlb true swept t
        (e ∙ ap ok (sym same)))
mode_again m c c' false t swept e =
    let a = (validate_mode_iff m c c').0 e in
    let again = (validate_mode_iff m (limited_config m c) (limited_config m c)).1 (record {
      mode = limited_mode m c a.mode;
      sizes = limited_sizes m c a.sizes;
      buffer = limited_buffer m c a.buffer;
      changed = limited_twice m c;
    }) in
    subst (λ d. validate_config m d ≡ ok d) a.changed
      (composed m (limited_config m c)
        (when_so c.run_sweep (validate_sweep m.page_size (limited_config m c))) c.analyze_tlb false
        (ap (when_so c.run_sweep) (same_sweep m c) ∙ swept) t again)

-- What passes the validation passes it again, on the same machine, with the same result: a plain
-- configuration, a sweep, and one for the TLB analysis.
pub validate_config_idem :
    (m : Machine) (c c' : BenchmarkConfig)
    → validate_config m c ≡ ok c'
    → validate_config m c' ≡ ok c'
unfolding validate_config
validate_config_idem m c c' e =
    let (u, swept, rest) = bind-ok (when_so c.run_sweep (validate_sweep m.page_size c)) _ e in
    mode_again m c c' c.analyze_tlb refl swept rest
