-- ===== src/CommandLine/Tlb/Parsed.antt =====
-- What a parsed command of the TLB analysis satisfies, and that it passes the validation.
use mathlib.Core.Path.{subst}
use mac_os_memory_benchmark.Common.{
  ◌%◌, ◌≤◌, ◌≡◌, ◌≢◌, ◌⊎◌, refl, ap, arith, Bool, true, false, not, ◌&&◌, List, [], ◌∷◌, Option,
  none, some, ◌==◌,
}
use mac_os_memory_benchmark.Common.Bytes.{Bytes}
use mac_os_memory_benchmark.Common.Results.{Result, ok, err, ◌>>◌, fail_if, bind-ok, ok_injective}
use mac_os_memory_benchmark.Config.{LatencyChainMode, BenchmarkConfig, default_config}
use mac_os_memory_benchmark.Validation.{Machine, validate_config}
use mac_os_memory_benchmark.Validation.Tlb.{validate_config-tlb}
use mac_os_memory_benchmark.CommandLine.{
  ValueError, latency_stride_invalid, count_invalid, latency_chain_mode_from_string,
  tlb_sweep_density_from_string, parse_unsigned_decimal_or_throw,
}
use mac_os_memory_benchmark.CommandLine.Specs.{parse_sweep_spec}
use mac_os_memory_benchmark.CommandLine.Options.{ValueOption, ParseError, duplicate_option}
use mac_os_memory_benchmark.CommandLine.Platform.{Platform}
use mac_os_memory_benchmark.CommandLine.General.{
  has_seen, of_value, number_in, bad_positive, or_invalid_mode,
}
use mac_os_memory_benchmark.CommandLine.General.Settings.{positive_in, more_specs}
use mac_os_memory_benchmark.CommandLine.Tlb.{
  TlbArgument, tlb_argument_of, pointer_bytes, is_global_random, or_invalid_density, set_tlb_value,
  tlb_stands_once, parse_tlb_options, finish_tlb, start_tlb, parse_tlb_arguments,
}

-- The mode is set; the stride is a positive multiple of the pointer size; the chain is local; a
-- sweep has a spec, and without one there are none.
pub record IsTlb (c : BenchmarkConfig) : Type 0 where
  pub in_mode : c.analyze_tlb ≡ true
  pub some_stride : 1 ≤ c.latency_stride_bytes
  pub aligned : c.latency_stride_bytes % pointer_bytes ≡ 0
  pub local_chain : c.latency_chain_mode ≢ LatencyChainMode.global_random
  pub some_runs : 1 ≤ c.sweep_max_runs
  pub sweeps :
      ((c.run_sweep ≡ false) × (c.sweep_specs ≡ [])) ⊎ ((c.run_sweep ≡ true) × (c.sweep_specs ≢ []))

value-ok :
    {A : Type 0} (option : ValueOption) (r : Result ValueError A) (a : A)
    → of_value option r ≡ ok a
    → r ≡ ok a
value-ok option (ok b) a e = ap ok (ok_injective e)
value-ok option (err x) a e = absurd (ground arith)

guarded :
    (test : Bool) (error : ParseError) (next : Result ParseError BenchmarkConfig)
    (c : BenchmarkConfig)
    → (fail_if test error >> next) ≡ ok c
    → (test ≡ false) × (next ≡ ok c)
guarded true error next c e = absurd (ground arith)
guarded false error next c e = (refl, e)

set_tlb_value-IsTlb :
    (option : ValueOption) (value : Bytes) (c d : BenchmarkConfig)
    → IsTlb c
    → set_tlb_value option value c ≡ ok d
    → IsTlb d
unfolding set_tlb_value
set_tlb_value-IsTlb ValueOption.output value c d h e = subst IsTlb (ok_injective e) (ground arith)
set_tlb_value-IsTlb ValueOption.sweep value c d h e =
    let (spec, got, e1) = bind-ok (of_value ValueOption.sweep (parse_sweep_spec value)) _ e in
    subst IsTlb (ok_injective e1) (ground (arith, more_specs c.sweep_specs spec))
set_tlb_value-IsTlb ValueOption.sweep_max_runs value c d h e =
    let (n, got, e1) =
      bind-ok (of_value ValueOption.sweep_max_runs (number_in bad_positive count_invalid value)) _
        e in
    subst IsTlb (ok_injective e1)
      (ground (arith, positive_in _ value n (value-ok ValueOption.sweep_max_runs _ n got)))
set_tlb_value-IsTlb ValueOption.latency_stride value c d h e =
    let (n, got, e1) =
      bind-ok
        (of_value ValueOption.latency_stride (number_in bad_positive latency_stride_invalid value))
        _ e in
    let (aligned, e2) = guarded (not (n % pointer_bytes == 0)) _ _ d e1 in
    subst IsTlb (ok_injective e2)
      (ground (arith, positive_in _ value n (value-ok ValueOption.latency_stride _ n got), aligned))
set_tlb_value-IsTlb ValueOption.latency_chain_mode value c d h e =
    let (mode, got, e1) =
      bind-ok
        (of_value ValueOption.latency_chain_mode
          (or_invalid_mode (latency_chain_mode_from_string value)))
        _ e in
    let (local_mode, e2) = guarded (is_global_random mode) _ _ d e1 in
    subst IsTlb (ok_injective e2) (ground (arith, local_mode))
set_tlb_value-IsTlb ValueOption.tlb_density value c d h e =
    let (density, got, e1) =
      bind-ok
        (of_value ValueOption.tlb_density
          (or_invalid_density (tlb_sweep_density_from_string value)))
        _ e in
    subst IsTlb (ok_injective e1) (ground arith)
set_tlb_value-IsTlb ValueOption.seed value c d h e =
    let (n, got, e1) =
      bind-ok (of_value ValueOption.seed (parse_unsigned_decimal_or_throw value)) _ e in
    subst IsTlb (ok_injective e1) (ground arith)
set_tlb_value-IsTlb ValueOption.iterations value c d h e = subst IsTlb (ok_injective e) h
set_tlb_value-IsTlb ValueOption.buffer_size value c d h e = subst IsTlb (ok_injective e) h
set_tlb_value-IsTlb ValueOption.count value c d h e = subst IsTlb (ok_injective e) h
set_tlb_value-IsTlb ValueOption.latency_samples value c d h e = subst IsTlb (ok_injective e) h
set_tlb_value-IsTlb ValueOption.latency_tlb_locality value c d h e = subst IsTlb (ok_injective e) h
set_tlb_value-IsTlb ValueOption.cache_size value c d h e = subst IsTlb (ok_injective e) h
set_tlb_value-IsTlb ValueOption.threads value c d h e = subst IsTlb (ok_injective e) h

argument-IsTlb :
    (argument : TlbArgument) (arg : Bytes) (args : List Bytes) (seen : List ValueOption)
    (c d : BenchmarkConfig)
    → tlb_argument_of arg ≡ argument
    → ((waiting : Option ValueOption) → parse_tlb_options args waiting seen c ≡ ok d → IsTlb d)
    → parse_tlb_options (arg ∷ args) none seen c ≡ ok d
    → IsTlb d
unfolding parse_tlb_options
argument-IsTlb TlbArgument.selector arg args seen c d same more e =
    more none (rw (same, parse_tlb_options) at e)
argument-IsTlb (TlbArgument.takes_value option) arg args seen c d same more e =
    let e' = rw (same, parse_tlb_options) at e in
    let e1 =
      guarded (tlb_stands_once option && has_seen option seen) (duplicate_option option)
        (parse_tlb_options args (some option) seen c) d e' in
    more (some option) e1.1
argument-IsTlb TlbArgument.unknown arg args seen c d same more e =
    let e' = rw (same, parse_tlb_options) at e in absurd (ground (arith, e'))

parse_tlb_options-IsTlb :
    (args : List Bytes) (waiting : Option ValueOption) (seen : List ValueOption)
    (c d : BenchmarkConfig)
    → IsTlb c
    → parse_tlb_options args waiting seen c ≡ ok d
    → IsTlb d
unfolding parse_tlb_options
parse_tlb_options-IsTlb [] none seen c d h e = subst IsTlb (ok_injective e) h
parse_tlb_options-IsTlb [] (some option) seen c d h e = absurd (ground arith)
parse_tlb_options-IsTlb (value ∷ args) (some option) seen c d h e =
    let (c', set, e1) = bind-ok (set_tlb_value option value c) _ e in
    parse_tlb_options-IsTlb args none (option ∷ seen) c' d
      (set_tlb_value-IsTlb option value c c' h set) e1
parse_tlb_options-IsTlb (arg ∷ args) none seen c d h e =
    argument-IsTlb (tlb_argument_of arg) arg args seen c d refl
      (λ waiting. parse_tlb_options-IsTlb args waiting seen c d h) e

finish_tlb-IsTlb : (s : Platform) (c : BenchmarkConfig) → IsTlb c → IsTlb (finish_tlb s c)
unfolding finish_tlb
finish_tlb-IsTlb s c h = ground arith

-- A command of the TLB analysis that parses has its mode set, a stride that is a positive multiple
-- of the pointer size, a chain mode that is not the global one, a positive maximum of sweep runs,
-- and specs just when it is a sweep.
pub parse_tlb_arguments-IsTlb :
    (s : Platform) (args : List Bytes) (c : BenchmarkConfig)
    → parse_tlb_arguments s args default_config ≡ ok c
    → IsTlb c
unfolding parse_tlb_arguments
parse_tlb_arguments-IsTlb s args c e =
    let (d, run, e1) = bind-ok (parse_tlb_options args none [] (start_tlb default_config)) _ e in
    let start : IsTlb (start_tlb default_config) = ground arith in
    subst IsTlb (ok_injective e1)
      (finish_tlb-IsTlb s d (parse_tlb_options-IsTlb args none [] _ d start run))

-- A command of the TLB analysis without a sweep that parses passes the validation unchanged, on a
-- machine whose page holds its stride: the parser has made every other test.
pub parse_tlb_arguments-valid :
    (s : Platform) (args : List Bytes) (c : BenchmarkConfig) (m : Machine)
    → parse_tlb_arguments s args default_config ≡ ok c
    → c.run_sweep ≡ false
    → c.latency_stride_bytes ≤ m.page_size
    → validate_config m c ≡ ok c
parse_tlb_arguments-valid s args c m e no_sweep within =
    let h = parse_tlb_arguments-IsTlb s args c e in
    validate_config-tlb m c no_sweep h.in_mode h.some_stride h.aligned within
