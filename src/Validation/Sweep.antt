-- ===== src/Validation/Sweep.antt =====
-- What a validated sweep looks like.
use mac_os_memory_benchmark.Common.{
  ℕ, ◌≤◌, ◌<◌, ◌≡◌, ◌≢◌, ◌⊎◌, inl, inr, arith, refl, Bool, true, false, ◌&&◌, ◌||◌, List, [], ◌∷◌,
  All, length, ltb, ◌==◌, size_max, ◌%◌,
}
use mac_os_memory_benchmark.Common.Bytes.{Bytes}
use mac_os_memory_benchmark.Common.Int.{pos_part, is_positive}
use mac_os_memory_benchmark.Common.Results.{ok, err, ◌>>◌, fail_if}
use mac_os_memory_benchmark.Config.{
  LatencyChainMode, SweepParameter, SweepValue, SweepSpec, BenchmarkConfig,
}
use mac_os_memory_benchmark.Config.SweepText.{cartesian_run_count_from}
use mac_os_memory_benchmark.Config.SweepText.Count.{product_map, cartesian_run_count_from-exact}
use mac_os_memory_benchmark.Validation.{
  Machine, Checked, ConfigError, parameter_value, ◌is◌, sweep_parameter_allowed, is_seen,
  validate_sweep_spec, validate_sweep_specs, calculate_sweep_run_count_from_specs, validate_sweep,
  validate_config, when_so, validate_mode, pointer_bytes, no_specs, no_text, is_global_random,
  validate_analyze_tlb_stride, validate_chain_mode_values, validate_stride_values,
}
use mac_os_memory_benchmark.Validation.Arguments.{then-ok}

-- No earlier spec has this one's parameter.
abbrev pub IsFresh : SweepSpec → List SweepParameter → Type 0
IsFresh spec seen = All (λ p. parameter_value p ≢ parameter_value spec.parameter) seen

abbrev pub AreDistinct : List SweepSpec → List SweepParameter → Type 0
AreDistinct [] seen = Unit
AreDistinct (spec ∷ specs) seen = IsFresh spec seen × AreDistinct specs (spec.parameter ∷ seen)

abbrev pub AreAllowed : BenchmarkConfig → List SweepSpec → Type 0
AreAllowed c = All (λ (spec : SweepSpec). sweep_parameter_allowed c spec.parameter ≡ true)

unseen-IsFresh :
    (spec : SweepSpec) (seen : List SweepParameter)
    → is_seen spec.parameter seen ≡ false
    → IsFresh spec seen
unfolding is_seen
unseen-IsFresh spec [] h = tt
unseen-IsFresh spec (p ∷ seen) h = (ground arith, unseen-IsFresh spec seen (ground arith))

-- In the TLB analysis every chain mode is local, and every stride is positive, a multiple of the
-- pointer size, and within a page.
pub record IsTlbStride (page_size : ℕ) (value : SweepValue) : Type 0 where
  pub positive : is_positive value.integer_value ≡ true
  pub aligned : pos_part value.integer_value % pointer_bytes ≡ 0
  pub in_page : pos_part value.integer_value ≤ page_size

pub record AreTlbValues (page_size : ℕ) (c : BenchmarkConfig) (spec : SweepSpec) : Type 0 where
  pub local_modes :
      ((c.analyze_tlb && (spec.parameter is SweepParameter.latency_chain_mode)) ≡ false)
      ⊎ All
          (λ (value : SweepValue). value.latency_chain_mode ≢ LatencyChainMode.global_random)
          spec.values
  pub strides :
      ((c.analyze_tlb && (spec.parameter is SweepParameter.latency_stride_bytes)) ≡ false)
      ⊎ All (IsTlbStride page_size) spec.values

local_mode :
    (mode : LatencyChainMode)
    → is_global_random mode ≡ false
    → mode ≢ LatencyChainMode.global_random
local_mode mode h = ground arith

chain_values-ok :
    (values : List SweepValue)
    → validate_chain_mode_values values ≡ ok tt
    → All (λ (value : SweepValue). value.latency_chain_mode ≢ LatencyChainMode.global_random) values
unfolding validate_chain_mode_values
chain_values-ok [] h = tt
chain_values-ok (value ∷ values) h =
    (local_mode value.latency_chain_mode (ground arith), chain_values-ok values (ground arith))

stride_value-ok :
    (page_size : ℕ) (value : SweepValue)
    → is_positive value.integer_value ≡ true
    → validate_analyze_tlb_stride (pos_part value.integer_value) page_size ≡ ok tt
    → IsTlbStride page_size value
unfolding validate_analyze_tlb_stride
stride_value-ok page_size value p h = record {
  positive = p;
  aligned = ground arith;
  in_page = ground arith;
}

stride_values-ok :
    (page_size : ℕ) (values : List SweepValue)
    → validate_stride_values page_size values ≡ ok tt
    → All (IsTlbStride page_size) values
unfolding validate_stride_values
stride_values-ok page_size [] h = tt
stride_values-ok page_size (value ∷ values) h = (
  stride_value-ok page_size value (ground arith) (ground arith),
  stride_values-ok page_size values (ground arith),
)

when_so-ok :
    (test : Bool) (check : Checked (Unit {0}))
    → when_so test check ≡ ok tt
    → (test ≡ false) ⊎ (check ≡ ok tt)
when_so-ok test check h = ground arith

or-map : {A : Type 0} {B C : Type 0} → (B → C) → A ⊎ B → A ⊎ C
or-map f (inl a) = inl a
or-map f (inr b) = inr (f b)

spec-ok :
    (page_size : ℕ) (c : BenchmarkConfig) (spec : SweepSpec) (seen : List SweepParameter)
    → validate_sweep_spec page_size c spec seen ≡ ok tt
    → IsFresh spec seen
      × (sweep_parameter_allowed c spec.parameter ≡ true)
      × AreTlbValues page_size c spec
unfolding validate_sweep_spec
spec-ok page_size c spec seen h = (
  unseen-IsFresh spec seen (ground arith),
  ground arith,
  record {
    local_modes = or-map (chain_values-ok spec.values) (when_so-ok _ _ (ground arith));
    strides = or-map (stride_values-ok page_size spec.values) (when_so-ok _ _ (ground arith));
  },
)

specs-ok :
    (page_size : ℕ) (c : BenchmarkConfig) (specs : List SweepSpec) (seen : List SweepParameter)
    → validate_sweep_specs page_size c specs seen ≡ ok tt
    → AreDistinct specs seen × AreAllowed c specs × All (AreTlbValues page_size c) specs
unfolding validate_sweep_specs
specs-ok page_size c [] seen h = (tt, tt, tt)
specs-ok page_size c (spec ∷ specs) seen h =
    let (first, rest) = (then-ok (validate_sweep_spec page_size c spec seen) _ tt).0 h in
    let (fresh, allowed, values) = spec-ok page_size c spec seen first in
    let (distinct, all_allowed, all_values) =
      specs-ok page_size c specs (spec.parameter ∷ seen) rest in
    ((fresh, distinct), (allowed, all_allowed), (values, all_values))

-- A sweep that may run.
pub record IsSweep (page_size : ℕ) (c : BenchmarkConfig) : Type 0 where
  pub some_spec : c.sweep_specs ≢ []
  pub some_output : c.output_file ≢ []
  pub distinct : AreDistinct c.sweep_specs []
  pub allowed : AreAllowed c c.sweep_specs
  pub tlb_values : All (AreTlbValues page_size c) c.sweep_specs
  pub some_run : 1 ≤ product_map (λ (spec : SweepSpec). length spec.values) c.sweep_specs
  pub within_maximum :
      product_map (λ (spec : SweepSpec). length spec.values) c.sweep_specs ≤ c.sweep_max_runs

stages-ok :
    (test test' test'' : Bool) (e e' e'' : ConfigError) (loop : Checked (Unit {0}))
    → (fail_if test e >> (fail_if test' e' >> (loop >> fail_if test'' e''))) ≡ ok tt
    → (test ≡ false) × (test' ≡ false) × (loop ≡ ok tt) × (test'' ≡ false)
stages-ok true test' test'' e e' e'' loop h = cc
stages-ok false true test'' e e' e'' loop h = cc
stages-ok false false true e e' e'' (ok u) h = cc
stages-ok false false false e e' e'' (ok u) h = (refl, refl, h, refl)
stages-ok false false test'' e e' e'' (err x) h = absurd (ground arith)

some_spec-ne : (specs : List SweepSpec) → no_specs specs ≡ false → specs ≢ []
some_spec-ne specs h = ground arith

some_text-ne : (s : Bytes) → no_text s ≡ false → s ≢ []
some_text-ne s h = ground arith

validated_specs :
    (page_size : ℕ) (c : BenchmarkConfig)
    → c.sweep_max_runs < size_max
    → validate_sweep page_size c ≡ ok tt
    → IsSweep page_size c
unfolding validate_sweep calculate_sweep_run_count_from_specs
validated_specs page_size c maximum h =
    let sizes = λ (spec : SweepSpec). length spec.values in
    let count = cartesian_run_count_from sizes c.sweep_specs 1 in
    let (specs, text, loop, counted) =
      stages-ok (no_specs c.sweep_specs) (no_text c.output_file)
        (count == 0 || ltb c.sweep_max_runs count) _ _ _
        (validate_sweep_specs page_size c c.sweep_specs []) h in
    let exact = cartesian_run_count_from-exact sizes c.sweep_specs 1 (ground (arith, counted)) in
    let (distinct, allowed, values) = specs-ok page_size c c.sweep_specs [] loop in
    record {
      some_spec = some_spec-ne c.sweep_specs specs;
      some_output = some_text-ne c.output_file text;
      distinct = distinct;
      allowed = allowed;
      tlb_values = values;
      some_run = ground (arith, exact, counted);
      within_maximum = ground (arith, exact, counted);
    }

validated_sweep :
    (m : Machine) (c c' : BenchmarkConfig) (sweep : Bool)
    → sweep ≡ true
    → (when_so sweep (validate_sweep m.page_size c) >> validate_mode m c c.analyze_tlb) ≡ ok c'
    → validate_sweep m.page_size c ≡ ok tt
validated_sweep m c c' true s e = ((then-ok (validate_sweep m.page_size c) _ c').0 e).0
validated_sweep m c c' false s e = cc

-- With a maximum below the largest `size_t`, a validated sweep has a file for its results and one
-- spec or more, each with a parameter of its own that the mode allows; in the TLB analysis the
-- chain modes are local and the strides are positive, aligned and within a page; and the
-- combinations of the values are one or more and within the maximum.
pub validate_config-IsSweep :
    (m : Machine) (c c' : BenchmarkConfig)
    → c.run_sweep ≡ true
    → c.sweep_max_runs < size_max
    → validate_config m c ≡ ok c'
    → IsSweep m.page_size c
unfolding validate_config
validate_config-IsSweep m c c' sweep maximum e =
    validated_specs m.page_size c maximum (validated_sweep m c c' c.run_sweep sweep e)
