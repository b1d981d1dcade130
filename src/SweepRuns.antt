-- ===== src/SweepRuns.antt =====
-- The combinations of a sweep and the configuration of each: the assignments of
-- src/benchmark/sweep_runner.cpp. The pointers to a spec and to a value are the spec and the value.
pub mod Choices
pub mod Execution
mod Tests
use mac_os_memory_benchmark.Common.{
  ℕ, Bool, true, false, List, [], ◌∷◌, ◌++◌, ltb, if◌then◌else◌, min, mul_size,
}
use mac_os_memory_benchmark.Common.Int.{pos_part, to_size}
use mac_os_memory_benchmark.Config.{
  SweepParameter, SweepValue, SweepSpec, BenchmarkConfig, bytes_per_kb,
}

pub record SweepAssignment : Type 0 where
  pub spec : SweepSpec
  pub value : SweepValue

-- The number of threads, of which `max_cores` are there; the parser keeps the request in the range
-- of a positive `int`.
pub cap_threads : ℕ → ℕ → ℕ
cap_threads max_cores requested = if ltb 0 max_cores then min requested max_cores else requested

-- The `switch`, on the parameter of the assignment's spec.
pub apply_value : ℕ → SweepParameter → SweepValue → BenchmarkConfig → BenchmarkConfig
apply_value cores SweepParameter.buffer_size_mb v c = record c {
  buffer_size_mb = to_size v.integer_value;
}
apply_value cores SweepParameter.cache_size_kb v c = record c {
  custom_cache_size_kb_ll = v.integer_value;
  use_custom_cache_size = true;
  custom_cache_size_bytes = mul_size (to_size v.integer_value) bytes_per_kb;
}
apply_value cores SweepParameter.threads v c = record c {
  num_threads = cap_threads cores (pos_part v.integer_value);
  user_specified_threads = true;
}
apply_value cores SweepParameter.latency_tlb_locality_kb v c = record c {
  latency_tlb_locality_bytes = mul_size (to_size v.integer_value) bytes_per_kb;
  user_specified_latency_tlb_locality = true;
}
apply_value cores SweepParameter.latency_stride_bytes v c = record c {
  latency_stride_bytes = to_size v.integer_value;
}
apply_value cores SweepParameter.latency_chain_mode v c = record c {
  latency_chain_mode = v.latency_chain_mode;
}
apply_value cores SweepParameter.tlb_density v c = record c {
  tlb_sweep_density = v.tlb_sweep_density;
}

pub apply_assignment : ℕ → BenchmarkConfig → SweepAssignment → BenchmarkConfig
apply_assignment cores c a = apply_value cores a.spec.parameter a.value c

pub apply_assignments : ℕ → BenchmarkConfig → List SweepAssignment → BenchmarkConfig
apply_assignments cores c [] = c
apply_assignments cores c (a ∷ as_) = apply_assignments cores (apply_assignment cores c a) as_

pub build_run_config : ℕ → BenchmarkConfig → List SweepAssignment → BenchmarkConfig
build_run_config cores base assignments =
    apply_assignments cores (record base { run_sweep = false; sweep_specs = []; output_file = [] })
      assignments

-- `for (const SweepValue& value : spec.values)`, with the assignments collected so far.
pub for_each {ℓ κ} : {A : Type ℓ} {S : Type κ} → (A → S → S) → List A → S → S
for_each body [] state = state
for_each body (x ∷ xs) state = for_each body xs (body x state)

pub append_assignments_recursive :
    List SweepSpec
    → List SweepAssignment
    → List (List SweepAssignment)
    → List (List SweepAssignment)
append_assignments_recursive [] current out = out ++ current ∷ []
append_assignments_recursive (spec ∷ specs) current out =
    for_each
      (λ value out.
        append_assignments_recursive specs (current ++ record { spec = spec; value = value } ∷ [])
          out)
      spec.values out

pub build_sweep_assignments : BenchmarkConfig → List (List SweepAssignment)
build_sweep_assignments c = append_assignments_recursive c.sweep_specs [] []
