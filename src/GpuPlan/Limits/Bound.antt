-- ===== src/GpuPlan/Limits/Bound.antt =====
-- The effective maximum is exactly the pass count that both caps allow.
use native.Mathlib.Nat.{le-div_iff_mul-le}
use mac_os_memory_benchmark.Common.{
  ℕ, ◌*◌, ◌≤◌, ◌<◌, ◌≡◌, ◌↔◌, ◌≢◌, refl, arith, true, size_max, Bool-cases, inl, inr, ◌==◌, ◌⊎◌,
  false, leb,
}
use mac_os_memory_benchmark.Numeric.Checked.{checked_multiply-fits, checked_multiply-overflows}
use mac_os_memory_benchmark.GpuPlan.{
  GpuOperation, read, write, copy, operation_payload_multiplier, max_dispatches, max_exact_payload,
  GpuPassLimits,
}
use mac_os_memory_benchmark.GpuPlan.Limits.{
  finish_limits, initial_limits, calculate_gpu_pass_limits,
}

-- How often an operation moves each byte: a copy reads it and writes it.
abbrev pub bytes_moved : GpuOperation → ℕ
bytes_moved read = 1
bytes_moved write = 1
bytes_moved copy = 2

-- The bytes that one pass moves.
abbrev pub pass_bytes : ℕ → GpuOperation → ℕ
pass_bytes size operation = size * bytes_moved operation

-- What the limits promise of a buffer.
pub record IsLimits (size : ℕ) (operation : GpuOperation) (limits : GpuPassLimits) : Type 0 where
  pub possible :
      (limits.valid ≡ true) ↔ ((1 ≤ size) × (pass_bytes size operation ≤ max_exact_payload))
  pub bytes : limits.valid ≡ true → limits.bytes_per_pass ≡ pass_bytes size operation
  pub allows :
      (passes : ℕ)
      → limits.valid ≡ true
      → (passes ≤ limits.effective_maximum_passes)
        ↔ ((passes ≤ max_dispatches) × (passes * pass_bytes size operation ≤ max_exact_payload))

pub multiplier_positive : (operation : GpuOperation) → 1 ≤ bytes_moved operation
multiplier_positive read = omega arith
multiplier_positive write = omega arith
multiplier_positive copy = omega arith

finish_limits-IsLimits :
    (size : ℕ) (operation : GpuOperation)
    → 1 ≤ size
    → IsLimits size operation (finish_limits (bytes_moved operation) (pass_bytes size operation))
unfolding finish_limits
finish_limits-IsLimits size operation pos =
    let some_bytes : 1 ≤ pass_bytes size operation = grind (arith, multiplier_positive operation) in
    let within = λ (passes : ℕ).
      le-div_iff_mul-le {k = pass_bytes size operation} {x = passes} {y = max_exact_payload}
        some_bytes in
    record {
      possible = (λ v. ground (arith, within 1), λ h. ground (arith, within 1));
      bytes = λ v. refl;
      allows = λ passes v. ground (arith, within passes);
    }

none_possible :
    (size : ℕ) (operation : GpuOperation) (limits : GpuPassLimits)
    → limits.valid ≢ true
    → (size ≡ 0) ⊎ (size_max < pass_bytes size operation)
    → IsLimits size operation limits
none_possible size operation limits invalid h = record {
  possible = (λ v. absurd (invalid v), λ ok. absurd (ground arith));
  bytes = λ v. absurd (invalid v);
  allows = λ passes v. absurd (invalid v);
}

-- The limits are valid just when one pass of a non-empty buffer is within the payload cap; then
-- a pass count is within the effective maximum just when it is within the dispatch cap and its
-- exact payload is within the payload cap.
pub calculate_gpu_pass_limits-IsLimits :
    (size : ℕ) (operation : GpuOperation)
    → IsLimits size operation (calculate_gpu_pass_limits size operation)
unfolding calculate_gpu_pass_limits initial_limits operation_payload_multiplier
calculate_gpu_pass_limits-IsLimits size operation =
    let invalid : false ≢ true = λ e. cc in
    elim (Bool-cases (size == 0)) [
      | inl z ↦ rw z (none_possible size operation _ invalid (inl (ground arith)))
      | inr nz ↦ elim (Bool-cases (leb (pass_bytes size operation) size_max)) [
        | inl fits ↦
            let e = checked_multiply-fits size (bytes_moved operation) (ground arith) in
            rw (nz, e) (finish_limits-IsLimits size operation (ground arith))
        | inr big ↦
            let e = checked_multiply-overflows size (bytes_moved operation) (ground arith) in
            rw (nz, e) (none_possible size operation _ invalid (inr (ground arith)))
      ]
    ]
