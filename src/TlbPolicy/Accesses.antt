-- ===== src/TlbPolicy/Accesses.antt =====
-- The access counts of the TLB analysis are whole cycles of the pointer chain.
use native.Mathlib.Nat.{div-add-mod}
use mac_os_memory_benchmark.Common.{
  ℕ, ◌+◌, ◌-◌, ◌*◌, ◌/◌, ◌%◌, ◌≤◌, ◌<◌, ◌≡◌, ◌≢◌, arith, min, max, size_max, true, Bool-cases, inl,
  inr, ltb, ◌==◌, ◌||◌, false,
}
use mac_os_memory_benchmark.Common.Division.{
  mul-mod_left, round_down_multiple, multiple-le-round_down,
}
use mac_os_memory_benchmark.Numeric.{saturating_multiply, saturating_round_up, Floating}
use mac_os_memory_benchmark.Numeric.Checked.{saturating_multiply-min, saturating_round_up-cases}
use mac_os_memory_benchmark.TlbPolicy.{
  TlbRuntimeProfile, calculate_tlb_pilot_accesses, clamp, whole_cycle_accesses,
  calculate_tlb_calibrated_accesses, pilot_access_floor, pilot_minimum_cycles,
}

quotient_fits : (n k : ℕ) → n ≤ size_max / k → n * k ≤ size_max
quotient_fits n k h = grind (arith, div-add-mod size_max k)

-- A multiple that covers the pilot is within the address range.
pilot_multiple :
    (nodes : ℕ)
    → 1 ≤ nodes
    → nodes ≤ size_max / 2
    → ((m : ℕ) → max pilot_access_floor (nodes * 2) ≤ m → m ≤ size_max → m % nodes ≢ 0)
    → ⊥
pilot_multiple nodes pos few none_fits = elim (Bool-cases (ltb 4096 nodes)) [
  | inl e ↦ none_fits (nodes * 2) (ground arith) (omega arith) (mul-mod_left nodes 2)
  | inr e ↦ none_fits (nodes * 4096) (grind arith) (grind arith) (mul-mod_left nodes 4096)
]

-- For a node count from 1 to half of the largest `size_t`, the pilot is the least number of whole
-- chain cycles that has two cycles or more and 4096 accesses or more.
pub calculate_tlb_pilot_accesses-IsWhole :
    (nodes : ℕ)
    → 1 ≤ nodes
    → nodes ≤ size_max / pilot_minimum_cycles
    → (calculate_tlb_pilot_accesses nodes % nodes ≡ 0)
      × (max pilot_access_floor (nodes * pilot_minimum_cycles) ≤ calculate_tlb_pilot_accesses nodes)
      × (calculate_tlb_pilot_accesses nodes
          < max pilot_access_floor (nodes * pilot_minimum_cycles) + nodes)
unfolding calculate_tlb_pilot_accesses
calculate_tlb_pilot_accesses-IsWhole nodes pos few =
    let product : saturating_multiply nodes 2 ≡ nodes * 2 =
      omega (arith, saturating_multiply-min nodes 2) in
    let guard_off : (nodes == 0 || ltb (size_max / pilot_minimum_cycles) nodes) ≡ false =
      ground arith in
    rw (guard_off, product)
      (elim (saturating_round_up-cases (max pilot_access_floor (nodes * 2)) nodes (omega arith)
        (omega arith) (omega arith)) [
          | inl is ↦ is
          | inr (_, none_fits) ↦ absurd (pilot_multiple nodes pos (omega arith) none_fits)
        ])

-- What a calibrated count promises: whole cycles, at least the minimum number of them, and no more
-- than the maximum of the profile or that minimum, whichever is larger.
abbrev pub IsCalibrated : ℕ → TlbRuntimeProfile → ℕ → Type 0
IsCalibrated nodes profile count =
    (count % nodes ≡ 0)
    × (nodes * profile.minimum_chain_cycles ≤ count)
    × (count ≤ max profile.maximum_accesses (nodes * profile.minimum_chain_cycles))

capped-IsCalibrated :
    (nodes minimum maximum count : ℕ)
    → 1 ≤ nodes
    → minimum % nodes ≡ 0
    → minimum ≤ maximum
    → maximum ≤ size_max
    → nodes ≤ size_max
    → minimum ≤ count
    → count ≤ maximum
    → (min (saturating_round_up count nodes) (maximum - maximum % nodes) % nodes ≡ 0)
      × (minimum ≤ min (saturating_round_up count nodes) (maximum - maximum % nodes))
      × (min (saturating_round_up count nodes) (maximum - maximum % nodes) ≤ maximum)
capped-IsCalibrated nodes minimum maximum count pos h1 h2 h3 h4 h5 h6 = ground (
  arith,
  saturating_round_up-cases count nodes (omega arith) h4 (omega arith),
  round_down_multiple maximum nodes,
  multiple-le-round_down minimum maximum nodes h1 h2,
)

whole_cycle_accesses-IsCalibrated :
    (nodes desired : ℕ) (profile : TlbRuntimeProfile)
    → 1 ≤ nodes
    → nodes * profile.minimum_chain_cycles ≤ size_max
    → profile.maximum_accesses ≤ size_max
    → nodes ≤ size_max
    → IsCalibrated nodes profile (whole_cycle_accesses nodes desired profile)
unfolding whole_cycle_accesses clamp
whole_cycle_accesses-IsCalibrated nodes desired profile pos fits most small =
    let minimum = nodes * profile.minimum_chain_cycles in
    let product : saturating_multiply nodes profile.minimum_chain_cycles ≡ minimum =
      omega (arith, saturating_multiply-min nodes profile.minimum_chain_cycles) in
    rw product (
      capped-IsCalibrated nodes minimum (max profile.maximum_accesses minimum)
        (clamp desired minimum (max profile.maximum_accesses minimum)) pos
        (mul-mod_left nodes profile.minimum_chain_cycles) (omega arith) (omega arith) small
        (unfold clamp in ground arith) (unfold clamp in ground arith))

module _ (fl : Floating) (desired : ℕ → Floating.Double fl → ℕ → ℕ) where
  open fl use {Double, is_finite, is_positive}

  calibrated_accepted :
      (nodes pilot : ℕ) (duration : Double) (profile : TlbRuntimeProfile)
      → 1 ≤ nodes
      → 1 ≤ pilot
      → (is_finite duration ≡ true) × (is_positive duration ≡ true)
      → (1 ≤ profile.target_measurement_ns) × (1 ≤ profile.minimum_chain_cycles)
      → nodes ≤ size_max / profile.minimum_chain_cycles
      → calculate_tlb_calibrated_accesses fl desired nodes pilot duration profile
        ≡ whole_cycle_accesses nodes (desired profile.target_measurement_ns duration pilot) profile
  unfolding calculate_tlb_calibrated_accesses
  calibrated_accepted nodes pilot duration profile hn hp hd hr few = ground arith

  -- On arguments that the function accepts, with a node count and a maximum that fit `size_t`, the
  -- calibrated count is whole cycles of the chain, between the minimum number of cycles and the
  -- maximum of the profile (or that minimum where it is larger), whatever the measured duration
  -- is.
  pub calculate_tlb_calibrated_accesses-IsCalibrated :
      (nodes pilot : ℕ) (duration : Double) (profile : TlbRuntimeProfile)
      → (1 ≤ nodes) × (nodes ≤ size_max)
      → 1 ≤ pilot
      → (is_finite duration ≡ true) × (is_positive duration ≡ true)
      → (1 ≤ profile.target_measurement_ns) × (1 ≤ profile.minimum_chain_cycles)
      → nodes ≤ size_max / profile.minimum_chain_cycles
      → profile.maximum_accesses ≤ size_max
      → IsCalibrated nodes profile
          (calculate_tlb_calibrated_accesses fl desired nodes pilot duration profile)
  calculate_tlb_calibrated_accesses-IsCalibrated nodes pilot duration profile hn hp hd hr few most =
      rw (calibrated_accepted nodes pilot duration profile hn.0 hp hd hr few) (
        whole_cycle_accesses-IsCalibrated nodes
          (desired profile.target_measurement_ns duration pilot) profile hn.0
          (quotient_fits nodes profile.minimum_chain_cycles few) most hn.1)
