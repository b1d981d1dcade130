-- ===== src/PatternPlan/Metrics/Slots.antt =====
-- What the closed forms of the phase metrics count. Slot `s` of a worker is accessed in the passes
-- whose phase is `s % period`.
use native.Mathlib.Nat.{div-add-mod, mod-lt}
use mac_os_memory_benchmark.Common.{
  ℕ, zero, suc, ◌+◌, ◌-◌, ◌*◌, ◌/◌, ◌%◌, ◌≤◌, ◌<◌, ◌≡◌, inl, inr, refl, arith, min, ltb, Bool-cases,
  ◌==◌, if◌then◌else◌,
}
use mac_os_memory_benchmark.Common.Division.{quotient_unique, next_quotient}
use mac_os_memory_benchmark.PatternPlan.Metrics.{phase_accesses}

-- The slots below `slots` that one phase accesses.
pub hits : ℕ → ℕ → ℕ → ℕ
hits period phase zero = 0
hits period phase (suc s) = hits period phase s + (if s % period == phase then 1 else 0)

-- The slots below `slots` that the first `phases` phases access.
pub covered : ℕ → ℕ → ℕ → ℕ
covered period phases zero = 0
covered period phases (suc s) = covered period phases s + (if ltb (s % period) phases then 1 else 0)

-- One more than the last of them, or 0.
pub reach : ℕ → ℕ → ℕ → ℕ
reach period phases zero = 0
reach period phases (suc s) = if ltb (s % period) phases then suc s else reach period phases s

-- The accesses of `passes` passes, pass `q` having the phase `q % period`.
pub visits : ℕ → ℕ → ℕ → ℕ
unfolding hits
visits period slots zero = 0
visits period slots (suc q) = visits period slots q + hits period (q % period) slots

pub covered_closed :
    (period phases slots : ℕ)
    → 1 ≤ period
    → phases ≤ period
    → covered period phases slots ≡ slots / period * phases + min (slots % period) phases
unfolding covered
covered_closed period phases zero h k = ground (arith, quotient_unique 0 period 0 0)
covered_closed period phases (suc s) h k = elim (next_quotient s period h) [
  | inl (lt, q, r) ↦ rw (q, r) (ground (arith, covered_closed period phases s h k))
  | inr (top, q, r) ↦ rw (q, r) (grind (arith, covered_closed period phases s h k))
]

covered_all : (period slots : ℕ) → 1 ≤ period → covered period period slots ≡ slots
unfolding covered
covered_all period zero h = refl
covered_all period (suc s) h = ground (arith, covered_all period s h, mod-lt s {m = period})

pub covered_bound : (period phases slots : ℕ) → covered period phases slots ≤ slots
unfolding covered
covered_bound period phases zero = omega arith
covered_bound period phases (suc s) = ground (arith, covered_bound period phases s)

covered_step :
    (period phase slots : ℕ)
    → covered period (phase + 1) slots ≡ covered period phase slots + hits period phase slots
unfolding covered hits
covered_step period phase zero = refl
covered_step period phase (suc s) = ground (arith, covered_step period phase s)

covered_zero : (period slots : ℕ) → covered period 0 slots ≡ 0
unfolding covered
covered_zero period zero = refl
covered_zero period (suc s) = ground (arith, covered_zero period s)

pub visits_closed :
    (period slots passes : ℕ)
    → 1 ≤ period
    → visits period slots passes ≡ passes / period * slots + covered period (passes % period) slots
unfolding visits
visits_closed period slots zero h =
    ground (arith, quotient_unique 0 period 0 0, covered_zero period slots)
visits_closed period slots (suc q) h =
    let before = visits_closed period slots q h in
    let step = covered_step period (q % period) slots in
    elim (next_quotient q period h) [
      | inl (lt, quotient, r) ↦ rw (quotient, r) (omega (arith, before, step))
      | inr (top, quotient, r) ↦
          let all : covered period (q % period + 1) slots ≡ slots =
            rw top (covered_all period slots h) in
          rw (quotient, r) (grind (arith, before, step, covered_zero period slots, all))
    ]

hits_closed :
    (period phase slots : ℕ)
    → phase < period
    → hits period phase slots ≡ slots / period + (if ltb phase (slots % period) then 1 else 0)
hits_closed period phase slots h = grind (
  arith,
  covered_step period phase slots,
  covered_closed period phase slots (omega arith) (omega arith),
  covered_closed period (phase + 1) slots (omega arith) (omega arith),
)

-- A worker without a tail slot for the phase has its last access in the last whole block.
last_block :
    (period phase slots : ℕ)
    → phase < period
    → phase < slots
    → slots % period ≤ phase
    → 1 + (slots - 1 - phase) / period ≡ slots / period
last_block period phase slots h lt tail =
    let whole = div-add-mod slots period in
    let some_block : 1 ≤ slots / period = grind arith in
    let split : period * (slots / period) ≡ period * (slots / period - 1) + period = grind arith in
    omega (
      arith,
      quotient_unique (slots - 1 - phase) period (slots / period - 1)
          (period + slots % period - 1 - phase) (omega arith) (omega arith),
    )

pub phase_accesses-hits :
    (period phase slots : ℕ)
    → phase < period
    → phase_accesses period phase slots ≡ hits period phase slots
unfolding phase_accesses
phase_accesses-hits period phase slots h =
    let closed = hits_closed period phase slots h in
    let whole = div-add-mod slots period in
    let block = last_block period phase slots h in
    let none_left : slots ≤ phase → slots / period ≡ 0 =
      λ le. (quotient_unique slots period 0 slots (omega arith) (omega arith)).0 in
    elim (Bool-cases (ltb phase (slots % period))) [
      | inl e ↦
          let q =
            quotient_unique (slots - 1 - phase) period (slots / period)
              (slots % period - 1 - phase) in
          ground (arith, mod-lt slots {m = period})
      | inr e ↦ ground (arith, mod-lt slots {m = period}, quotient_unique slots period 0 slots)
    ]

pub hits_bound : (period phase slots : ℕ) → hits period phase slots ≤ slots
unfolding hits
hits_bound period phase zero = omega arith
hits_bound period phase (suc s) = ground (arith, hits_bound period phase s)

-- An earlier phase has no fewer accesses.
pub hits_antitone :
    (period p q slots : ℕ) → p ≤ q → q < period → hits period q slots ≤ hits period p slots
hits_antitone period p q slots h k =
    ground (arith, hits_closed period p slots, hits_closed period q slots k)

-- The tail of the first phases, or the end of the last whole block.
pub reach_closed :
    (period phases slots : ℕ)
    → 1 ≤ phases
    → phases ≤ period
    → reach period phases slots ≡ (
        if ltb 0 (slots % period)
        then slots / period * period + min (slots % period) phases
        else if ltb 0 (slots / period)
        then (slots / period - 1) * period + phases
        else 0)
unfolding reach
reach_closed period phases zero h k = ground (arith, quotient_unique 0 period 0 0)
reach_closed period phases (suc s) h k =
    let before = reach_closed period phases s h k in
    let whole = div-add-mod s period in
    elim (next_quotient s period (omega arith)) [
      | inl (lt, q, r) ↦ rw (q, r) (grind (arith, before, whole))
      | inr (top, q, r) ↦ rw (q, r) (grind (arith, before, whole))
    ]

pub reach_bound : (period phases slots : ℕ) → reach period phases slots ≤ slots
unfolding reach
reach_bound period phases zero = omega arith
reach_bound period phases (suc s) = ground (arith, reach_bound period phases s)
