-- ===== src/PatternPlan/Metrics/Phases.antt =====
-- What each loop of the phase metrics returns, against a count of every slot.
use native.Mathlib.Nat.{div-add-mod}
use mathlib.Core.Option.{some-injective}
use mac_os_memory_benchmark.Common.{
  add_size, ℕ, ◌+◌, ◌-◌, ◌*◌, ◌/◌, ◌%◌, ◌≤◌, ◌<◌, ◌≡◌, arith, min, List, [], ◌∷◌, All, sum_map,
  Option, some, bind-some, ◌>>=◌, sym, ltb, Bool-cases, inl, inr, size_max,
}
use mac_os_memory_benchmark.Numeric.{checked_add, checked_multiply}
use mac_os_memory_benchmark.Numeric.Checked.{checked_add-some, checked_multiply-some}
use mac_os_memory_benchmark.PatternPlan.Metrics.{
  slots_per_cycle, phase_accesses, pass_extremes, selected_slots, add_selected, selected_end,
  distinct_and_bytes,
}
use mac_os_memory_benchmark.PatternPlan.Metrics.Slots.{
  hits, covered, reach, covered_closed, covered_bound, hits_bound, phase_accesses-hits,
  reach_closed, reach_bound,
}

-- Slot counts that `size_t` holds.
abbrev pub SlotsFit : List ℕ → Type 0
SlotsFit slots = All (λ n. n ≤ size_max) slots

-- A chain that starts with a checked addition.
pub add-some :
    {A : Type 0} (a b : ℕ) (f : ℕ → Option A) (r : A)
    → b ≤ size_max
    → (checked_add a b >>= f) ≡ some r
    → f (a + b) ≡ some r
add-some a b f r h e =
    let (s, e1, e2) = bind-some (checked_add a b) f r e in
    rw (sym ((checked_add-some a b s h).0 e1).0) e2

pub slots_per_cycle-some :
    (slots : List ℕ) (sum r : ℕ)
    → SlotsFit slots
    → slots_per_cycle slots sum ≡ some r
    → r ≡ sum + sum_map (λ n. n) slots
unfolding slots_per_cycle
slots_per_cycle-some [] sum r fit e = ground arith
slots_per_cycle-some (n ∷ rest) sum r fit e = elim (Bool-cases (ltb n 2)) [
  | inl few ↦ absurd (ground arith)
  | inr two ↦
      let e' = add-some sum n (slots_per_cycle rest) r fit.0 (rw two at e) in
      omega (arith, slots_per_cycle-some rest (sum + n) r fit.1 e')
]

selected_slots-some :
    (period phases n r : ℕ)
    → 1 ≤ period
    → phases ≤ period
    → n ≤ size_max
    → selected_slots period phases n ≡ some r
    → r ≡ covered period phases n
unfolding selected_slots
selected_slots-some period phases n r h k fit e =
    let (full, e1, e2) = bind-some (checked_multiply (n / period) phases) _ r e in
    ground (
      arith,
      (checked_multiply-some (n / period) phases full).0 e1,
      covered_closed period phases n h k,
      covered_bound period phases n,
    )

pub add_selected-some :
    (period phases : ℕ) (slots : List ℕ) (sum r : ℕ)
    → 1 ≤ period
    → phases ≤ period
    → SlotsFit slots
    → add_selected period phases slots sum ≡ some r
    → r ≡ sum + sum_map (covered period phases) slots
unfolding add_selected
add_selected-some period phases [] sum r h k fit e = ground arith
add_selected-some period phases (n ∷ rest) sum r h k fit e =
    let (selected, e1, e2) = bind-some (selected_slots period phases n) _ r e in
    let is = selected_slots-some period phases n selected h k fit.0 e1 in
    let bound : selected ≤ size_max = omega (arith, covered_bound period phases n, fit.0) in
    let e3 = add-some sum selected (add_selected period phases rest) r bound e2 in
    omega (arith, add_selected-some period phases rest (sum + selected) r h k fit.1 e3)

-- The workers that `calculate_phase_metrics` accepts have two slots or more.
pub slots_per_cycle-two :
    (slots : List ℕ) (sum r : ℕ) → slots_per_cycle slots sum ≡ some r → All (λ n. 2 ≤ n) slots
unfolding slots_per_cycle
slots_per_cycle-two [] sum r e = tt
slots_per_cycle-two (n ∷ rest) sum r e = elim (Bool-cases (ltb n 2)) [
  | inl few ↦ absurd (ground arith)
  | inr two ↦
      let (sum', e1, e2) = bind-some (checked_add sum n) (slots_per_cycle rest) r (rw two at e) in
      (ground arith, slots_per_cycle-two rest sum' r e2)
]

first_phase : (period n : ℕ) → 1 ≤ period → 2 ≤ n → 1 + (n - 1) / period ≡ hits period 0 n
unfolding phase_accesses
first_phase period n h two = ground (arith, phase_accesses-hits period 0 n h)

pub pass_extremes-some :
    (period last : ℕ) (slots : List ℕ) (maximum minimum : ℕ) (r : ℕ × ℕ)
    → last < period
    → SlotsFit slots
    → All (λ n. 2 ≤ n) slots
    → pass_extremes period last slots maximum minimum ≡ some r
    → (r.0 ≡ maximum + sum_map (hits period 0) slots)
      × (r.1 ≡ minimum + sum_map (hits period last) slots)
unfolding pass_extremes
pass_extremes-some period last [] maximum minimum r h fit two e =
    let same : (maximum, minimum) ≡ r = some-injective _ r e in
    rw (sym same) (omega arith, omega arith)
pass_extremes-some period last (n ∷ rest) maximum minimum r h fit two e =
    let first = first_phase period n (omega arith) two.0 in
    let final = phase_accesses-hits period last n h in
    let e1 =
      add-some maximum (1 + (n - 1) / period) _ r
        (omega (arith, first, hits_bound period 0 n, fit.0)) e in
    let e2 =
      add-some minimum (phase_accesses period last n) _ r
        (omega (arith, final, hits_bound period last n, fit.0)) e1 in
    let (most, fewest) = pass_extremes-some period last rest _ _ r h fit.1 two.1 e2 in
    (omega arith, omega arith)

selected_end-reach :
    (period phases n : ℕ)
    → 1 ≤ phases
    → phases ≤ period
    → 1 ≤ n
    → n ≤ size_max
    → (last : ℕ) × (selected_end period phases n ≡ some last)
      × (add_size last 1 ≡ reach period phases n)
unfolding selected_end
selected_end-reach period phases n h k pos fit =
    let closed = reach_closed period phases n h k in
    let bound = reach_bound period phases n in
    let whole = div-add-mod n period in
    let block : 1 ≤ n / period → (n / period - 1) * period + period ≡ n / period * period =
      λ some_block. grind arith in
    elim (Bool-cases (ltb 0 (n % period))) [
      | inl e ↦ (n / period * period + min (n % period) phases - 1, ground arith, ground arith)
      | inr e ↦ ((n / period - 1) * period + phases - 1, ground arith, ground arith)
    ]

pub distinct_and_bytes-some :
    (access period phases : ℕ) (slots : List ℕ) (distinct bytes : ℕ) (r : ℕ × ℕ)
    → 1 ≤ phases
    → phases ≤ period
    → SlotsFit slots
    → All (λ n. 2 ≤ n) slots
    → distinct_and_bytes access period phases slots distinct bytes ≡ some r
    → (r.0 ≡ distinct + sum_map (covered period phases) slots)
      × (r.1 ≡ bytes + sum_map (λ n. reach period phases n * access) slots)
unfolding distinct_and_bytes
distinct_and_bytes-some access period phases [] distinct bytes r h k fit two e =
    let same : (distinct, bytes) ≡ r = some-injective _ r e in
    rw (sym same) (omega arith, omega arith)
distinct_and_bytes-some access period phases (n ∷ rest) distinct bytes r h k fit two e =
    let (selected, e1, e2) = bind-some (selected_slots period phases n) _ r e in
    let is = selected_slots-some period phases n selected (omega arith) k fit.0 e1 in
    let e3 =
      add-some distinct selected _ r (omega (arith, covered_bound period phases n, fit.0)) e2 in
    let (last, end, reaches) =
      selected_end-reach period phases n h k (omega (arith, two.0)) fit.0 in
    let (bytes_here, e4, e5) =
      bind-some (checked_multiply (add_size last 1) access) _ r (rw end at e3) in
    let product = (checked_multiply-some (add_size last 1) access bytes_here).0 e4 in
    let e6 = add-some bytes bytes_here _ r (omega arith) e5 in
    let (count, sum) = distinct_and_bytes-some access period phases rest _ _ r h k fit.1 two.1 e6 in
    let here : bytes_here ≡ reach period phases n * access = rw (sym reaches) product.0 in
    (omega arith, omega arith)
