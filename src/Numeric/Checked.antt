-- ===== src/Numeric/Checked.antt =====
-- What the checked and saturating operations return, on every branch.
use mathlib.Core.Option.{none-ne-some}
use mac_os_memory_benchmark.Common.{
  Option-cases, ◌⊎◌, false, refl, sym, ◌∙◌, ℕ, zero, suc, ◌+◌, ◌-◌, ◌*◌, ◌/◌, ◌%◌, ◌≤◌, ◌<◌, ◌≡◌,
  ◌≢◌, ◌↔◌, some, none, arith, size_max, min, Bool-cases, inl, inr, ◌==◌,
}
use mac_os_memory_benchmark.Common.Division.{add_up_multiple, multiple_unique}
use mac_os_memory_benchmark.Numeric.{
  checked_add, checked_multiply, checked_round_up, saturating_add, saturating_multiply,
  saturating_round_up,
}

-- For a right operand that fits `size_t`, `checked_add` succeeds just when the sum fits `size_t`,
-- and then returns it.
pub checked_add-some :
    (a b s : ℕ) → b ≤ size_max → (checked_add a b ≡ some s) ↔ ((s ≡ a + b) × (a + b ≤ size_max))
unfolding checked_add
checked_add-some a b s h = ground arith

pub checked_add-fits : (a b : ℕ) → a + b ≤ size_max → checked_add a b ≡ some (a + b)
unfolding checked_add
checked_add-fits a b h = ground arith

pub checked_add-overflows : (a b : ℕ) → b ≤ size_max → size_max < a + b → checked_add a b ≡ none
unfolding checked_add
checked_add-overflows a b hb h = ground arith

div_bound : (a b m : ℕ) → a ≢ 0 → (b ≤ m / a) ↔ (a * b ≤ m)
div_bound a b m h = (λ k. grind arith, λ k. grind arith)

pub checked_multiply-fits : (a b : ℕ) → a * b ≤ size_max → checked_multiply a b ≡ some (a * b)
unfolding checked_multiply
checked_multiply-fits zero b h = ground arith
checked_multiply-fits (suc a) b h = ground (arith, (div_bound (suc a) b size_max (omega arith)).1 h)

pub checked_multiply-overflows : (a b : ℕ) → size_max < a * b → checked_multiply a b ≡ none
unfolding checked_multiply
checked_multiply-overflows zero b h = absurd (omega arith)
checked_multiply-overflows (suc a) b h =
    ground (arith, λ (k : b ≤ size_max / suc a). (div_bound (suc a) b size_max (omega arith)).0 k)

-- `checked_multiply` succeeds just when the product fits `size_t`, and then returns it.
pub checked_multiply-some :
    (a b p : ℕ) → (checked_multiply a b ≡ some p) ↔ ((p ≡ a * b) × (a * b ≤ size_max))
checked_multiply-some a b p =
    ground (arith, checked_multiply-fits a b, checked_multiply-overflows a b)

-- For a value and a quantum that fit `size_t`, `checked_round_up` succeeds just when the quantum
-- is not 0 and its least multiple that is no smaller than the value fits `size_t`, and then
-- returns that multiple.
pub checked_round_up-some :
    (v q r : ℕ)
    → v ≤ size_max
    → q ≤ size_max
    → (checked_round_up v q ≡ some r)
      ↔ ((q ≢ 0) × (r % q ≡ 0) × (v ≤ r) × (r < v + q) × (r ≤ size_max))
unfolding checked_round_up
checked_round_up-some v q r hv hq = (
  λ e. ground (
    arith,
    add_up_multiple v q,
    checked_add-fits v (q - v % q),
    checked_add-overflows v (q - v % q),
  ),
  λ h. ground (
    arith,
    add_up_multiple v q,
    multiple_unique q r v v,
    multiple_unique q r (v + (q - v % q)) v,
    checked_add-fits v (q - v % q),
  ),
)

-- For a right operand that fits `size_t`, `saturating_add` is the sum, or the largest `size_t`
-- where the sum is larger.
pub saturating_add-min : (a b : ℕ) → b ≤ size_max → saturating_add a b ≡ min size_max (a + b)
unfolding saturating_add checked_add
saturating_add-min a b h = ground arith

-- `saturating_multiply` is the product, or the largest `size_t` where the product is larger.
pub saturating_multiply-min : (a b : ℕ) → saturating_multiply a b ≡ min size_max (a * b)
unfolding saturating_multiply
saturating_multiply-min a b =
    ground (arith, checked_multiply-fits a b, checked_multiply-overflows a b)

-- Where some multiple in range covers the value, rounding up succeeds and stays below it.
pub checked_round_up-least :
    (v q m : ℕ)
    → q ≢ 0
    → m % q ≡ 0
    → v ≤ m
    → m ≤ size_max
    → (r : ℕ) × (checked_round_up v q ≡ some r) × (v ≤ r) × (r ≤ m)
unfolding checked_round_up
checked_round_up-least v q m hq hm le fits = elim (Bool-cases (v % q == 0)) [
  | inl e ↦ (v, ground arith, ground arith, le)
  | inr e ↦
      let below : v + (q - v % q) ≤ m =
        ground (arith, multiple_unique q m (v + (q - v % q)) v, add_up_multiple v q) in
      (v + (q - v % q), ground (arith, checked_add-fits v (q - v % q)), omega arith, below)
]

-- `saturating_round_up` by a quantum that is not 0 is the least multiple that is no smaller than the
-- value, or the largest `size_t` where no such multiple fits.
pub saturating_round_up-cases :
    (v q : ℕ)
    → v ≤ size_max
    → q ≤ size_max
    → q ≢ 0
    → ((saturating_round_up v q % q ≡ 0)
        × (v ≤ saturating_round_up v q)
        × (saturating_round_up v q < v + q))
      ⊎ ((saturating_round_up v q ≡ size_max) × ((m : ℕ) → v ≤ m → m ≤ size_max → m % q ≢ 0))
unfolding saturating_round_up
saturating_round_up-cases v q hv hq nz =
    let no : (q == 0) ≡ false = ground arith in
    elim (Option-cases (checked_round_up v q)) [
      | inr (r, e) ↦
          let is = (checked_round_up-some v q r hv hq).0 e in rw (no, e) (inl (is.1, is.2, is.3))
      | inl e ↦
          rw (no, e)
            (inr (
              refl,
              λ m lo hi h.
                  (let (r, e', _, _) = checked_round_up-least v q m nz h lo hi in
                    none-ne-some r (sym e ∙ e')),
            ))
    ]
