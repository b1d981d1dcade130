-- ===== src/Common/Division.antt =====
-- Multiples and quotients by a variable.
use native.Mathlib.Nat.{div-add-mod, mod-lt}
use mac_os_memory_benchmark.Common.{
  ℕ, zero, suc, ◌+◌, ◌-◌, ◌*◌, ◌/◌, ◌%◌, ◌≤◌, ◌<◌, ◌≡◌, ◌≢◌, ◌⊎◌, arith, ap, not, ◌==◌,
  if◌then◌else◌,
}

pub mul_step : (q a b : ℕ) → a < b → q * a + q ≤ q * b
mul_step q a b h = grind arith

-- Two multiples of q less than q apart are equal.
pub multiple_unique :
    (q r s v : ℕ) → q ≢ 0 → r % q ≡ 0 → s % q ≡ 0 → v ≤ r → r < v + q → v ≤ s → s < v + q → r ≡ s
multiple_unique q r s v hq hr hs h1 h2 h3 h4 = ground (
  arith,
  div-add-mod r q,
  div-add-mod s q,
  mul_step q (r / q) (s / q),
  mul_step q (s / q) (r / q),
)

pub mul-mod_left : (q k : ℕ) → (q * k) % q ≡ 0
mul-mod_left q k = grind arith

pub add_up_multiple : (v q : ℕ) → q ≢ 0 → (v + (q - v % q)) % q ≡ 0
add_up_multiple v q h = ground (arith, div-add-mod v q, mul-mod_left q (v / q + 1))

pub round_down_multiple : (v q : ℕ) → (v - v % q) % q ≡ 0
round_down_multiple v q = ground (arith, div-add-mod v q, mul-mod_left q (v / q))

-- The quotient rounded up is the least count whose multiple reaches a floor.
abbrev pub ceil_div : ℕ → ℕ → ℕ
ceil_div n w = n / w + (if not (n % w == 0) then 1 else 0)

pub ceil_div_reaches : (n w : ℕ) → w ≢ 0 → n ≤ ceil_div n w * w
ceil_div_reaches n w h = grind (arith, div-add-mod n w)

pub ceil_div_least : (n w k : ℕ) → w ≢ 0 → n ≤ k * w → ceil_div n w ≤ k
ceil_div_least n w k h le =
    ground (arith, div-add-mod n w, mul_step w k (n / w), mul_step w k (n / w + 1))

-- A multiple that is no larger than a value is no larger than the value rounded down.
pub multiple-le-round_down : (m v q : ℕ) → m % q ≡ 0 → m ≤ v → m ≤ v - v % q
multiple-le-round_down m v zero h le = ground arith
multiple-le-round_down m v (suc q) h le = ground (
  arith,
  div-add-mod v (suc q),
  div-add-mod m (suc q),
  mul_step (suc q) (v / suc q) (m / suc q),
  mul_step (suc q) (m / suc q) (v / suc q),
  mod-lt v {m = suc q} (omega arith),
)

-- Quotient and remainder from a decomposition.
pub quotient_unique : (n d q r : ℕ) → r < d → n ≡ d * q + r → (n / d ≡ q) × (n % d ≡ r)
quotient_unique n d q r h e =
    let same : n / d ≡ q =
      ground
        (arith, div-add-mod n d, mod-lt n {m = d}, mul_step d (n / d) q, mul_step d q (n / d)) in
    (same, ground (arith, div-add-mod n d, ap (λ k. d * k) same))

-- The quotient and the remainder of the next number.
pub next_quotient :
    (s d : ℕ)
    → 1 ≤ d
    → ((s % d + 1 < d) × (suc s / d ≡ s / d) × (suc s % d ≡ s % d + 1))
      ⊎ ((s % d + 1 ≡ d) × (suc s / d ≡ s / d + 1) × (suc s % d ≡ 0))
next_quotient s d h = ground (
  arith,
  div-add-mod s d,
  mod-lt s {m = d},
  quotient_unique (suc s) d (s / d) (s % d + 1),
  quotient_unique (suc s) d (s / d + 1) 0,
)
