-- ===== src/Common/Words.antt =====
-- size_t and uint64_t: numbers below 2 ^ 64, with the wrap of the C++ operators written out.
use Prim.Native.Nat.{ℕ, ◌+◌, ◌-◌, ◌*◌, ◌%◌, ◌^◌, ◌≤◌}
use mathlib.Core.Path.{◌≡◌}
use native.Mathlib.Omega.{arith}

-- std::numeric_limits<size_t>::max() of the 64-bit targets.
abbrev pub size_max : ℕ
size_max = 2 ^ 64 - 1

-- std::numeric_limits<int>::max().
abbrev pub int_max : ℕ
int_max = 2 ^ 31 - 1

abbrev pub add_size : ℕ → ℕ → ℕ
add_size a b = (a + b) % 2 ^ 64

abbrev pub sub_size : ℕ → ℕ → ℕ
sub_size a b = (a + 2 ^ 64 - b) % 2 ^ 64

abbrev pub mul_size : ℕ → ℕ → ℕ
mul_size a b = (a * b) % 2 ^ 64

-- Where the true result fits, the operators give it.
pub add_size_exact : (a b : ℕ) → a + b ≤ size_max → add_size a b ≡ a + b
add_size_exact a b h = omega arith

pub sub_size_exact : (a b : ℕ) → a ≤ size_max → b ≤ a → sub_size a b ≡ a - b
sub_size_exact a b h k = omega arith

pub mul_size_exact : (a b : ℕ) → a * b ≤ size_max → mul_size a b ≡ a * b
mul_size_exact a b h = omega arith
