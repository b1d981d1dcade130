-- ===== src/Seeds.antt =====
-- Deterministic seeds: `splitmix64` of src/utils/seed_utils.cpp.
use Prim.Native.Nat.{bit_xor}
use mac_os_memory_benchmark.Common.{ℕ, ◌/◌, ◌^◌, add_size, mul_size}

-- A right shift of a `uint64_t` is a division by a power of two.
pub splitmix64 : ℕ → ℕ
splitmix64 value =
    let value1 = add_size value 11400714819323198485 in
    let value2 = mul_size (bit_xor value1 (value1 / 2 ^ 30)) 13787848793156543929 in
    let value3 = mul_size (bit_xor value2 (value2 / 2 ^ 27)) 10723151780598845931 in
    bit_xor value3 (value3 / 2 ^ 31)
