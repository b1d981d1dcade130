-- ===== src/Common/Queries.antt =====
-- The answers to a sequence of stop queries.
use mac_os_memory_benchmark.Common.{ℕ, ◌+◌, ◌≤◌, ◌<◌, ◌≡◌, arith, Bool, false}

-- No query from one position up to another sees a stop request.
abbrev pub NoStop : (ℕ → Bool) → ℕ → ℕ → Type 0
NoStop stop first last = (q : ℕ) → first ≤ q → q < last → stop q ≡ false

-- Two quiet queries before the others.
pub two_before :
    (stop : ℕ → Bool) (query last : ℕ)
    → stop query ≡ false
    → stop (query + 1) ≡ false
    → NoStop stop (query + 2) last
    → NoStop stop query last
two_before stop query last e e' h q lo hi = ground (arith, h q)
