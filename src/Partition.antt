-- ===== src/Partition.antt =====
-- Splitting a buffer among workers, as both work planners do it:
-- src/benchmark/benchmark_work_plan.cpp and src/pattern_benchmark/pattern_work_plan.cpp.
-- A `boundaries` vector of workers + 1 entries is 0 followed by the list of the worker ends.
pub mod Offsets
pub mod Ranges
mod Tests
use mac_os_memory_benchmark.Common.{
  ℕ, zero, suc, ◌+◌, ◌-◌, ◌%◌, ◌/◌, min, max, List, [], ◌∷◌, Option, none, some, ltb, leb, ◌==◌,
  if◌then◌else◌, add_size, sub_size, ◌>>=◌,
}

-- Constants::CACHE_LINE_SIZE_BYTES
abbrev pub cache_line : ℕ
cache_line = 64

-- The first loop of both builders: the running ends of chunks whose sizes differ by one at most.
-- `left` workers are to go.
unfoldable pub chunk_ends : ℕ → ℕ → ℕ → ℕ → ℕ → List ℕ
chunk_ends base remainder zero worker offset = []
chunk_ends base remainder (suc left) worker offset =
    let end = add_size offset (add_size base (if ltb worker remainder then 1 else 0)) in
    end ∷ chunk_ends base remainder left (worker + 1) end

-- The rounding of one boundary up to a cache line, capped by the buffer.
unfoldable pub align_boundary : ℕ → ℕ → ℕ
align_boundary size boundary =
    if boundary % cache_line == 0
    then boundary
    else (let adjustment = cache_line - boundary % cache_line in
        if ltb (sub_size size boundary) adjustment then size else add_size boundary adjustment)

-- The second loop and `boundaries.back() = size`: the inner boundaries are adjusted in place, each
-- against the one before it, and the last is the size.
unfoldable pub settle_boundaries : (ℕ → ℕ) → ℕ → ℕ → List ℕ → List ℕ
settle_boundaries align size previous [] = []
settle_boundaries align size previous (b ∷ []) = size ∷ []
settle_boundaries align size previous (b ∷ c ∷ rest) =
    let boundary = max (align b) previous in
    boundary ∷ settle_boundaries align size boundary (c ∷ rest)

-- `build_boundaries` of the benchmark planner, without the leading 0.
pub build_boundaries : ℕ → ℕ → List ℕ
unfolding chunk_ends align_boundary settle_boundaries
build_boundaries size workers =
    settle_boundaries (align_boundary size) size 0
      (chunk_ends (size / workers) (size % workers) workers 0 0)

-- `build_aligned_boundaries` of the pattern planner, which caps each boundary once more.
unfoldable pub build_aligned_boundaries : ℕ → ℕ → List ℕ
unfolding chunk_ends align_boundary settle_boundaries
build_aligned_boundaries size threads =
    settle_boundaries (λ b. min (align_boundary size b) size) size 0
      (chunk_ends (size / threads) (size % threads) threads 0 0)
