-- ===== src/Partition/Ranges.antt =====
-- The boundaries of both planners: they rise from 0 to the size, the inner ones on cache lines,
-- and strictly when every worker can have a line of its own.
use native.Mathlib.Nat.{le-div_iff_mul-le}
use mathlib.Core.Path.{subst}
use mac_os_memory_benchmark.Common.{
  ℕ, zero, suc, ◌+◌, ◌/◌, ◌%◌, ◌≤◌, ◌<◌, ◌≡◌, ◌⊎◌, refl, ap, inl, List, [], ◌∷◌, arith, min, max,
  size_max, length,
}
use mac_os_memory_benchmark.Partition.{
  cache_line, chunk_ends, align_boundary, settle_boundaries, build_boundaries,
  build_aligned_boundaries,
}
use mac_os_memory_benchmark.Partition.Offsets.{
  Ascends, Ascends-bound, chunk_ends-Ascends, align_boundary_lem,
}

-- Every boundary but the last stands on a cache line, or at the end of the buffer.
abbrev pub InnerAligned : ℕ → List ℕ → Type 0
InnerAligned size [] = Unit
InnerAligned size (b ∷ []) = Unit
InnerAligned size (b ∷ c ∷ rest) =
    ((b % cache_line ≡ 0) ⊎ (b ≡ size)) × InnerAligned size (c ∷ rest)

module _ (size : ℕ) (fits : size ≤ size_max) where
  settle-Ascends :
      (gap low previous b : ℕ) (bs : List ℕ)
      → previous ≤ size
      → Ascends gap size low (b ∷ bs)
      → Ascends 0 size previous (settle_boundaries (align_boundary size) size previous (b ∷ bs))
  unfolding settle_boundaries
  settle-Ascends gap low previous b [] hp h = (omega arith, refl)
  settle-Ascends gap low previous b (c ∷ rest) hp h =
      let bound = Ascends-bound gap size b (c ∷ rest) h.1 in
      let aligned = align_boundary_lem size b fits bound in
      (
        ground arith,
        settle-Ascends gap b (max (align_boundary size b) previous) c rest (ground (arith, aligned))
            h.1,
      )

  settle-strict :
      (low previous b : ℕ) (bs : List ℕ)
      → previous < low + cache_line
      → Ascends cache_line size low (b ∷ bs)
      → Ascends 1 size previous (settle_boundaries (align_boundary size) size previous (b ∷ bs))
  unfolding settle_boundaries
  settle-strict low previous b [] hp h = (omega arith, refl)
  settle-strict low previous b (c ∷ rest) hp h =
      let bound = Ascends-bound cache_line size b (c ∷ rest) h.1 in
      let aligned = align_boundary_lem size b fits bound in
      (
        ground (arith, aligned),
        settle-strict b (max (align_boundary size b) previous) c rest (ground (arith, aligned)) h.1,
      )

  max_aligned :
      (previous b : ℕ)
      → (previous % cache_line ≡ 0) ⊎ (previous ≡ size)
      → b ≤ size
      → (max (align_boundary size b) previous % cache_line ≡ 0)
        ⊎ (max (align_boundary size b) previous ≡ size)
  max_aligned previous b hp h = ground (arith, align_boundary_lem size b fits h)

  settle-InnerAligned :
      (gap low previous b : ℕ) (bs : List ℕ)
      → (previous % cache_line ≡ 0) ⊎ (previous ≡ size)
      → Ascends gap size low (b ∷ bs)
      → InnerAligned size (settle_boundaries (align_boundary size) size previous (b ∷ bs))
  unfolding settle_boundaries
  settle-InnerAligned gap low previous b [] hp h = tt
  settle-InnerAligned gap low previous b (c ∷ []) hp h =
      let bound = Ascends-bound gap size b (c ∷ []) h.1 in (max_aligned previous b hp bound, tt)
  settle-InnerAligned gap low previous b (c ∷ d ∷ rest) hp h =
      let bound = Ascends-bound gap size b (c ∷ d ∷ rest) h.1 in
      let here = max_aligned previous b hp bound in
      (here, settle-InnerAligned gap b (max (align_boundary size b) previous) c (d ∷ rest) here h.1)

  -- Under the bound that the chunk ends keep, the second cap of the pattern planner does nothing.
  settle_cap :
      (gap low previous : ℕ) (bs : List ℕ)
      → Ascends gap size low bs
      → settle_boundaries (λ b. min (align_boundary size b) size) size previous bs
        ≡ settle_boundaries (align_boundary size) size previous bs
  unfolding settle_boundaries
  settle_cap gap low previous [] h = refl
  settle_cap gap low previous (b ∷ []) h = refl
  settle_cap gap low previous (b ∷ c ∷ rest) h =
      let bound = Ascends-bound gap size b (c ∷ rest) h.1 in
      let same : min (align_boundary size b) size ≡ align_boundary size b =
        omega (arith, align_boundary_lem size b fits bound) in
      rw (same, settle_cap gap b (max (align_boundary size b) previous) (c ∷ rest) h.1)

-- An ascent by larger steps is one by smaller steps.
Ascends-weaken :
    (big small size low : ℕ) (bs : List ℕ)
    → small ≤ big
    → Ascends big size low bs
    → Ascends small size low bs
Ascends-weaken big small size low [] h a = a
Ascends-weaken big small size low (b ∷ bs) h a =
    (omega arith, Ascends-weaken big small size b bs h a.1)

length-settle :
    (align : ℕ → ℕ) (size previous : ℕ) (bs : List ℕ)
    → length (settle_boundaries align size previous bs) ≡ length bs
unfolding settle_boundaries
length-settle align size previous [] = refl
length-settle align size previous (b ∷ []) = refl
length-settle align size previous (b ∷ c ∷ rest) =
    ap suc (length-settle align size (max (align b) previous) (c ∷ rest))

length-chunk_ends :
    (base remainder left w offset : ℕ) → length (chunk_ends base remainder left w offset) ≡ left
unfolding chunk_ends
length-chunk_ends base remainder zero w offset = refl
length-chunk_ends base remainder (suc left) w offset =
    omega (arith, length-chunk_ends base remainder left (w + 1))

-- The partition of a buffer into `workers` ranges, without the strictness.
pub record IsPartition (size workers : ℕ) (bs : List ℕ) : Type 0 where
  pub count : length bs ≡ workers
  pub rises : Ascends 0 size 0 bs
  pub aligned : InnerAligned size bs

settle-IsPartition :
    (size gap : ℕ) (bs : List ℕ)
    → size ≤ size_max
    → 1 ≤ length bs
    → Ascends gap size 0 bs
    → IsPartition size (length bs) (settle_boundaries (align_boundary size) size 0 bs)
settle-IsPartition size gap [] fits h a = absurd (omega arith)
settle-IsPartition size gap (b ∷ bs) fits h a = record {
  count = length-settle (align_boundary size) size 0 (b ∷ bs);
  rises = settle-Ascends size fits gap 0 0 b bs (omega arith) a;
  aligned = settle-InnerAligned size fits gap 0 0 b bs (inl (omega arith)) a;
}

-- For one worker or more and a size that fits `size_t`, the boundaries rise from 0 to the size,
-- one for each worker, with the inner ones on cache lines or at the end.
pub build_boundaries-IsPartition :
    (size workers : ℕ)
    → 1 ≤ workers
    → size ≤ size_max
    → IsPartition size workers (build_boundaries size workers)
unfolding build_boundaries
build_boundaries-IsPartition size workers h fits =
    let ends = chunk_ends (size / workers) (size % workers) workers 0 0 in
    let count = length-chunk_ends (size / workers) (size % workers) workers 0 0 in
    subst (λ w. IsPartition size w (settle_boundaries (align_boundary size) size 0 ends)) count
      (settle-IsPartition size (size / workers) ends fits (omega (arith, count))
        (chunk_ends-Ascends size workers h fits))

line_each :
    (size workers : ℕ) → 1 ≤ workers → workers ≤ size / cache_line → cache_line ≤ size / workers
line_each size workers h k = ground (
  arith,
  (le-div_iff_mul-le {k = cache_line} {x = workers} {y = size} (omega arith)).0 k,
  (le-div_iff_mul-le {k = workers} {x = cache_line} {y = size} h).1,
)

settle_boundaries-strict :
    (size gap : ℕ) (bs : List ℕ)
    → size ≤ size_max
    → 1 ≤ size
    → (length bs ≡ 1) ⊎ ((1 ≤ length bs) × (cache_line ≤ gap))
    → Ascends gap size 0 bs
    → Ascends 1 size 0 (settle_boundaries (align_boundary size) size 0 bs)
unfolding settle_boundaries
settle_boundaries-strict size gap [] fits pos h a = absurd (ground arith)
settle_boundaries-strict size gap (b ∷ []) fits pos h a = (omega arith, refl)
settle_boundaries-strict size gap (b ∷ c ∷ rest) fits pos h a =
    settle-strict size fits 0 0 b (c ∷ rest) (omega arith)
      (Ascends-weaken gap cache_line size 0 (b ∷ c ∷ rest) (ground arith) a)

-- For one worker or more, no more workers than whole cache lines (or a single one), and a size of
-- one byte or more that fits `size_t`, the boundaries rise strictly.
pub build_boundaries-strict :
    (size workers : ℕ)
    → 1 ≤ workers
    → workers ≤ max 1 (size / cache_line)
    → 1 ≤ size
    → size ≤ size_max
    → Ascends 1 size 0 (build_boundaries size workers)
unfolding build_boundaries
build_boundaries-strict size workers h hw pos fits =
    let count = length-chunk_ends (size / workers) (size % workers) workers 0 0 in
    settle_boundaries-strict size (size / workers) _ fits pos
      (rw count (ground (arith, line_each size workers h))) (chunk_ends-Ascends size workers h fits)

-- For one worker or more and a size that fits `size_t`, both planners compute the same boundaries.
pub build_aligned_boundaries-eq :
    (size workers : ℕ)
    → 1 ≤ workers
    → size ≤ size_max
    → build_aligned_boundaries size workers ≡ build_boundaries size workers
unfolding build_boundaries build_aligned_boundaries
build_aligned_boundaries-eq size workers h fits =
    settle_cap size fits (size / workers) 0 0 _ (chunk_ends-Ascends size workers h fits)
