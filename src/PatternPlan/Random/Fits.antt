-- ===== src/PatternPlan/Random/Fits.antt =====
-- Every index of a worker leaves room for an access within the worker's range.
use mac_os_memory_benchmark.Common.{
  ℕ, zero, suc, ◌+◌, ◌-◌, ◌/◌, ◌≤◌, ◌<◌, ◌≡◌, List, [], ◌∷◌, ◌++◌, All, length, get_or, arith,
  size_max, sub_size, min, ltb, ◌==◌, ◌||◌, not, int_max, Bool-cases, inl, inr, refl, true, false,
}
use mac_os_memory_benchmark.Common.Int.{ℤ, pos_part, is_positive}
use mac_os_memory_benchmark.Partition.{build_aligned_boundaries}
use mac_os_memory_benchmark.Partition.Offsets.{Ascends, Ascends-bound}
use mac_os_memory_benchmark.PatternPlan.Workers.{boundaries_ascend}
use mac_os_memory_benchmark.PatternPlan.Random.{
  PatternRandomWorkerIndices, empty_workers, upper_bound, push_at, place_index, place_indices,
  build_random_worker_indices,
}

-- The workers have the ranges of the boundaries, and all of their indices fit.
abbrev pub FitRanges : ℕ → ℕ → List ℕ → List PatternRandomWorkerIndices → Type 0
FitRanges access_size start [] [] = Unit
FitRanges access_size start (end ∷ rest) (w ∷ ws) =
    (w.offset_bytes ≡ start)
    × (start + w.span_bytes ≡ end)
    × All (λ i. i + access_size ≤ w.span_bytes) w.indices
    × FitRanges access_size end rest ws
FitRanges access_size start _ _ = ⊥

All-append : (P : ℕ → Type 0) (xs : List ℕ) (x : ℕ) → All P xs → P x → All P (xs ++ (x ∷ []))
All-append P [] x a h = (h, tt)
All-append P (y ∷ ys) x a h = (a.0, All-append P ys x a.1 h)

module _ (access_size size : ℕ) (fits : size ≤ size_max) where
  empty-FitRanges :
      (start : ℕ) (ends : List ℕ)
      → Ascends 0 size start ends
      → FitRanges access_size start ends (empty_workers start ends)
  unfolding empty_workers
  empty-FitRanges start [] up = tt
  empty-FitRanges start (end ∷ rest) up =
      (refl, omega (arith, Ascends-bound 0 size end rest up.1), tt, empty-FitRanges end rest up.1)

  push-FitRanges :
      (start index : ℕ) (ends : List ℕ) (ws : List PatternRandomWorkerIndices)
      → Ascends 0 size start ends
      → start ≤ index
      → index < size
      → index ≤ get_or ends (upper_bound ends index) 0
      → index + access_size ≤ get_or ends (upper_bound ends index) 0
      → FitRanges access_size start ends ws
      → FitRanges access_size start ends (
          push_at
            (upper_bound ends index)
            (sub_size index (get_or (start ∷ ends) (upper_bound ends index) 0))
            ws)
  unfolding upper_bound push_at
  push-FitRanges start index [] [] up lo hi h room fit = fit
  push-FitRanges start index [] (w ∷ ws) up lo hi h room fit = fit
  push-FitRanges start index (end ∷ rest) [] up lo hi h room fit = absurd fit
  push-FitRanges start index (end ∷ rest) (w ∷ ws) up lo hi h room fit =
      elim (Bool-cases (ltb index end)) [
        | inl e ↦
            let local : sub_size index start + access_size ≤ w.span_bytes =
              (let room' = rw e at room in ground arith) in
            rw e (fit.0, fit.1, All-append _ w.indices (sub_size index start) fit.2 local, fit.3)
        | inr e ↦ rw e (
          fit.0,
          fit.1,
          fit.2,
          push-FitRanges end index rest ws up.1 (ground arith) hi (rw e at h) (rw e at room) fit.3,
        )
      ]

  place-FitRanges :
      (last index : ℕ) (ends : List ℕ) (ws : List PatternRandomWorkerIndices)
      → Ascends 0 size 0 ends
      → last < size
      → 1 ≤ access_size
      → get_or ends (upper_bound ends index) 0 ≤ size_max
      → FitRanges access_size 0 ends ws
      → FitRanges access_size 0 ends (place_index last access_size ends index ws)
  unfolding place_index
  place-FitRanges last index ends ws up small pos bound fit =
      let e = get_or ends (upper_bound ends index) 0 in
      elim (Bool-cases (
        ltb last index
        || upper_bound ends index == length ends
        || ltb e index
        || ltb (sub_size e index) access_size)) [
          | inl skip ↦ rw skip fit
          | inr keep ↦ rw keep (
              push-FitRanges 0 index ends ws up (omega arith) (ground arith) (ground arith)
                (ground arith) fit)
        ]

  end_bound : (start i : ℕ) (ends : List ℕ) → Ascends 0 size start ends → get_or ends i 0 ≤ size
  end_bound start i [] up = omega arith
  end_bound start zero (end ∷ rest) up = Ascends-bound 0 size end rest up.1
  end_bound start (suc i) (end ∷ rest) up = end_bound end i rest up.1

  all-FitRanges :
      (last : ℕ) (ends global : List ℕ) (ws : List PatternRandomWorkerIndices)
      → Ascends 0 size 0 ends
      → last < size
      → 1 ≤ access_size
      → FitRanges access_size 0 ends ws
      → FitRanges access_size 0 ends (place_indices last access_size ends global ws)
  unfolding place_indices
  all-FitRanges last ends [] ws up small pos fit = fit
  all-FitRanges last ends (index ∷ rest) ws up small pos fit =
      all-FitRanges last ends rest (place_index last access_size ends index ws) up small pos (
        place-FitRanges last index ends ws up small pos
          (omega (arith, end_bound 0 (upper_bound ends index) ends up)) fit)

-- For a buffer size that fits `size_t`, an access size from 1 to the buffer size, a positive
-- thread count and a worker count from 1 to the largest `int`, the ranges of the workers are those
-- of the partition, and every index of a worker leaves room for an access within the worker's
-- range, whatever the global indices are.
pub build_random_worker_indices-FitRanges :
    (size access_size : ℕ) (threads : ℤ) (global : List ℕ)
    → size ≤ size_max
    → (1 ≤ access_size) × (access_size ≤ size)
    → is_positive threads ≡ true
    → 1 ≤ min (pos_part threads) (size / access_size)
    → min (pos_part threads) (size / access_size) ≤ int_max
    → FitRanges access_size 0
        (build_aligned_boundaries size (min (pos_part threads) (size / access_size)))
        (build_random_worker_indices size access_size threads global)
unfolding build_random_worker_indices
build_random_worker_indices-FitRanges size access_size threads global fits ha ht pos few =
    let workers = min (pos_part threads) (size / access_size) in
    let up = (boundaries_ascend size workers pos fits).0 in
    let accepted : (ltb size access_size
          || access_size == 0
          || not (is_positive threads)
          || workers == 0
          || ltb int_max workers)
        ≡ false =
      ground arith in
    rw accepted (
      all-FitRanges access_size size fits (size - access_size) _ global _ up (omega arith) ha.0
        (empty-FitRanges access_size size fits 0 _ up))
