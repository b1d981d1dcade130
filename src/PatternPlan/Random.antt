-- ===== src/PatternPlan/Random.antt =====
-- The random indices of each worker: `build_random_worker_indices` of
-- src/pattern_benchmark/pattern_work_plan.cpp.
pub mod Fits
use mac_os_memory_benchmark.Common.{
  ℕ, zero, suc, ◌+◌, ◌-◌, ◌/◌, min, List, [], ◌∷◌, ◌++◌, length, get_or, Bool, true, false, not,
  ◌||◌, ltb, leb, ◌==◌, if◌then◌else◌, int_max, sub_size,
}
use mac_os_memory_benchmark.Common.Int.{ℤ, pos_part, is_positive}
use mac_os_memory_benchmark.Partition.{build_aligned_boundaries}

pub record PatternRandomWorkerIndices : Type 0 where
  pub offset_bytes : ℕ
  pub span_bytes : ℕ
  pub indices : List ℕ

-- The workers before the indices are shared out; `start` is the boundary before `ends`.
pub empty_workers : ℕ → List ℕ → List PatternRandomWorkerIndices
empty_workers start [] = []
empty_workers start (end ∷ rest) =
    record { offset_bytes = start; span_bytes = sub_size end start; indices = [] }
    ∷ empty_workers end rest

-- The position of `std::upper_bound` in ascending boundaries: those up to the first that is larger.
pub upper_bound : List ℕ → ℕ → ℕ
upper_bound [] index = 0
upper_bound (b ∷ bs) index = if ltb index b then 0 else suc (upper_bound bs index)

-- `workers[worker].indices.push_back(local)`
pub push_at : ℕ → ℕ → List PatternRandomWorkerIndices → List PatternRandomWorkerIndices
push_at worker local [] = []
push_at zero local (w ∷ ws) = record w { indices = w.indices ++ (local ∷ []) } ∷ ws
push_at (suc worker) local (w ∷ ws) = w ∷ push_at worker local ws

-- One turn of the loop over the global indices.
pub place_index :
    ℕ → ℕ → List ℕ → ℕ → List PatternRandomWorkerIndices → List PatternRandomWorkerIndices
unfolding upper_bound push_at
place_index last_valid_offset access_size ends index workers =
    let worker = upper_bound ends index in
    let worker_end = get_or ends worker 0 in
    if ltb last_valid_offset index
      || worker == length ends
      || ltb worker_end index
      || ltb (sub_size worker_end index) access_size
    then workers
    else push_at worker (sub_size index (get_or (0 ∷ ends) worker 0)) workers

pub place_indices :
    ℕ → ℕ → List ℕ → List ℕ → List PatternRandomWorkerIndices → List PatternRandomWorkerIndices
unfolding place_index
place_indices last_valid_offset access_size ends [] workers = workers
place_indices last_valid_offset access_size ends (index ∷ rest) workers =
    place_indices last_valid_offset access_size ends rest
      (place_index last_valid_offset access_size ends index workers)

pub build_random_worker_indices : ℕ → ℕ → ℤ → List ℕ → List PatternRandomWorkerIndices
unfolding empty_workers place_indices
build_random_worker_indices buffer_size access_size requested_threads global_indices =
    let maximum_workers = min (pos_part requested_threads) (buffer_size / access_size) in
    if ltb buffer_size access_size
      || access_size == 0
      || not (is_positive requested_threads)
      || maximum_workers == 0
      || ltb int_max maximum_workers
    then []
    else (let ends = build_aligned_boundaries buffer_size maximum_workers in
        place_indices (buffer_size - access_size) access_size ends global_indices
          (empty_workers 0 ends))
