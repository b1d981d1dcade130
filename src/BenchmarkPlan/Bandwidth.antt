-- ===== src/BenchmarkPlan/Bandwidth.antt =====
-- What a bandwidth plan promises: the worker ranges tile the buffer, and the totals are exact.
use mac_os_memory_benchmark.Common.{
  ℕ, zero, suc, ◌+◌, ◌-◌, ◌/◌, ◌≤◌, ◌≡◌, refl, ◌∙◌, List, [], ◌∷◌, arith, max, size_max, length,
  some,
}
use mac_os_memory_benchmark.Partition.{cache_line, build_boundaries}
use mac_os_memory_benchmark.Partition.Offsets.{Ascends}
use mac_os_memory_benchmark.Partition.Ranges.{build_boundaries-IsPartition, build_boundaries-strict}
use mac_os_memory_benchmark.BenchmarkPlan.{
  WorkerRange, WorkPlan, worker_ranges, populate_workers, try_candidates,
}

-- The ranges follow one another from `start` to `end` without gap or overlap, none of them empty.
abbrev pub Tiles : ℕ → ℕ → List WorkerRange → Type 0
Tiles start end [] = start ≡ end
Tiles start end (w ∷ ws) =
    (w.offset_bytes ≡ start) × (1 ≤ w.span_bytes) × Tiles (start + w.span_bytes) end ws

-- Strictly rising boundaries give one range to a worker.
worker_ranges-Tiles :
    (size start : ℕ) (ends : List ℕ)
    → Ascends 1 size start ends
    → (ws : List WorkerRange) × (worker_ranges start ends ≡ some ws)
      × Tiles start size ws
      × (length ws ≡ length ends)
unfolding worker_ranges
worker_ranges-Tiles size start [] h = ([], refl, h, refl)
worker_ranges-Tiles size start (end ∷ rest) h =
    let (ws, e, tiles, count) = worker_ranges-Tiles size end rest h.1 in
    let whole : start + (end - start) ≡ end = omega arith in
    (
      record { offset_bytes = start; span_bytes = end - start } ∷ ws,
      ground arith,
      (refl, omega arith, rw whole tiles),
      omega arith,
    )

-- A plan whose workers are the partition among `count` workers.
pub record IsPopulated (plan populated : WorkPlan) (count : ℕ) : Type 0 where
  pub same : populated ≡ record plan {
    boundaries = 0 ∷ build_boundaries plan.buffer_size_bytes count;
    workers = populated.workers;
    effective_threads = count;
  }
  pub tiles : Tiles 0 plan.buffer_size_bytes populated.workers
  pub one_each : length populated.workers ≡ count

populate_workers-IsPopulated :
    (plan : WorkPlan) (count : ℕ)
    → 1 ≤ count
    → count ≤ max 1 (plan.buffer_size_bytes / cache_line)
    → 1 ≤ plan.buffer_size_bytes
    → plan.buffer_size_bytes ≤ size_max
    → (populated : WorkPlan) × (populate_workers plan count ≡ some populated)
      × IsPopulated plan populated count
unfolding populate_workers
populate_workers-IsPopulated plan count h hc pos fits =
    let size = plan.buffer_size_bytes in
    let (ws, e, tiles, n) =
      worker_ranges-Tiles size 0 (build_boundaries size count)
        (build_boundaries-strict size count h hc pos fits) in
    (
      record plan {
        boundaries = 0 ∷ build_boundaries size count;
        workers = ws;
        effective_threads = count;
      },
      rw e,
      record {
        same = refl;
        tiles = tiles;
        one_each = n ∙ (build_boundaries-IsPartition size count h fits).count;
      },
    )

-- The first candidate always gives a partition: no fewer workers are ever tried.
pub try_candidates-IsPopulated :
    (plan : WorkPlan) (count : ℕ)
    → 1 ≤ count
    → count ≤ max 1 (plan.buffer_size_bytes / cache_line)
    → 1 ≤ plan.buffer_size_bytes
    → plan.buffer_size_bytes ≤ size_max
    → (populated : WorkPlan) × (try_candidates plan count ≡ some populated)
      × IsPopulated plan populated count
unfolding try_candidates
try_candidates-IsPopulated plan zero h hc pos fits = absurd (omega arith)
try_candidates-IsPopulated plan (suc count) h hc pos fits =
    let (populated, e, ok) = populate_workers-IsPopulated plan (suc count) h hc pos fits in
    (populated, rw (e, try_candidates), ok)
