-- ===== src/PatternPlan/Workers.antt =====
-- The worker ranges of a strided plan.
use mathlib.Core.Option.{some-injective}
use mathlib.Core.Path.{subst}
use native.Mathlib.Nat.{div-le_self}
use mac_os_memory_benchmark.Common.{
  ℕ, zero, suc, ◌+◌, ◌-◌, ◌*◌, ◌≤◌, ◌≡◌, refl, ap, sym, arith, List, [], ◌∷◌, some, Option-cases,
  Bool-cases, inl, inr, ltb, ◌||◌, size_max, sub_size, length, sum_map, bind-some,
}
use mac_os_memory_benchmark.Numeric.{checked_add, checked_multiply}
use mac_os_memory_benchmark.Numeric.Checked.{checked_add-some, checked_multiply-some}
use mac_os_memory_benchmark.Partition.{build_aligned_boundaries}
use mac_os_memory_benchmark.Partition.Offsets.{Ascends, Ascends-bound}
use mac_os_memory_benchmark.Partition.Ranges.{
  build_boundaries-IsPartition, build_aligned_boundaries-eq,
}
use mac_os_memory_benchmark.PatternPlan.{
  PatternWorkerRange, PatternWorkPlan, Populated, too_small, overflow, populated, prepend_range,
  strided_accesses, add_worker, populate_ranges, populate_worker_ranges, Attempt, retry, aborted,
  done, try_candidates,
}

-- The ranges follow one another from `start` to `end` without gap or overlap; each holds the last
-- of its accesses, of which there are two or more.
abbrev pub StridedTiles : ℕ → ℕ → ℕ → ℕ → List PatternWorkerRange → Type 0
StridedTiles stride access_size start end [] = start ≡ end
StridedTiles stride access_size start end (w ∷ ws) =
    (w.offset_bytes ≡ start)
    × (access_size ≤ w.span_bytes)
    × (w.accesses_per_pass ≡ strided_accesses stride access_size w.span_bytes)
    × (2 ≤ w.accesses_per_pass)
    × (w.payload_bytes_per_pass ≡ w.accesses_per_pass * access_size)
    × StridedTiles stride access_size (start + w.span_bytes) end ws

add_worker-some :
    (access_size accesses total_accesses total_payload : ℕ) (r : ℕ × ℕ × ℕ)
    → accesses ≤ size_max
    → add_worker access_size accesses total_accesses total_payload ≡ some r
    → (r.0 ≡ accesses * access_size)
      × (r.1 ≡ total_accesses + accesses)
      × (r.2 ≡ total_payload + accesses * access_size)
unfolding add_worker
add_worker-some access_size accesses total_accesses total_payload r h e =
    let (p, e1, f1) = bind-some (checked_multiply accesses access_size) _ r e in
    let (a, e2, f2) = bind-some (checked_add total_accesses accesses) _ r f1 in
    let (t, e3, f3) = bind-some (checked_add total_payload p) _ r f2 in
    let product = (checked_multiply-some accesses access_size p).0 e1 in
    let sum = (checked_add-some total_accesses accesses a h).0 e2 in
    let payload = (checked_add-some total_payload p t (omega arith)).0 e3 in
    let is = some-injective _ r f3 in
    (
      omega (arith, ap (λ (q : ℕ × ℕ × ℕ). q.0) is),
      omega (arith, ap (λ (q : ℕ × ℕ × ℕ). q.1) is),
      omega (arith, ap (λ (q : ℕ × ℕ × ℕ). q.2) is),
    )

-- What a populated partition holds.
pub record HoldsRanges (stride access_size start size count total_accesses total_payload : ℕ)
    (ws : List PatternWorkerRange) (accesses payload : ℕ) : Type 0 where
  pub tiles : StridedTiles stride access_size start size ws
  pub one_each : length ws ≡ count
  pub access_sum :
      accesses ≡ total_accesses + sum_map (λ (w : PatternWorkerRange). w.accesses_per_pass) ws
  pub payload_sum :
      payload ≡ total_payload + sum_map (λ (w : PatternWorkerRange). w.payload_bytes_per_pass) ws

strided_bound :
    (stride access_size span : ℕ)
    → 1 ≤ access_size
    → access_size ≤ span
    → strided_accesses stride access_size span ≤ span
unfolding strided_accesses
strided_bound stride access_size span h k = omega (arith, div-le_self (span - access_size) stride)

-- The same of a result of the loop; a failure promises nothing.
abbrev HoldsPopulated : ℕ → ℕ → ℕ → ℕ → ℕ → ℕ → ℕ → Populated → Type 0
HoldsPopulated stride access_size start size count ta tp (populated ws a p) =
    HoldsRanges stride access_size start size count ta tp ws a p
HoldsPopulated stride access_size start size count ta tp _ = Unit

prepend-HoldsPopulated :
    (stride access_size start size count ta tp : ℕ) (w : PatternWorkerRange) (r : Populated)
    → w.offset_bytes ≡ start
    → access_size ≤ w.span_bytes
    → w.accesses_per_pass ≡ strided_accesses stride access_size w.span_bytes
    → 2 ≤ w.accesses_per_pass
    → w.payload_bytes_per_pass ≡ w.accesses_per_pass * access_size
    → HoldsPopulated stride access_size
        (start + w.span_bytes)
        size
        count
        (ta + w.accesses_per_pass)
        (tp + w.payload_bytes_per_pass)
        r
    → HoldsPopulated stride access_size start size (suc count) ta tp (prepend_range w r)
unfolding prepend_range
prepend-HoldsPopulated stride access_size start size count ta tp w too_small h1 h2 h3 h4 h5 rest =
    tt
prepend-HoldsPopulated stride access_size start size count ta tp w overflow h1 h2 h3 h4 h5 rest = tt
prepend-HoldsPopulated stride access_size start size count ta tp w (populated ws a p) h1 h2 h3 h4 h5
      rest =
    record {
      tiles = (h1, h2, h3, h4, h5, rest.tiles);
      one_each = ap suc rest.one_each;
      access_sum = omega (arith, rest.access_sum);
      payload_sum = omega (arith, rest.payload_sum);
    }

populate_ranges-HoldsPopulated :
    (stride access_size size start : ℕ) (ends : List ℕ) (ta tp : ℕ)
    → 1 ≤ access_size
    → size ≤ size_max
    → Ascends 0 size start ends
    → HoldsPopulated stride access_size start size
        (length ends)
        ta
        tp
        (populate_ranges stride access_size start ends ta tp)
unfolding populate_ranges
populate_ranges-HoldsPopulated stride access_size size start [] ta tp h fits up = record {
  tiles = up;
  one_each = refl;
  access_sum = omega arith;
  payload_sum = omega arith;
}
populate_ranges-HoldsPopulated stride access_size size start (end ∷ rest) ta tp h fits up =
    let bound = Ascends-bound 0 size end rest up.1 in
    let exact : sub_size end start ≡ end - start = omega arith in
    let span = sub_size end start in
    let accesses = strided_accesses stride access_size span in
    elim (Bool-cases (ltb span access_size || ltb accesses 2)) [
      | inl small ↦ rw small tt
      | inr big ↦ elim (Option-cases (add_worker access_size accesses ta tp)) [
        | inl n ↦ rw (big, n) tt
        | inr ((wp, a, t), y) ↦
            let large : access_size ≤ span = ground arith in
            let sums =
              add_worker-some access_size accesses ta tp (wp, a, t)
                (omega (arith, exact, strided_bound stride access_size span h large)) y in
            rw (big, y)
              (prepend-HoldsPopulated stride access_size start size (length rest) ta tp _ _ refl
                large refl (ground arith) sums.0
                (let whole : start + span ≡ end = omega arith in
                  let pay : tp + wp ≡ t = omega arith in
                  rw (whole, sym sums.1, pay)
                    (populate_ranges-HoldsPopulated stride access_size size end rest a t h fits
                      up.1)))
      ]
    ]

-- The partition that a planner ends with.
pub record IsStridedPartition (plan : PatternWorkPlan) (size : ℕ) (p : PatternWorkPlan)
    : Type 0 where
  pub same : p ≡ record plan {
    workers = p.workers;
    effective_threads = p.effective_threads;
    accesses_per_pass = p.accesses_per_pass;
    payload_bytes_per_pass = p.payload_bytes_per_pass;
  }
  pub holds :
      HoldsRanges plan.stride_bytes plan.access_size_bytes 0 size p.effective_threads 0 0 p.workers
        p.accesses_per_pass p.payload_bytes_per_pass

abbrev pub HoldsAttempt : PatternWorkPlan → ℕ → ℕ → Attempt → Type 0
HoldsAttempt plan size most (done p) =
    IsStridedPartition plan size p × (1 ≤ p.effective_threads) × (p.effective_threads ≤ most)
HoldsAttempt plan size most _ = Unit

pub boundaries_ascend :
    (size workers : ℕ)
    → 1 ≤ workers
    → size ≤ size_max
    → Ascends 0 size 0 (build_aligned_boundaries size workers)
      × (length (build_aligned_boundaries size workers) ≡ workers)
boundaries_ascend size workers h fits =
    let is = build_boundaries-IsPartition size workers h fits in
    rw (build_aligned_boundaries-eq size workers h fits) (is.rises, is.count)

populate_worker_ranges-HoldsAttempt :
    (plan : PatternWorkPlan) (size workers : ℕ)
    → 1 ≤ plan.access_size_bytes
    → 1 ≤ workers
    → size ≤ size_max
    → HoldsAttempt plan size workers (populate_worker_ranges plan size workers)
unfolding populate_worker_ranges
populate_worker_ranges-HoldsAttempt plan size workers h pos fits =
    let (up, count) = boundaries_ascend size workers pos fits in
    go
      (populate_ranges plan.stride_bytes plan.access_size_bytes 0
        (build_aligned_boundaries size workers) 0 0)
      (subst
        (λ n. HoldsPopulated plan.stride_bytes plan.access_size_bytes 0 size n 0 0 (
          populate_ranges plan.stride_bytes plan.access_size_bytes 0
            (build_aligned_boundaries size workers) 0 0))
        count
        (populate_ranges-HoldsPopulated plan.stride_bytes plan.access_size_bytes size 0 _ 0 0 h fits
          up))
  where
    go :
        (r : Populated)
        → HoldsPopulated plan.stride_bytes plan.access_size_bytes 0 size workers 0 0 r
        → HoldsAttempt plan size workers (elim r [
          | too_small ↦ retry
          | overflow ↦ aborted
          | populated ranges accesses payload ↦ done (record plan {
            workers = ranges;
            effective_threads = workers;
            accesses_per_pass = accesses;
            payload_bytes_per_pass = payload;
          })
        ])
    go too_small x = tt
    go overflow x = tt
    go (populated ws a p) x = (record { same = refl; holds = x }, pos, omega arith)

HoldsAttempt-weaken :
    (plan : PatternWorkPlan) (size few most : ℕ) (r : Attempt)
    → few ≤ most
    → HoldsAttempt plan size few r
    → HoldsAttempt plan size most r
HoldsAttempt-weaken plan size few most retry h x = tt
HoldsAttempt-weaken plan size few most aborted h x = tt
HoldsAttempt-weaken plan size few most (done p) h x = (x.0, x.1, omega (arith, x.2))

-- Whatever the planner partitions into, the ranges tile the buffer.
pub try_candidates-HoldsAttempt :
    (plan : PatternWorkPlan) (size most : ℕ)
    → 1 ≤ plan.access_size_bytes
    → size ≤ size_max
    → HoldsAttempt plan size most (try_candidates plan size most)
unfolding try_candidates
try_candidates-HoldsAttempt plan size zero h fits = tt
try_candidates-HoldsAttempt plan size (suc n) h fits =
    go (populate_worker_ranges plan size (suc n))
      (HoldsAttempt-weaken plan size n (suc n) (try_candidates plan size n) (omega arith)
        (try_candidates-HoldsAttempt plan size n h fits))
      (populate_worker_ranges-HoldsAttempt plan size (suc n) h (omega arith) fits)
  where
    go :
        (r : Attempt)
        → HoldsAttempt plan size (suc n) (try_candidates plan size n)
        → HoldsAttempt plan size (suc n) r
        → HoldsAttempt plan size (suc n) (elim r [
          | retry ↦ try_candidates plan size n
          | aborted ↦ aborted
          | done plan' ↦ done plan'
        ])
    go retry fewer x = fewer
    go aborted fewer x = tt
    go (done p) fewer x = x
