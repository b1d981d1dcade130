-- ===== src/PatternPlan/Search/Measured.antt =====
-- What a measured strided plan holds.
use mathlib.Core.Option.{some-injective}
use mathlib.Core.Path.{subst, subst₂}
use mac_os_memory_benchmark.Common.{
  ℕ, ◌*◌, ◌/◌, ◌≤◌, ◌≡◌, ◌≢◌, ◌⊎◌, inl, inr, refl, arith, some, Option-cases, Bool-cases, ltb,
  int_max, size_max, true, min, sym, ap, ◌==◌, ◌∙◌, ◌||◌, not, Bool,
}
use mac_os_memory_benchmark.Common.Int.{ℤ, pos_part, is_positive}
use mac_os_memory_benchmark.Numeric.{checked_add}
use mac_os_memory_benchmark.PatternPlan.{
  PatternStatus, PatternReason, PatternWorkPlan, Attempt, retry, aborted, done, try_candidates,
}
use mac_os_memory_benchmark.PatternPlan.Workers.{
  HoldsRanges, IsStridedPartition, HoldsAttempt, try_candidates-HoldsAttempt,
}
use mac_os_memory_benchmark.PatternPlan.Metrics.{set_strided_pattern_passes, aligned_slots}
use mac_os_memory_benchmark.PatternPlan.Metrics.Passes.{
  plan_metrics, tiles-SlotsFit, set_passes-HasPasses,
}
use mac_os_memory_benchmark.PatternPlan.Metrics.Totals.{IsPhaseMetrics}
use mac_os_memory_benchmark.PatternPlan.Search.{
  Selection, selected, failed, invalid_plan, skipped_plan, select_passes, finish_strided_plan,
  partition_strided_plan, build_strided_pattern_work_plan, initial_strided_plan,
}
use mac_os_memory_benchmark.PatternPlan.Search.Least.{select_passes-IsLeast}

-- What a measured strided plan promises: the partition, the pass count, and the metrics.
pub record IsStridedPlan (size stride access_size : ℕ) (threads : ℤ) (base floor : ℕ)
    (plan : PatternWorkPlan) : Type 0 where
  pub thread_count : (1 ≤ plan.effective_threads) × (plan.effective_threads ≤ pos_part threads)
  pub holds :
      HoldsRanges stride access_size 0 size plan.effective_threads 0 0 plan.workers
        plan.accesses_per_pass plan.payload_bytes_per_pass
  pub counted :
      IsPhaseMetrics access_size
        (stride / access_size)
        plan.passes
        (aligned_slots access_size plan.workers)
        (plan_metrics plan)
  pub payload : plan.total_payload_bytes ≡ plan.total_accesses * access_size
  pub pass_count : (floor ≡ 0) → plan.passes ≡ base
  pub pass_floor : 1 ≤ floor → floor ≤ plan.total_payload_bytes

invalid≢ : PatternStatus.invalid ≢ PatternStatus.measured
invalid≢ x = cc

Selection-cases :
    (s : Selection)
    → ((passes : ℕ) × (s ≡ selected passes)) ⊎ ((reason : PatternReason) × (s ≡ failed reason))
Selection-cases (selected passes) = inl (passes, refl)
Selection-cases (failed reason) = inr (reason, refl)

-- A measured plan is one whose passes were set, for the selected count.
finish_strided_plan-counted :
    (plan : PatternWorkPlan) (base floor : ℕ)
    → (finish_strided_plan plan base floor).status ≡ PatternStatus.measured
    → (passes : ℕ) × (select_passes plan base floor ≡ selected passes)
      × (p : PatternWorkPlan) × (set_strided_pattern_passes plan passes ≡ some p)
      × (finish_strided_plan plan base floor
          ≡ record p { status = PatternStatus.measured; status_reason = PatternReason.no_reason })
unfolding finish_strided_plan invalid_plan
finish_strided_plan-counted plan base floor m =
    elim (Selection-cases (select_passes plan base floor)) [
      | inr (_, e) ↦ absurd (invalid≢ (rw (e, finish_strided_plan) at m))
      | inl (passes, e) ↦ elim (Option-cases (set_strided_pattern_passes plan passes)) [
        | inl n ↦ absurd (invalid≢ (rw (e, finish_strided_plan, n) at m))
        | inr (p, y) ↦ (passes, e, p, y, rw (e, finish_strided_plan, y))
      ]
    ]

base_selected :
    (plan : PatternWorkPlan) (base floor passes : ℕ)
    → floor ≡ 0
    → select_passes plan base floor ≡ selected passes
    → passes ≡ base
unfolding select_passes
base_selected plan base floor passes z e =
    let yes : (floor == 0) ≡ true = ground arith in
    let same : selected base ≡ selected passes = rw yes at e in ground arith

select_passes-reaches :
    (plan p : PatternWorkPlan) (base floor passes : ℕ)
    → base ≤ int_max
    → select_passes plan base floor ≡ selected passes
    → set_strided_pattern_passes plan passes ≡ some p
    → 1 ≤ floor
    → floor ≤ p.total_payload_bytes
select_passes-reaches plan p base floor passes h e y pos =
    let (_, _, reaches, _) = select_passes-IsLeast plan base floor passes h pos e in
    let (q, z, enough) = reaches in
    let same : q ≡ p = some-injective q p (sym z ∙ y) in
    subst (λ (r : PatternWorkPlan). floor ≤ r.total_payload_bytes) same enough

finish_strided_plan-IsStridedPlan :
    (plan : PatternWorkPlan) (size : ℕ) (threads : ℤ) (base floor : ℕ)
    → size ≤ size_max
    → base ≤ int_max
    → (1 ≤ plan.effective_threads) × (plan.effective_threads ≤ pos_part threads)
    → HoldsRanges plan.stride_bytes plan.access_size_bytes 0 size plan.effective_threads 0 0
        plan.workers plan.accesses_per_pass plan.payload_bytes_per_pass
    → (finish_strided_plan plan base floor).status ≡ PatternStatus.measured
    → IsStridedPlan size plan.stride_bytes plan.access_size_bytes threads base floor
        (finish_strided_plan plan base floor)
finish_strided_plan-IsStridedPlan plan size threads base floor fits few count holds m =
    let (passes, e, p, y, is) = finish_strided_plan-counted plan base floor m in
    let slots =
      (tiles-SlotsFit plan.stride_bytes plan.access_size_bytes 0 size plan.workers fits
        holds.tiles).1 in
    let has = set_passes-HasPasses plan p passes slots y in
    let counted = has.metrics in
    rw is (record {
      thread_count = rw has.same_threads count;
      holds = rw (has.same_threads, has.same_workers, has.same_accesses, has.same_payload) holds;
      counted = rw (has.same_workers, has.pass_field) counted;
      payload = has.total_payload;
      pass_count = λ zero_floor. has.pass_field ∙ base_selected plan base floor passes zero_floor e;
      pass_floor = select_passes-reaches plan p base floor passes few e y;
    })

skipped≢ : PatternStatus.skipped ≢ PatternStatus.measured
skipped≢ x = cc

Attempt-cases : (r : Attempt) → (r ≡ retry) ⊎ (r ≡ aborted) ⊎ ((p : PatternWorkPlan) × (r ≡ done p))
Attempt-cases retry = inl refl
Attempt-cases aborted = inr (inl refl)
Attempt-cases (done p) = inr (inr (p, refl))

abbrev refused : ℕ → ℕ → ℤ → ℤ → Bool
refused stride access_size threads base =
    stride == 0 || access_size == 0 || not (is_positive threads) || not (is_positive base)

-- The guards that a plan passes before its partition.
built :
    (size stride access_size : ℕ) (threads base : ℤ) (floor : ℕ)
    → (build_strided_pattern_work_plan size stride access_size threads base floor).status
      ≡ PatternStatus.measured
    → (1 ≤ access_size)
      × (span : ℕ) × (build_strided_pattern_work_plan size stride access_size threads base floor
          ≡ partition_strided_plan
              (initial_strided_plan stride access_size threads)
              size
              span
              (pos_part base)
              floor)
unfolding build_strided_pattern_work_plan initial_strided_plan skipped_plan
built size stride access_size threads base floor m =
    elim (Bool-cases (refused stride access_size threads base)) [
      | inl e ↦ absurd (invalid≢ (rw (e, build_strided_pattern_work_plan) at m))
      | inr e ↦ elim (Option-cases (checked_add stride access_size)) [
        | inl n ↦ absurd (invalid≢ (rw (e, build_strided_pattern_work_plan, n) at m))
        | inr (span, y) ↦ elim (Bool-cases (ltb size span)) [
          | inl short ↦ absurd (skipped≢ (rw (e, build_strided_pattern_work_plan, y, short) at m))
          | inr enough ↦ (ground arith, span, rw (e, build_strided_pattern_work_plan, y, enough))
        ]
      ]
    ]

partitioned_strided :
    (plan : PatternWorkPlan) (size span base floor : ℕ)
    → plan.status ≢ PatternStatus.measured
    → (partition_strided_plan plan size span base floor).status ≡ PatternStatus.measured
    → (p : PatternWorkPlan) × (try_candidates plan size
          (min (pos_part plan.requested_threads) (min (size / span) int_max))
        ≡ done p)
      × (partition_strided_plan plan size span base floor ≡ finish_strided_plan p base floor)
unfolding partition_strided_plan skipped_plan
partitioned_strided plan size span base floor h m =
    elim (Attempt-cases (
      try_candidates plan size
        (min (pos_part plan.requested_threads) (min (size / span) int_max)))) [
          | inl e ↦ absurd (skipped≢ (rw (e, partition_strided_plan) at m))
          | inr (inl e) ↦ absurd (invalid≢ (rw (e, partition_strided_plan) at m))
          | inr (inr (p, e)) ↦ elim (Bool-cases (p.payload_bytes_per_pass == 0)) [
            | inl z ↦ absurd (skipped≢ (rw (e, partition_strided_plan, z) at m))
            | inr nz ↦ (p, e, rw (e, partition_strided_plan, nz))
          ]
        ]

finish_of_partition :
    (plan p : PatternWorkPlan) (size : ℕ) (threads : ℤ) (base floor : ℕ)
    → size ≤ size_max
    → base ≤ int_max
    → IsStridedPartition plan size p
    → (1 ≤ p.effective_threads) × (p.effective_threads ≤ pos_part threads)
    → (finish_strided_plan p base floor).status ≡ PatternStatus.measured
    → IsStridedPlan size plan.stride_bytes plan.access_size_bytes threads base floor
        (finish_strided_plan p base floor)
finish_of_partition plan p size threads base floor fits few is count m =
    let stride : p.stride_bytes ≡ plan.stride_bytes =
      ap (λ (q : PatternWorkPlan). q.stride_bytes) is.same in
    let access : p.access_size_bytes ≡ plan.access_size_bytes =
      ap (λ (q : PatternWorkPlan). q.access_size_bytes) is.same in
    let holds = is.holds in
    subst₂ (λ s a. IsStridedPlan size s a threads base floor (finish_strided_plan p base floor))
      stride access
      (finish_strided_plan-IsStridedPlan p size threads base floor fits few count
        (rw (stride, access) holds) m)

-- For a buffer size that fits `size_t` and base passes that fit `int`, a measured strided plan
-- tiles the buffer with ranges of two accesses or more, on no more workers than were asked for;
-- its totals and its phase metrics are what its passes access; and its pass count is the base, or
-- its payload reaches the floor where there is one.
pub build_strided_pattern_work_plan-IsStridedPlan :
    (size stride access_size : ℕ) (threads base : ℤ) (floor : ℕ)
    → size ≤ size_max
    → pos_part base ≤ int_max
    → (build_strided_pattern_work_plan size stride access_size threads base floor).status
      ≡ PatternStatus.measured
    → IsStridedPlan size stride access_size threads
        (pos_part base)
        floor
        (build_strided_pattern_work_plan size stride access_size threads base floor)
unfolding initial_strided_plan
build_strided_pattern_work_plan-IsStridedPlan size stride access_size threads base floor fits few
      m =
    let plan = initial_strided_plan stride access_size threads in
    let (access, span, e) = built size stride access_size threads base floor m in
    let (p, tried, e') =
      partitioned_strided plan size span (pos_part base) floor (λ x. cc) (rw e at m) in
    let most = min (pos_part threads) (min (size / span) int_max) in
    let (partition, one, bound) =
      subst (HoldsAttempt plan size most) tried
        (try_candidates-HoldsAttempt plan size most access fits) in
    rw (e, e')
      (finish_of_partition plan p size threads (pos_part base) floor fits few partition
        (one, omega arith) (rw (e, e') at m))
