-- ===== src/GpuPlan/Grid/Valid.antt =====
-- Which requests give a valid plan, and what its grid covers.
use native.Mathlib.Nat.{div-add-mod, mod-lt}
use mac_os_memory_benchmark.Common.{
  ℕ, ◌+◌, ◌-◌, ◌*◌, ◌/◌, ◌%◌, ◌≤◌, ◌<◌, ◌≡◌, ◌⊎◌, ◌≢◌, refl, arith, min, max, true, false,
  Option-cases, Bool-cases, inl, inr, not, ap, ◌∙◌, Bool, if◌then◌else◌,
}
use mac_os_memory_benchmark.Common.Division.{ceil_div_reaches, ceil_div_least}
use mac_os_memory_benchmark.Numeric.{checked_multiply}
use mac_os_memory_benchmark.Numeric.Checked.{checked_multiply-some}
use mac_os_memory_benchmark.GpuPlan.{
  max_dispatches, max_exact_payload, GpuPassLimits, GpuWorkPlanRequest, GpuWorkPlan, threads_cap,
  vector_width, GpuReason, no_reason, exceeded_cap_reason, derive_gpu_operation_seed,
}
use mac_os_memory_benchmark.GpuPlan.Limits.{calculate_gpu_pass_limits}
use mac_os_memory_benchmark.GpuPlan.Limits.Bound.{pass_bytes, calculate_gpu_pass_limits-IsLimits}
use mac_os_memory_benchmark.GpuPlan.Grid.{
  initial_gpu_plan, fitted_threads, grid_plan, finish_gpu_plan, refusal, build_gpu_work_plan,
  required_groups, tested_plan,
}

-- The largest thread count of a group that is a multiple of the execution width.
abbrev pub IsFitted : GpuWorkPlanRequest → ℕ → Type 0
IsFitted r threads =
    (1 ≤ threads)
    × (threads % r.thread_execution_width ≡ 0)
    × (threads ≤ min threads_cap r.max_total_threads_per_threadgroup)
    × (min threads_cap r.max_total_threads_per_threadgroup < threads + r.thread_execution_width)

-- What a valid plan promises.
pub record IsGpuPlan (r : GpuWorkPlanRequest) (plan : GpuWorkPlan) : Type 0 where
  pub within_caps :
      (1 ≤ plan.passes)
      × (plan.passes ≡ r.passes)
      × (plan.passes ≤ max_dispatches)
      × (plan.exact_payload_bytes ≤ max_exact_payload)
  pub payload :
      plan.exact_payload_bytes ≡ pass_bytes r.requested_buffer_bytes r.operation * plan.passes
  pub threads : IsFitted r plan.threads_per_threadgroup
  pub vectors :
      (plan.vector_count * vector_width + plan.tail_bytes ≡ r.requested_buffer_bytes)
      × (plan.tail_bytes < vector_width)
  pub groups :
      (1 ≤ plan.threadgroups_per_grid)
      × (plan.threadgroups_per_grid ≤ r.maximum_threadgroups_per_grid)
      × (plan.grid_threads ≡ plan.threadgroups_per_grid * plan.threads_per_threadgroup)
  pub covers :
      (plan.vector_count ≤ plan.grid_threads)
      ⊎ (plan.threadgroups_per_grid ≡ r.maximum_threadgroups_per_grid)
  pub no_idle_group :
      (plan.threadgroups_per_grid ≡ 1)
      ⊎ ((plan.threadgroups_per_grid - 1) * plan.threads_per_threadgroup < plan.vector_count)

-- The tests that a request passes.
pub record PassesTests (r : GpuWorkPlanRequest) (limits : GpuPassLimits) : Type 0 where
  pub some_passes : 1 ≤ r.passes
  pub few_passes : r.passes ≤ limits.effective_maximum_passes
  pub width : 1 ≤ r.thread_execution_width
  pub group_limit : 1 ≤ r.maximum_threadgroups_per_grid
  pub fitted : 1 ≤ fitted_threads r

exceeded_cap_reason_lem :
    (r : GpuWorkPlanRequest) (limits : GpuPassLimits) → exceeded_cap_reason r limits ≢ no_reason
unfolding exceeded_cap_reason
exceeded_cap_reason_lem r limits e = ground arith

refusal-PassesTests :
    (r : GpuWorkPlanRequest) (limits : GpuPassLimits)
    → refusal r limits ≡ no_reason
    → PassesTests r limits
unfolding refusal
refusal-PassesTests r limits e = ground (arith, exceeded_cap_reason_lem r limits)

fitted_threads-IsFitted :
    (r : GpuWorkPlanRequest)
    → 1 ≤ r.thread_execution_width
    → 1 ≤ fitted_threads r
    → IsFitted r (fitted_threads r)
unfolding fitted_threads
fitted_threads-IsFitted r h k =
    let cap = min threads_cap r.max_total_threads_per_threadgroup in
    let whole = div-add-mod cap r.thread_execution_width in
    let rest = mod-lt cap {m = r.thread_execution_width} h in
    let multiple : fitted_threads r % r.thread_execution_width ≡ 0 =
      unfold fitted_threads in grind arith in
    (k, multiple, omega arith, omega arith)

-- The count of groups: enough for the vectors, unless it is the limit, and none of them idle.
groups_lem :
    (vectors threads limit g : ℕ)
    → 1 ≤ threads
    → 1 ≤ limit
    → g ≡ max 1 (min (required_groups vectors threads) limit)
    → (1 ≤ g)
      × (g ≤ limit)
      × ((vectors ≤ g * threads) ⊎ (g ≡ limit))
      × ((g ≡ 1) ⊎ ((g - 1) * threads < vectors))
unfolding required_groups
groups_lem vectors threads limit g h k e =
    let reaches = ceil_div_reaches vectors threads (omega arith) in
    let least = ceil_div_least vectors threads (g - 1) (omega arith) in
    (ground arith, ground arith, grind arith, ground arith)

finish_gpu_plan-IsGpuPlan :
    (plan : GpuWorkPlan) (threads : ℕ)
    → plan.valid ≢ true
    → PassesTests plan.request plan.limits
    → IsFitted plan.request threads
    → plan.limits.bytes_per_pass
      ≡ pass_bytes plan.request.requested_buffer_bytes plan.request.operation
    → (plan.request.passes ≤ max_dispatches)
      × (plan.request.passes * pass_bytes plan.request.requested_buffer_bytes plan.request.operation
          ≤ max_exact_payload)
    → (finish_gpu_plan (grid_plan plan threads)).valid ≡ true
    → IsGpuPlan plan.request (finish_gpu_plan (grid_plan plan threads))
unfolding finish_gpu_plan grid_plan
finish_gpu_plan-IsGpuPlan plan threads invalid tests fit bytes caps v =
    let size = plan.request.requested_buffer_bytes in
    let vectors = size / vector_width in
    let limit = plan.request.maximum_threadgroups_per_grid in
    let g = max 1 (min (required_groups vectors threads) limit) in
    let (one, few, covers, busy) =
      groups_lem vectors threads limit g fit.0 tests.group_limit refl in
    elim (Option-cases (checked_multiply g threads)) [
      | inl n ↦ absurd (invalid (rw (finish_gpu_plan, n) at v))
      | inr (grid, e) ↦
          elim (Option-cases (checked_multiply plan.limits.bytes_per_pass plan.request.passes)) [
            | inl n ↦ absurd (invalid (rw (finish_gpu_plan, e, n) at v))
            | inr (total, e') ↦
                let product = (checked_multiply-some g threads grid).0 e in
                let payload =
                  (checked_multiply-some plan.limits.bytes_per_pass plan.request.passes total).0
                    e' in
                let exact : total ≡ pass_bytes size plan.request.operation * plan.request.passes =
                  rw bytes at payload.0 in
                rw (finish_gpu_plan, e, e')
                  (record {
                    within_caps = (tests.some_passes, refl, caps.0, omega (arith, caps.1));
                    payload = exact;
                    threads = fit;
                    vectors = (omega arith, omega arith);
                    groups = (one, few, product.0);
                    covers = rw product.0 covers;
                    no_idle_group = busy;
                  })
          ]
    ]

tested_plan-no_reason :
    (refused : GpuReason) (seeded : GpuWorkPlan)
    → seeded.valid ≢ true
    → (tested_plan refused seeded).valid ≡ true
    → refused ≡ no_reason
unfolding tested_plan
tested_plan-no_reason no_reason seeded h v = refl
tested_plan-no_reason _ seeded h v = absurd (h v)

abbrev seeded_plan : GpuWorkPlanRequest → GpuPassLimits → GpuWorkPlan
seeded_plan r limits = record (initial_gpu_plan r limits) {
  operation_seed = derive_gpu_operation_seed r.base_seed r.operation;
}

abbrev request_limits : GpuWorkPlanRequest → GpuPassLimits
request_limits r = calculate_gpu_pass_limits r.requested_buffer_bytes r.operation

-- The plan by whether the limits are valid.
plan_by_limits :
    (r : GpuWorkPlanRequest) (b : Bool)
    → (request_limits r).valid ≡ b
    → build_gpu_work_plan r ≡ (
        if b
        then tested_plan (refusal r (request_limits r)) (seeded_plan r (request_limits r))
        else record (initial_gpu_plan r (request_limits r)) {
          reason_code = (request_limits r).reason_code;
        })
unfolding build_gpu_work_plan
plan_by_limits r b e =
    not_swap (request_limits r).valid _ _
    ∙ ap
        (λ v.
          if v
          then tested_plan (refusal r (request_limits r)) (seeded_plan r (request_limits r))
          else record (initial_gpu_plan r (request_limits r)) {
            reason_code = (request_limits r).reason_code;
          })
        e
  where
    not_swap : (v : Bool) (x y : GpuWorkPlan) → (if not v then x else y) ≡ (if v then y else x)
    not_swap true x y = refl
    not_swap false x y = refl

built_plan :
    (r : GpuWorkPlanRequest)
    → (build_gpu_work_plan r).valid ≡ true
    → ((request_limits r).valid ≡ true)
      × (refusal r (request_limits r) ≡ no_reason)
      × (build_gpu_work_plan r
          ≡ finish_gpu_plan (grid_plan (seeded_plan r (request_limits r)) (fitted_threads r)))
unfolding initial_gpu_plan tested_plan
built_plan r v = elim (Bool-cases (request_limits r).valid) [
  | inr f ↦ absurd (false≢true (rw (plan_by_limits r false f) at v))
  | inl t ↦
      let is = plan_by_limits r true t in
      let e =
        tested_plan-no_reason (refusal r (request_limits r)) (seeded_plan r (request_limits r))
          false≢true (rw is at v) in
      (t, e, is ∙ ap (λ x. tested_plan x (seeded_plan r (request_limits r))) e)
]
  where
    false≢true : false ≢ true
    false≢true x = cc

-- A valid plan stays within both caps and its payload is exact; its groups have the most threads
-- that are a multiple of the execution width and within both thread limits; its vectors and tail
-- make up the buffer; and its groups give each vector a thread, unless they are as many as the
-- limit, with none of several idle.
pub build_gpu_work_plan-IsGpuPlan :
    (r : GpuWorkPlanRequest)
    → (build_gpu_work_plan r).valid ≡ true
    → IsGpuPlan r (build_gpu_work_plan r)
unfolding initial_gpu_plan
build_gpu_work_plan-IsGpuPlan r v =
    let (valid, e, is) = built_plan r v in
    let limits = calculate_gpu_pass_limits-IsLimits r.requested_buffer_bytes r.operation in
    let tests = refusal-PassesTests r (request_limits r) e in
    rw is (
      finish_gpu_plan-IsGpuPlan (seeded_plan r (request_limits r)) (fitted_threads r) (λ x. cc)
        tests (fitted_threads-IsFitted r tests.width tests.fitted) (limits.bytes valid)
        ((limits.allows r.passes valid).0 tests.few_passes) (rw is at v))
