-- ===== src/BenchmarkPlan/Phases.antt =====
-- The phase schedule: what is realized and completed when a stop request comes in between.
use mac_os_memory_benchmark.Common.{
  ℕ, ◌+◌, ◌-◌, ◌*◌, ◌≤◌, ◌≡◌, ◌≢◌, ◌⊎◌, inl, inr, refl, ap, List, [], ◌∷◌, ◌++◌, length, arith,
  Bool, true, false, Bool-cases,
}
use mac_os_memory_benchmark.Common.Queries.{NoStop}
use mac_os_memory_benchmark.BenchmarkPlan.{
  PhaseExecutionResult, execute_phases, execute_benchmark_phase_schedule,
}

-- The result of running the phases `order`, from query `query` on with `before` phases complete:
-- the realized phases are a prefix of the order. Without an interruption it is the whole order,
-- every phase completed and no query saw a stop. With one, the first query that saw a stop is the
-- query before the next phase, and all realized phases completed, or the query after the last
-- realized phase, and all but that one completed.
pub record IsRun (stop : ℕ → Bool) (query before : ℕ) (order : List ℕ) (r : PhaseExecutionResult)
    : Type 0 where
  pub left : List ℕ
  pub prefix : order ≡ r.realized_phase_indexes ++ left
  pub finished :
      r.interrupted ≡ false
      → (left ≡ [])
        × (r.completed_phases ≡ before + length r.realized_phase_indexes)
        × NoStop stop query (query + 2 * length r.realized_phase_indexes)
  pub stopped :
      r.interrupted ≡ true
      → ((left ≢ [])
          × (stop (query + 2 * length r.realized_phase_indexes) ≡ true)
          × (r.completed_phases ≡ before + length r.realized_phase_indexes)
          × NoStop stop query (query + 2 * length r.realized_phase_indexes))
        ⊎ ((1 ≤ length r.realized_phase_indexes)
            × (stop (query + 2 * length r.realized_phase_indexes - 1) ≡ true)
            × (r.completed_phases + 1 ≡ before + length r.realized_phase_indexes)
            × NoStop stop query (query + 2 * length r.realized_phase_indexes - 1))

execute_phases-IsRun :
    (stop : ℕ → Bool) (query before : ℕ) (order : List ℕ)
    → IsRun stop query before order (execute_phases stop query before order)
unfolding execute_phases
execute_phases-IsRun stop query before [] = record {
  left = [];
  prefix = refl;
  finished = λ e. (refl, omega arith, λ q lo hi. absurd (omega arith));
  stopped = λ e. cc;
}
execute_phases-IsRun stop query before (phase ∷ rest) =
    let later = execute_phases-IsRun stop (query + 2) (before + 1) rest in
    elim (Bool-cases (stop query)) [
      | inl e ↦ rw e (record {
        left = phase ∷ rest;
        prefix = refl;
        finished = λ f. cc;
        stopped =
            λ _. inl (ground arith, ground arith, omega arith, λ q lo hi. absurd (omega arith));
      })
      | inr e ↦ elim (Bool-cases (stop (query + 1))) [
        | inl e' ↦
            rw (e, e')
              (record {
                left = rest;
                prefix = refl;
                finished = λ f. cc;
                stopped =
                    λ _. inr (omega arith, ground arith, omega arith, λ q lo hi. ground arith);
              })
        | inr e' ↦
            rw (e, e')
              (record {
                left = later.left;
                prefix = ap (λ xs. phase ∷ xs) later.prefix;
                finished = λ f.
                    let (none_left, all, quiet) = later.finished f in
                    (none_left, omega arith, λ q lo hi. ground (arith, quiet q));
                stopped = λ f. elim (later.stopped f) [
                  | inl (some_left, s, n, quiet) ↦
                      inl (some_left, ground arith, omega arith, λ q lo hi. ground (arith, quiet q))
                  | inr (some_done, s, n, quiet) ↦
                      inr
                        (omega arith, ground arith, omega arith, λ q lo hi. ground (arith, quiet q))
                ];
              })
      ]
    ]

-- The realized phases are a prefix of the order. Without an interruption the whole order is
-- realized and completed, and no query saw a stop request. With one, the first query that saw the
-- request is the one before the next phase, and every realized phase is completed, or the one after
-- the last realized phase, and every other realized phase is completed.
pub execute_benchmark_phase_schedule-IsRun :
    (stop : ℕ → Bool) (order : List ℕ)
    → IsRun stop 0 0 order (execute_benchmark_phase_schedule stop order)
unfolding execute_benchmark_phase_schedule
execute_benchmark_phase_schedule-IsRun stop order = execute_phases-IsRun stop 0 0 order
