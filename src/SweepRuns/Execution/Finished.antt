-- ===== src/SweepRuns/Execution/Finished.antt =====
-- An undisturbed sweep of complete runs finishes.
use mac_os_memory_benchmark.Common.{
  ℕ, ◌+◌, ◌*◌, ◌≡◌, refl, arith, Bool, true, false, List, [], ◌∷◌, ◌++◌, length, length-append,
  ◌==◌, ==_iff,
}
use mac_os_memory_benchmark.SweepRuns.Execution.{
  complete, RunRecord, SweepRunOutcome, SweepExecutionHooks, SweepExecutionResult,
  completed_run_count, update_sweep_output, completion_of, decide_completed, decide, written,
  execute_runs, execute_sweep_plan, recorded, ends,
}

-- All planned runs are recorded and complete, and the conclusions are valid.
pub record IsFinished (planned : ℕ) (r : SweepExecutionResult) : Type 0 where
  pub succeeds : r.success ≡ true
  pub is_complete_sweep : r.output.status ≡ complete
  pub valid : r.output.conclusions_valid ≡ true
  pub all_attempted : r.output.attempted_runs ≡ planned
  pub all_completed : r.output.completed_runs ≡ planned

count-append :
    (runs : List RunRecord) (run : RunRecord)
    → run.status ≡ complete
    → completed_run_count (runs ++ run ∷ []) ≡ completed_run_count runs + 1
unfolding completed_run_count
count-append [] run h = ground arith
count-append (r ∷ runs) run h = omega (arith, count-append runs run h)

finished :
    (runs : List RunRecord) (planned : ℕ)
    → length runs ≡ planned
    → completed_run_count runs ≡ planned
    → IsFinished planned (written true runs (ends complete []) planned)
unfolding written update_sweep_output
finished runs planned e f = record {
  succeeds = refl;
  is_complete_sweep = refl;
  valid = ground (arith, f);
  all_attempted = e;
  all_completed = f;
}

decide-last :
    (o : SweepRunOutcome) (last : Bool)
    → (completion_of o).status ≡ complete
    → last ≡ true
    → decide o false last ≡ ends complete []
unfolding decide decide_completed completion_of
decide-last o last h e = ground arith

decide-terminal :
    (o : SweepRunOutcome) (last : Bool)
    → (completion_of o).status ≡ complete
    → last ≡ false
    → (decide o false last).terminal ≡ false
unfolding decide decide_completed completion_of
decide-terminal o last h e = ground arith

module _ {P : Type 0} (hooks : SweepExecutionHooks) (planned : ℕ)
    (never_stopped : (k : ℕ) → hooks.stop_requested k ≡ false)
    (always_written : (k : ℕ) → hooks.write_succeeds k ≡ true)
    (all_complete : (k : ℕ) → (completion_of (hooks.execute_run k)).status ≡ complete) where
  execute_runs-IsFinished :
      (p : P) (left : List P) (index : ℕ) (runs : List RunRecord)
      → length runs ≡ index
      → completed_run_count runs ≡ index
      → index + length (p ∷ left) ≡ planned
      → IsFinished planned (execute_runs hooks planned (p ∷ left) index runs)
  unfolding execute_runs
  execute_runs-IsFinished p [] index runs e f total =
      let o = hooks.execute_run index in
      let last = (==_iff (index + 1) planned).1 (omega arith) in
      rw (never_stopped (2 * index)) (
        rw (never_stopped (2 * index + 1)) (
          rw (decide-last o (index + 1 == planned) (all_complete index) last) (
            rw (always_written index) (
              finished _ planned
                (omega (arith, length-append runs (recorded index (completion_of o) ∷ [])))
                (omega (
                  arith,
                  count-append runs (recorded index (completion_of o)) (all_complete index),
                ))))))
  execute_runs-IsFinished p (q ∷ left) index runs e f total =
      let o = hooks.execute_run index in
      let not_last : (index + 1 == planned) ≡ false = ground arith in
      rw (never_stopped (2 * index)) (
        rw (never_stopped (2 * index + 1)) (
          rw (decide-terminal o (index + 1 == planned) (all_complete index) not_last) (
            rw (always_written index) (
              execute_runs-IsFinished q left (index + 1) _
                (omega (arith, length-append runs (recorded index (completion_of o) ∷ [])))
                (omega (
                  arith,
                  count-append runs (recorded index (completion_of o)) (all_complete index),
                ))
                (omega arith)))))

-- If no stop is requested, every checkpoint is written and every run is complete, the sweep exits
-- with success and status complete: all planned runs are recorded, all are counted as completed, and
-- the conclusions are marked as valid.
pub execute_sweep_plan-IsFinished :
    {P : Type 0} (plan : List P) (hooks : SweepExecutionHooks)
    → ((k : ℕ) → hooks.stop_requested k ≡ false)
    → ((k : ℕ) → hooks.write_succeeds k ≡ true)
    → ((k : ℕ) → (completion_of (hooks.execute_run k)).status ≡ complete)
    → IsFinished (length plan) (execute_sweep_plan plan hooks)
unfolding execute_sweep_plan completed_run_count
execute_sweep_plan-IsFinished [] hooks ns aw ac = rw (aw 0) (finished [] 0 refl refl)
execute_sweep_plan-IsFinished (p ∷ ps) hooks ns aw ac =
    execute_runs-IsFinished hooks (length (p ∷ ps)) ns aw ac p ps 0 [] refl refl (omega arith)
