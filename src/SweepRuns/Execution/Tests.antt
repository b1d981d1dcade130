-- ===== src/SweepRuns/Execution/Tests.antt =====
-- The execution of a sweep of four runs, undisturbed and stopped.
use mac_os_memory_benchmark.Common.{ℕ, ◌≡◌, refl, true, false, List, [], ◌∷◌, ◌==◌}
use mac_os_memory_benchmark.SweepRuns.Execution.{
  SweepAttemptStatus, SweepRunOutcome, SweepExecutionHooks, execute_runs, execute_sweep_plan,
  completion_of, decide, decide_completed, written, update_sweep_output, completed_run_count,
}
use mac_os_memory_benchmark.SweepRuns.Execution.Recorded.{IsRecorded, execute_sweep_plan-IsRecorded}
use mac_os_memory_benchmark.SweepRuns.Execution.Finished.{IsFinished, execute_sweep_plan-IsFinished}

abbrev good_run : SweepRunOutcome
good_run = record {
  success = true;
  failure_reason = [];
  completion = record { status = SweepAttemptStatus.complete; reason = [] };
}

abbrev undisturbed : SweepExecutionHooks
undisturbed = record {
  execute_run = λ k. good_run;
  stop_requested = λ k. false;
  write_succeeds = λ k. true;
}

-- A stop is requested while the second of the runs goes on.
abbrev stopped_later : SweepExecutionHooks
stopped_later = record undisturbed { stop_requested = λ k. k == 3 }

abbrev four_names : List ℕ
four_names = 0 ∷ 1 ∷ 2 ∷ 3 ∷ []

two_attempted : (execute_sweep_plan four_names stopped_later).output.attempted_runs ≡ 2
unfolding execute_sweep_plan execute_runs completion_of decide decide_completed written
    update_sweep_output completed_run_count
two_attempted = refl

execute_sweep_plan-IsRecorded_example :
    IsRecorded stopped_later 4 (execute_sweep_plan four_names stopped_later)
execute_sweep_plan-IsRecorded_example = execute_sweep_plan-IsRecorded four_names stopped_later

undisturbed_complete :
    (k : ℕ) → (completion_of (undisturbed.execute_run k)).status ≡ SweepAttemptStatus.complete
unfolding completion_of
undisturbed_complete k = refl

execute_sweep_plan-IsFinished_example : IsFinished 4 (execute_sweep_plan four_names undisturbed)
execute_sweep_plan-IsFinished_example =
    execute_sweep_plan-IsFinished four_names undisturbed (λ k. refl) (λ k. refl)
      undisturbed_complete
