-- ===== src/SweepRuns/Execution.antt =====
-- The sweep coordinator: `execute_sweep_plan` of src/benchmark/sweep_runner.cpp. The hooks answer
-- as functions of how often they were called: the stop query twice a run, the checkpoint once. The
-- JSON document is a record of the fields that the coordinator writes, without the times, the
-- version and the nested results.
pub mod Recorded
pub mod Finished
mod Tests
use mac_os_memory_benchmark.Common.{
  ℕ, ◌+◌, ◌*◌, Bool, true, false, ◌&&◌, ◌||◌, not, List, [], ◌∷◌, ◌++◌, ◌==◌, if◌then◌else◌, length,
}
use mac_os_memory_benchmark.Common.Bytes.{Bytes, codes}

pub data SweepAttemptStatus : Type 0 where
  complete partial interrupted failed : SweepAttemptStatus

pub record SweepNestedCompletion : Type 0 where
  pub status : SweepAttemptStatus
  pub reason : Bytes

abbrev pub is_complete : SweepAttemptStatus → Bool
is_complete complete = true
is_complete _ = false

-- One entry of `runs`, and the document.
pub record RunRecord : Type 0 where
  pub index : ℕ
  pub status : SweepAttemptStatus
  pub status_reason : Bytes

pub record SweepOutput : Type 0 where
  pub status : SweepAttemptStatus
  pub status_reason : Bytes
  pub planned_runs : ℕ
  pub attempted_runs : ℕ
  pub completed_runs : ℕ
  pub conclusions_valid : Bool
  pub runs : List RunRecord

-- The outcome of a run: whether it exited with success, the reason of a failure, and what
-- `classify_sweep_nested_completion` says of its result.
pub record SweepRunOutcome : Type 0 where
  pub success : Bool
  pub failure_reason : Bytes
  pub completion : SweepNestedCompletion

-- `std::function` members that are set; the k-th answers of the stop query and of the checkpoint.
pub record SweepExecutionHooks : Type 0 where
  pub execute_run : ℕ → SweepRunOutcome
  pub stop_requested : ℕ → Bool
  pub write_succeeds : ℕ → Bool

pub record SweepExecutionResult : Type 0 where
  pub success : Bool
  pub output : SweepOutput

pub completed_run_count : List RunRecord → ℕ
completed_run_count [] = 0
completed_run_count (run ∷ runs) =
    (if is_complete run.status then 1 else 0) + completed_run_count runs

pub update_sweep_output : List RunRecord → SweepAttemptStatus → Bytes → ℕ → SweepOutput
update_sweep_output runs status reason planned_runs = record {
  status = status;
  status_reason = reason;
  planned_runs = planned_runs;
  attempted_runs = length runs;
  completed_runs = completed_run_count runs;
  conclusions_valid = is_complete status && completed_run_count runs == planned_runs;
  runs = runs;
}

abbrev or_text : Bytes → Bytes → Bytes
or_text [] fallback = fallback
or_text (b ∷ bs) fallback = b ∷ bs

-- The completion of an outcome.
pub completion_of : SweepRunOutcome → SweepNestedCompletion
completion_of o = if o.success then o.completion else record {
  status = failed;
  reason = or_text o.failure_reason (codes "nested-run-execution-failed");
}

-- What follows a run: the status and reason of the sweep, whether it ends, and its exit code.
pub record Decision : Type 0 where
  pub status : SweepAttemptStatus
  pub reason : Bytes
  pub terminal : Bool
  pub success : Bool

abbrev pub ends : SweepAttemptStatus → Bytes → Decision
ends status reason = record { status = status; reason = reason; terminal = true; success = true }

-- The chain of `else if` after a run that exited with success, by its completion.
pub decide_completed : SweepNestedCompletion → Bool → Bool → SweepAttemptStatus → Decision
decide_completed c stopped last failed = record {
  status = failed;
  reason = c.reason;
  terminal = true;
  success = false;
}
decide_completed c stopped last interrupted = ends interrupted c.reason
decide_completed c stopped last complete =
    if stopped
    then ends interrupted (codes "interruption-requested-after-complete-run")
    else if last
    then ends complete []
    else record {
      status = partial;
      reason = codes "sweep-runs-remain";
      terminal = false;
      success = true;
    }
decide_completed c stopped last partial =
    if stopped
    then ends interrupted (codes "interruption-requested-after-incomplete-run")
    else ends partial c.reason

pub decide : SweepRunOutcome → Bool → Bool → Decision
decide o stopped last =
    let c = completion_of o in
    if not o.success
    then record { status = failed; reason = c.reason; terminal = true; success = false }
    else decide_completed c stopped last c.status

-- A checkpoint that cannot be written fails the sweep.
pub written : Bool → List RunRecord → Decision → ℕ → SweepExecutionResult
written true runs d planned = record {
  success = d.success;
  output = update_sweep_output runs d.status d.reason planned;
}
written false runs d planned = record {
  success = false;
  output = update_sweep_output runs failed (codes "checkpoint-write-failed") planned;
}

abbrev pub recorded : ℕ → SweepNestedCompletion → RunRecord
recorded index c = record { index = index; status = c.status; status_reason = c.reason }

-- The loop over the runs that are left, of which the first has this index.
pub execute_runs {ℓ} :
    {P : Type ℓ} → SweepExecutionHooks → ℕ → List P → ℕ → List RunRecord → SweepExecutionResult
execute_runs hooks planned [] index runs = record {
  success = false;
  output =
      update_sweep_output runs failed (codes "sweep-coordinator-ended-without-terminal-status")
        planned;
}
execute_runs hooks planned (_ ∷ left) index runs =
    let outcome = hooks.execute_run index in
    let runs' = runs ++ recorded index (completion_of outcome) ∷ [] in
    let last = index + 1 == planned in
    let d = decide outcome (hooks.stop_requested (2 * index + 1)) last in
    let rest = execute_runs hooks planned left (index + 1) runs' in
    let stopped = ends interrupted (codes "interruption-requested-before-run") in
    if hooks.stop_requested (2 * index)
    then written (hooks.write_succeeds index) runs stopped planned
    else if d.terminal || not (hooks.write_succeeds index)
    then written (hooks.write_succeeds index) runs' d planned
    else rest

pub execute_sweep_plan {ℓ} : {P : Type ℓ} → List P → SweepExecutionHooks → SweepExecutionResult
execute_sweep_plan [] hooks = written (hooks.write_succeeds 0) [] (ends complete []) 0
execute_sweep_plan (p ∷ ps) hooks = execute_runs hooks (length (p ∷ ps)) (p ∷ ps) 0 []
