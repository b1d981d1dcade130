-- ===== src/SweepRuns/Execution/Recorded.antt =====
-- What a sweep records: its runs in order, all but the last complete.
use mathlib.Core.Path.{subst}
use mac_os_memory_benchmark.Common.{
  ℕ, zero, suc, ◌+◌, ◌-◌, ◌*◌, ◌≤◌, ◌≡◌, ◌≢◌, ◌⊎◌, inl, inr, refl, ap, sym, ◌∙◌, arith, Bool, true,
  false, not, ◌||◌, List, [], ◌∷◌, ◌++◌, All, length, ◌==◌, Bool-cases, ==_iff,
}
use mac_os_memory_benchmark.SweepRuns.Execution.{
  SweepAttemptStatus, complete, failed, is_complete, RunRecord, SweepRunOutcome,
  SweepExecutionHooks, SweepExecutionResult, update_sweep_output, completion_of, Decision,
  decide_completed, decide, written, execute_runs, execute_sweep_plan, recorded,
}

-- The entries of the runs first, first + 1, ..., count of them.
abbrev pub attempts : SweepExecutionHooks → ℕ → ℕ → List RunRecord
attempts hooks first zero = []
attempts hooks first (suc count) =
    recorded first (completion_of (hooks.execute_run first)) ∷ attempts hooks (first + 1) count

abbrev pub AreComplete : List RunRecord → Type 0
AreComplete = All (λ (run : RunRecord). run.status ≡ complete)

-- The exit code goes with the status.
abbrev pub ExitsAs : Bool → SweepAttemptStatus → Type 0
ExitsAs success status =
    ((success ≡ true) × (status ≢ failed)) ⊎ ((success ≡ false) × (status ≡ failed))

pub record IsRecorded (hooks : SweepExecutionHooks) (planned : ℕ) (r : SweepExecutionResult)
    : Type 0 where
  pub within_plan : r.output.attempted_runs ≤ planned
  pub in_order : r.output.runs ≡ attempts hooks 0 r.output.attempted_runs
  pub before_last : AreComplete (attempts hooks 0 (r.output.attempted_runs - 1))
  pub exits : ExitsAs r.success r.output.status
  pub conclusive :
      (r.output.conclusions_valid ≡ false)
      ⊎ ((r.output.attempted_runs ≡ planned) × (r.success ≡ true) × AreComplete r.output.runs)

length-attempts :
    (hooks : SweepExecutionHooks) (first count : ℕ) → length (attempts hooks first count) ≡ count
length-attempts hooks first zero = refl
length-attempts hooks first (suc count) = ap suc (length-attempts hooks (first + 1) count)

attempts-last :
    (hooks : SweepExecutionHooks) (first count : ℕ)
    → attempts hooks first (suc count)
      ≡ attempts hooks first count
        ++ recorded (first + count) (completion_of (hooks.execute_run (first + count))) ∷ []
attempts-last hooks first zero =
    ap (λ n. recorded n (completion_of (hooks.execute_run n)) ∷ []) (omega arith)
attempts-last hooks first (suc count) =
    ap (λ l. recorded first (completion_of (hooks.execute_run first)) ∷ l)
      (attempts-last hooks (first + 1) count
        ∙ ap
            (λ n.
              attempts hooks (first + 1) count
              ++ recorded n (completion_of (hooks.execute_run n)) ∷ [])
            (omega arith))

decide-exits :
    (o : SweepRunOutcome) (stopped last : Bool)
    → ExitsAs (decide o stopped last).success (decide o stopped last).status
unfolding decide decide_completed
decide-exits o stopped last = ground arith

decide-complete :
    (o : SweepRunOutcome) (stopped last : Bool)
    → (is_complete (decide o stopped last).status ≡ false)
      ⊎ ((last ≡ true) × ((completion_of o).status ≡ complete))
unfolding decide decide_completed
decide-complete o stopped last = ground arith

decide-goes_on :
    (o : SweepRunOutcome) (stopped last : Bool)
    → (decide o stopped last).terminal ≡ false
    → (last ≡ false) × ((completion_of o).status ≡ complete)
unfolding decide decide_completed
decide-goes_on o stopped last h = ground arith

AreComplete-last :
    (runs : List RunRecord) (run : RunRecord)
    → AreComplete runs
    → run.status ≡ complete
    → AreComplete (runs ++ run ∷ [])
AreComplete-last [] run h e = (e, tt)
AreComplete-last (r ∷ runs) run h e = (h.0, AreComplete-last runs run h.1 e)

-- A checkpoint of the first k runs.
module _ (hooks : SweepExecutionHooks) (planned k : ℕ) (runs : List RunRecord) (d : Decision)
    (same : runs ≡ attempts hooks 0 k) (within : k ≤ planned)
    (before : AreComplete (attempts hooks 0 (k - 1))) where
  attempted : length runs ≡ k
  attempted = ap length same ∙ length-attempts hooks 0 k

  written-IsRecorded :
      (ok : Bool)
      → ExitsAs d.success d.status
      → (is_complete d.status ≡ false) ⊎ ((k ≡ planned) × AreComplete (attempts hooks 0 k))
      → IsRecorded hooks planned (written ok runs d planned)
  unfolding written update_sweep_output
  written-IsRecorded true exits final = record {
    within_plan = omega (arith, attempted);
    in_order = same ∙ ap (attempts hooks 0) (sym attempted);
    before_last = rw attempted before;
    exits = exits;
    conclusive = elim final [
      | inl open_end ↦ inl (ground (arith, open_end))
      | inr (all, done) ↦ elim (Bool-cases d.success) [
        | inl success ↦ inr (attempted ∙ all, success, rw same done)
        | inr failure ↦ inl (ground (arith, failure))
      ]
    ];
  }
  written-IsRecorded false exits final = record {
    within_plan = omega (arith, attempted);
    in_order = same ∙ ap (attempts hooks 0) (sym attempted);
    before_last = rw attempted before;
    exits = ground arith;
    conclusive = inl refl;
  }

All-init :
    (runs : List RunRecord) (run : RunRecord) → AreComplete (runs ++ run ∷ []) → AreComplete runs
All-init [] run h = tt
All-init (r ∷ runs) run h = (h.0, All-init runs run h.1)

suc-add : (n : ℕ) → suc n ≡ n + 1
suc-add n = omega arith

entry : SweepExecutionHooks → ℕ → List RunRecord
entry hooks index = recorded index (completion_of (hooks.execute_run index)) ∷ []

attempts_next :
    (hooks : SweepExecutionHooks) (index : ℕ)
    → attempts hooks 0 (index + 1) ≡ attempts hooks 0 index ++ entry hooks index
unfolding entry
attempts_next hooks index =
    ap (attempts hooks 0) (sym (suc-add index))
    ∙ (attempts-last hooks 0 index
        ∙ ap (λ n. attempts hooks 0 index ++ entry hooks n) (omega arith))

AreComplete-prefix :
    (hooks : SweepExecutionHooks) (index : ℕ)
    → AreComplete (attempts hooks 0 index)
    → AreComplete (attempts hooks 0 (index - 1))
unfolding entry
AreComplete-prefix hooks zero h = tt
AreComplete-prefix hooks (suc index) h =
    let split = ap (attempts hooks 0) (suc-add index) ∙ attempts_next hooks index in
    subst (λ n. AreComplete (attempts hooks 0 n)) (omega arith)
      (All-init (attempts hooks 0 index) (recorded index (completion_of (hooks.execute_run index)))
        (subst AreComplete split h))

AreComplete-next :
    (hooks : SweepExecutionHooks) (index : ℕ)
    → AreComplete (attempts hooks 0 index)
    → (completion_of (hooks.execute_run index)).status ≡ complete
    → AreComplete (attempts hooks 0 (index + 1))
unfolding entry
AreComplete-next hooks index h e =
    subst AreComplete (sym (attempts_next hooks index)) (AreComplete-last _ _ h e)

execute_runs-IsRecorded :
    {P : Type 0} (hooks : SweepExecutionHooks) (planned : ℕ) (left : List P) (index : ℕ)
    (runs : List RunRecord)
    → runs ≡ attempts hooks 0 index
    → AreComplete (attempts hooks 0 index)
    → index + length left ≡ planned
    → IsRecorded hooks planned (execute_runs hooks planned left index runs)
unfolding execute_runs entry update_sweep_output
execute_runs-IsRecorded hooks planned [] index runs same done total =
    let count = ap length same ∙ length-attempts hooks 0 index in
    record {
      within_plan = omega (arith, count);
      in_order = same ∙ ap (attempts hooks 0) (sym count);
      before_last = rw count (AreComplete-prefix hooks index done);
      exits = inr (refl, refl);
      conclusive = inl refl;
    }
execute_runs-IsRecorded hooks planned (p ∷ left) index runs same done total =
    let o = hooks.execute_run index in
    let last = index + 1 == planned in
    let next : runs ++ entry hooks index ≡ attempts hooks 0 (index + 1) =
      ap (λ l. l ++ entry hooks index) same ∙ sym (attempts_next hooks index) in
    let before : AreComplete (attempts hooks 0 (index + 1 - 1)) =
      subst (λ n. AreComplete (attempts hooks 0 n)) (omega arith) done in
    let stops = hooks.stop_requested (2 * index + 1) in
    elim (Bool-cases (hooks.stop_requested (2 * index))) [
      | inl stopped ↦ rw stopped (
          written-IsRecorded hooks planned index runs _ same (omega arith)
            (AreComplete-prefix hooks index done) (hooks.write_succeeds index)
            (inl (refl, ground arith)) (inl refl))
      | inr runs_on ↦
          rw runs_on
            (elim (Bool-cases
              ((decide o stops last).terminal || not (hooks.write_succeeds index))) [
                | inl ends_here ↦ rw ends_here (
                    written-IsRecorded hooks planned (index + 1) _ (decide o stops last) next
                      (omega arith) before (hooks.write_succeeds index) (decide-exits o stops last)
                      (elim (decide-complete o stops last) [
                        | inl open_end ↦ inl open_end
                        | inr (is_last, good) ↦ inr (
                          (==_iff (index + 1) planned).0 is_last,
                          AreComplete-next hooks index done good,
                        )
                      ]))
                | inr goes_on ↦ rw goes_on (
                    execute_runs-IsRecorded hooks planned left (index + 1) _ next
                      (AreComplete-next hooks index done
                        (decide-goes_on o stops last (ground (arith, goes_on))).1)
                      (omega arith))
              ])
    ]

-- Whatever the runs give, whenever a stop is requested and whichever checkpoint fails: the recorded
-- runs are the first of the plan, in order, and all but the last are complete; the exit code is a
-- failure just when the status is; and the conclusions are marked as valid only if every planned run
-- was recorded, is complete, and the sweep exits with success.
pub execute_sweep_plan-IsRecorded :
    {P : Type 0} (plan : List P) (hooks : SweepExecutionHooks)
    → IsRecorded hooks (length plan) (execute_sweep_plan plan hooks)
unfolding execute_sweep_plan
execute_sweep_plan-IsRecorded [] hooks =
    written-IsRecorded hooks 0 0 [] _ refl (omega arith) tt (hooks.write_succeeds 0)
      (inl (refl, ground arith)) (inr (refl, tt))
execute_sweep_plan-IsRecorded (p ∷ ps) hooks =
    execute_runs-IsRecorded hooks (length (p ∷ ps)) (p ∷ ps) 0 [] refl tt (omega arith)
