-- ===== src/TlbScheduler/Execution.antt =====
-- The execution of a schedule: what is recorded, and why it ended.
use mathlib.Core.Path.{subst}
use mathlib.Core.List.{append-nil, append_assoc}
use mac_os_memory_benchmark.Common.{
  ℕ, ◌+◌, ◌*◌, ◌≡◌, inl, inr, refl, ap, sym, ◌∙◌, List, [], ◌∷◌, ◌++◌, arith, Bool, true, false,
  Option, some, Bool-cases, Option-cases, if◌then◌else◌,
}
use mac_os_memory_benchmark.TlbScheduler.{
  TlbMeasurementTask, TlbMeasurementRecord, TlbScheduleExecutionResult, round_complete,
  execute_tasks, execute_tlb_measurement_schedule,
}
use mac_os_memory_benchmark.TlbScheduler.Promise.{
  recorded, rounds_in, rounds_after, converges, WentOn, ends_round, IsExecution,
}

module _ {Sample : Type 0} (stop : ℕ → Bool) (measure : ℕ → TlbMeasurementTask → Option Sample)
    (converged : ℕ → List (TlbMeasurementRecord Sample) → Bool) where
  one_round :
      (task : TlbMeasurementTask) (rest tasks left : List TlbMeasurementTask) (rounds total : ℕ)
      → rest ≡ tasks ++ left
      → total
        ≡ (if round_complete task rest then rounds + 1 else rounds)
          + rounds_in stop measure converged tasks left
      → total ≡ rounds + rounds_in stop measure converged (task ∷ tasks) left
  unfolding rounds_in
  one_round task rest tasks left rounds total e h = elim (Bool-cases (round_complete task rest)) [
    | inl t ↦
        (let t' : round_complete task (tasks ++ left) ≡ true =
            ap (round_complete task) (sym e) ∙ t in
          rw t' (omega (arith, rw t at h)))
    | inr f ↦
        (let f' : round_complete task (tasks ++ left) ≡ false =
            ap (round_complete task) (sym e) ∙ f in
          rw f' (omega (arith, rw f at h)))
  ]

  unconverged_before :
      (rounds : ℕ) (records : List (TlbMeasurementRecord Sample)) (r : TlbMeasurementRecord Sample)
      (rest left : List TlbMeasurementTask) (added : List (TlbMeasurementRecord Sample))
      → rest ≡ recorded stop measure converged added ++ left
      → converges stop measure converged rounds records r rest ≡ false
      → WentOn stop measure converged
          (rounds_after stop measure converged rounds r.task rest)
          (records ++ r ∷ [])
          added
          left
      → WentOn stop measure converged rounds records (r ∷ added) left
  unconverged_before rounds records r rest left [] e c w = tt
  unconverged_before rounds records r rest left (r' ∷ rs) e c w =
      subst
        (λ l.
          (converges stop measure converged rounds records r l ≡ false)
          × WentOn stop measure converged (rounds_after stop measure converged rounds r.task l)
              (records ++ r ∷ []) (r' ∷ rs) left)
        e (c, w)

  ends_round_after :
      (r : TlbMeasurementRecord Sample) (added : List (TlbMeasurementRecord Sample))
      (left : List TlbMeasurementTask)
      → ends_round stop measure converged added left ≡ true
      → ends_round stop measure converged (r ∷ added) left ≡ true
  ends_round_after r [] left e = cc
  ends_round_after r (r' ∷ rs) left e = e

  -- The last task of the schedule, where the callback did not find the records converged.
  unconverged_last :
      (rounds total : ℕ) (records all : List (TlbMeasurementRecord Sample))
      (r : TlbMeasurementRecord Sample) (rest : List TlbMeasurementTask)
      → rest ≡ []
      → converges stop measure converged rounds records r rest ≡ false
      → total ≡ rounds_after stop measure converged rounds r.task rest
      → all ≡ records ++ r ∷ []
      → converged total all ≡ false
  unfolding round_complete
  unconverged_last rounds total records all r [] e c t a = rw (t, a) c
  unconverged_last rounds total records all r (task ∷ rest) e c t a = absurd (ground arith)

  -- One more task before an execution that goes on.
  one_more :
      (index rounds : ℕ) (records : List (TlbMeasurementRecord Sample)) (task : TlbMeasurementTask)
      (rest : List TlbMeasurementTask) (r : TlbScheduleExecutionResult Sample) (sample : Sample)
      → stop (2 * index) ≡ false
      → measure index task ≡ some sample
      → stop (2 * index + 1) ≡ false
      → converges stop measure converged rounds records
          (record { task = task; sample = sample })
          rest
        ≡ false
      → IsExecution stop measure converged
          (index + 1)
          (rounds_after stop measure converged rounds task rest)
          (records ++ record { task = task; sample = sample } ∷ [])
          rest
          r
      → IsExecution stop measure converged index rounds records (task ∷ rest) r
  unfolding rounds_in
  one_more index rounds records task rest r sample s m s' c later =
      let new : TlbMeasurementRecord Sample = record { task = task; sample = sample } in
      record {
        added = new ∷ later.added;
        left = later.left;
        all_records = later.all_records ∙ append_assoc records (new ∷ []) later.added;
        prefix = ap (λ xs. task ∷ xs) later.prefix;
        measured = (m, later.measured);
        counted =
            one_round task rest (recorded stop measure converged later.added) later.left rounds _
              later.prefix later.counted;
        went_on =
            unconverged_before rounds records new rest later.left later.added later.prefix c
              later.went_on;
        unstopped = λ e q lo hi. ground (arith, later.unstopped e q);
        finished = λ e f.
            let (none_left, last) = later.finished e f in
            (
              none_left,
              inr (elim last [
                | inr unconverged ↦ unconverged
                | inl none_added ↦
                    unconverged_last rounds _ records _ new rest
                      (later.prefix
                        ∙ ap (λ xs. recorded stop measure converged xs ++ later.left) none_added
                        ∙ none_left)
                      c
                      (later.counted
                        ∙ ap
                            (λ xs.
                              rounds_after stop measure converged rounds task rest
                              + rounds_in stop measure converged
                                  (recorded stop measure converged xs) later.left)
                            none_added
                        ∙ omega arith)
                      (later.all_records
                        ∙ ap (λ xs. (records ++ new ∷ []) ++ xs) none_added
                        ∙ append-nil (records ++ new ∷ []))
              ]),
            );
        asked = λ e.
            let (done, ends, found) = later.asked e in
            (done, ends_round_after new later.added later.left ends, found);
        stopped = λ e. elim (later.stopped e) [
          | inl (some_left, at, quiet) ↦
              inl (some_left, ground arith, λ q lo hi. ground (arith, quiet q))
          | inr (some_added, at, quiet) ↦
              inr (omega arith, ground arith, λ q lo hi. ground (arith, quiet q))
        ];
        failed = λ e.
            let (next, others, is, none_got, quiet) = later.failed e in
            (next, others, is, ground arith, λ q lo hi. ground (arith, quiet q));
      }

  execute_tasks-IsExecution :
      (index rounds : ℕ) (records : List (TlbMeasurementRecord Sample))
      (tasks : List TlbMeasurementTask)
      → IsExecution stop measure converged index rounds records tasks
          (execute_tasks stop measure converged index rounds records tasks)
  unfolding execute_tasks rounds_in
  execute_tasks-IsExecution index rounds records [] = record {
    added = [];
    left = [];
    all_records = sym (append-nil records);
    prefix = refl;
    measured = tt;
    counted = omega arith;
    went_on = tt;
    unstopped = λ _ q lo hi. absurd (omega arith);
    finished = λ _ _. (refl, inl refl);
    asked = λ e. cc;
    stopped = λ e. cc;
    failed = λ e. cc;
  }
  execute_tasks-IsExecution index rounds records (task ∷ rest) =
      elim (Bool-cases (stop (2 * index))) [
        | inl s ↦
            rw (execute_tasks, s)
              (record {
                added = [];
                left = task ∷ rest;
                all_records = sym (append-nil records);
                prefix = refl;
                measured = tt;
                counted = omega arith;
                went_on = tt;
                unstopped = λ e. cc;
                finished = λ e _. cc;
                asked = λ e. cc;
                stopped = λ _. inl (ground arith, ground arith, λ q lo hi. absurd (omega arith));
                failed = λ e. cc;
              })
        | inr s ↦ elim (Option-cases (measure index task)) [
          | inl n ↦
              rw (execute_tasks, s, n)
                (record {
                  added = [];
                  left = task ∷ rest;
                  all_records = sym (append-nil records);
                  prefix = refl;
                  measured = tt;
                  counted = omega arith;
                  went_on = tt;
                  unstopped = λ e. cc;
                  finished = λ e _. cc;
                  asked = λ e. cc;
                  stopped = λ e. cc;
                  failed = λ _. (task, rest, refl, ground arith, λ q lo hi. ground arith);
                })
          | inr (sample, m) ↦
              let new : TlbMeasurementRecord Sample = record { task = task; sample = sample } in
              let rounds' = rounds_after stop measure converged rounds task rest in
              elim (Bool-cases (stop (2 * index + 1))) [
                | inl s' ↦
                    rw (execute_tasks, s, m, s')
                      (record {
                        added = new ∷ [];
                        left = rest;
                        all_records = refl;
                        prefix = refl;
                        measured = (m, tt);
                        counted = one_round task rest [] rest rounds _ refl (omega arith);
                        went_on = tt;
                        unstopped = λ e. cc;
                        finished = λ e _. cc;
                        asked = λ e. cc;
                        stopped = λ _. inr (omega arith, ground arith, λ q lo hi. ground arith);
                        failed = λ e. cc;
                      })
                | inr s' ↦
                    elim (Bool-cases (converges stop measure converged rounds records new rest)) [
                      | inl c ↦
                          rw (execute_tasks, s, m, s', c)
                            (record {
                              added = new ∷ [];
                              left = rest;
                              all_records = refl;
                              prefix = refl;
                              measured = (m, tt);
                              counted = one_round task rest [] rest rounds _ refl (omega arith);
                              went_on = tt;
                              unstopped = λ _ q lo hi. ground arith;
                              finished = λ _ e. cc;
                              asked = λ _. (refl, ground arith, ground arith);
                              stopped = λ e. cc;
                              failed = λ e. cc;
                            })
                      | inr c ↦
                          let later =
                            execute_tasks-IsExecution (index + 1) rounds' (records ++ new ∷ [])
                              rest in
                          rw (execute_tasks, s, m, s', c)
                            (one_more index rounds records task rest _ sample s m s' c later)
                    ]
              ]
        ]
      ]

  -- An execution records a prefix of the schedule in order, each task with the sample of its own
  -- measurement, and counts the rounds that end in the prefix; it went on after every record but the
  -- last, where the callback did not find the records converged at the end of a round. When complete,
  -- no query saw a stop request, and either the callback found the records converged at the end of a
  -- round, or the whole schedule is recorded and it did not. When interrupted, the first query that
  -- saw the request is the one before the next task, which is not measured, or the one after the last
  -- task recorded. On an error, the measurement of the next task failed, and no query saw a request.
  pub execute_tlb_measurement_schedule-IsExecution :
      (schedule : List TlbMeasurementTask)
      → IsExecution stop measure converged 0 0 [] schedule
          (execute_tlb_measurement_schedule stop measure converged schedule)
  unfolding execute_tlb_measurement_schedule
  execute_tlb_measurement_schedule-IsExecution schedule = execute_tasks-IsExecution 0 0 [] schedule
