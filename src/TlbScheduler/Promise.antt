-- ===== src/TlbScheduler/Promise.antt =====
-- What an execution of a schedule promises: what is recorded, and why it ended.
use mac_os_memory_benchmark.Common.{
  ℕ, ◌+◌, ◌-◌, ◌*◌, ◌≤◌, ◌≡◌, ◌≢◌, ◌⊎◌, length, List, [], ◌∷◌, ◌++◌, map, Bool, true, false, ◌&&◌,
  Option, none, some, if◌then◌else◌,
}
use mac_os_memory_benchmark.Common.Queries.{NoStop}
use mac_os_memory_benchmark.TlbScheduler.{
  TlbMeasurementTask, complete, interrupted, error, TlbMeasurementRecord,
  TlbScheduleExecutionResult, round_complete,
}

module _ {Sample : Type 0} (stop : ℕ → Bool) (measure : ℕ → TlbMeasurementTask → Option Sample)
    (converged : ℕ → List (TlbMeasurementRecord Sample) → Bool) where
  -- The tasks of the records.
  abbrev pub recorded : List (TlbMeasurementRecord Sample) → List TlbMeasurementTask
  recorded records = map (λ (r : TlbMeasurementRecord Sample). r.task) records

  -- The rounds that end within a prefix of the schedule.
  unfoldable pub rounds_in : List TlbMeasurementTask → List TlbMeasurementTask → ℕ
  rounds_in [] left = 0
  rounds_in (task ∷ tasks) left =
      (if round_complete task (tasks ++ left) then 1 else 0) + rounds_in tasks left

  -- The samples are what the measurements of the tasks, from the call `index` on, returned.
  abbrev pub AreMeasured : ℕ → List (TlbMeasurementRecord Sample) → Type 0
  AreMeasured index [] = Unit
  AreMeasured index (r ∷ rs) = (measure index r.task ≡ some r.sample) × AreMeasured (index + 1) rs

  -- The rounds complete after one more task, and whether the callback then finds the records converged.
  abbrev pub rounds_after : ℕ → TlbMeasurementTask → List TlbMeasurementTask → ℕ
  rounds_after rounds task rest = if round_complete task rest then rounds + 1 else rounds

  abbrev pub converges :
      ℕ
      → List (TlbMeasurementRecord Sample)
      → TlbMeasurementRecord Sample
      → List TlbMeasurementTask
      → Bool
  converges rounds records r rest =
      round_complete r.task rest && converged (rounds_after rounds r.task rest) (records ++ r ∷ [])

  -- The execution went on after every new record but the last: the callback did not find those so far
  -- converged.
  abbrev pub WentOn :
      ℕ
      → List (TlbMeasurementRecord Sample)
      → List (TlbMeasurementRecord Sample)
      → List TlbMeasurementTask
      → Type 0
  WentOn rounds records [] left = Unit
  WentOn rounds records (r ∷ []) left = Unit
  WentOn rounds records (r ∷ (r' ∷ rs)) left =
      (converges rounds records r (recorded (r' ∷ rs) ++ left) ≡ false)
      × WentOn (rounds_after rounds r.task (recorded (r' ∷ rs) ++ left)) (records ++ r ∷ [])
          (r' ∷ rs) left

  -- The last record ends a round.
  abbrev pub ends_round : List (TlbMeasurementRecord Sample) → List TlbMeasurementTask → Bool
  ends_round [] left = false
  ends_round (r ∷ []) left = round_complete r.task left
  ends_round (r ∷ (r' ∷ rs)) left = ends_round (r' ∷ rs) left

  -- What an execution from the task at `index` on, with some records made and rounds complete before
  -- it, promises. The new records are those of a prefix of the tasks, in order, each with the sample
  -- of its measurement; the rounds counted are those that end in the prefix; and the callback had not
  -- found the records converged before the last of them. A complete result saw no stop: without
  -- convergence no task is left, and the callback did not find the records converged; with it, they
  -- end a round and the callback did. An interruption comes at the first query that sees a stop, the
  -- one before the next task or the one after the last. An error is that of the next task.
  pub record IsExecution (index rounds : ℕ) (records : List (TlbMeasurementRecord Sample))
      (tasks : List TlbMeasurementTask) (r : TlbScheduleExecutionResult Sample) : Type 0 where
    pub added : List (TlbMeasurementRecord Sample)
    pub left : List TlbMeasurementTask
    pub all_records : r.records ≡ records ++ added
    pub prefix : tasks ≡ recorded added ++ left
    pub measured : AreMeasured index added
    pub counted : r.rounds_completed ≡ rounds + rounds_in (recorded added) left
    pub went_on : WentOn rounds records added left
    pub unstopped : r.status ≡ complete → NoStop stop (2 * index) (2 * index + 2 * length added)
    pub finished :
        r.status ≡ complete
        → r.converged ≡ false
        → (left ≡ []) × ((added ≡ []) ⊎ (converged r.rounds_completed r.records ≡ false))
    pub asked :
        r.converged ≡ true
        → (r.status ≡ complete)
          × (ends_round added left ≡ true)
          × (converged r.rounds_completed r.records ≡ true)
    pub stopped :
        r.status ≡ interrupted
        → ((left ≢ [])
            × (stop (2 * index + 2 * length added) ≡ true)
            × NoStop stop (2 * index) (2 * index + 2 * length added))
          ⊎ ((1 ≤ length added)
              × (stop (2 * index + 2 * length added - 1) ≡ true)
              × NoStop stop (2 * index) (2 * index + 2 * length added - 1))
    pub failed :
        r.status ≡ error
        → (task : TlbMeasurementTask) × (rest : List TlbMeasurementTask) × (left ≡ task ∷ rest)
          × (measure (index + length added) task ≡ none)
          × NoStop stop (2 * index) (2 * index + 2 * length added + 1)
