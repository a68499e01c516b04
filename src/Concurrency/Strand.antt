-- ===== src/Concurrency/Strand.antt =====
-- include/runtime/strand_impl.hpp: `IStrandImpl`, which runs its tasks in batches on an executor, one
-- batch at a time. Its threads take single steps: the push of a task, the addition to the counter, the
-- start of a run, and its end. `submitted` has 64 bits and a sign.
pub mod Single
mod Tests
use broadcast_service.Base.{
  ℕ, zero, suc, ◌+◌, ◌-◌, ◌%◌, ◌^◌, Bool, true, false, ◌&&◌, List, [], ◌∷◌, ◌++◌, nat_eq, ◌==◌,
  if◌then◌else◌, ltb, length,
}

-- Besides the fields: the pushed tasks that are not yet added to the counter, the runs that the executor
-- has been given, the batches of the runs that have started, and the tasks that have been processed
-- and pushed, in order.
pub record Strand (T : Type 0) : Type 0 where
  pub tasks : List T
  pub submitted : ℕ
  pub uncounted : ℕ
  pub scheduled : ℕ
  pub running : List (List T)
  pub processed : List T
  pub pushed : List T

-- `old > n` of signed numbers, where `n` is not negative
unfoldable pub exceeds : ℕ → ℕ → Bool
exceeds old n = ltb old (2 ^ 63) && ltb n old

module _ {T : Type 0} where
  unfoldable pub init : Strand T
  init = record {
    tasks = [];
    submitted = 0;
    uncounted = 0;
    scheduled = 0;
    running = [];
    processed = [];
    pushed = [];
  }

  -- `tasks_.Push(task)`
  unfoldable pub push : T → Strand T → Strand T
  push task s = record s {
    tasks = s.tasks ++ task ∷ [];
    uncounted = s.uncounted + 1;
    pushed = s.pushed ++ task ∷ [];
  }

  -- `if (submitted_.fetch_add(1) == 0)` the strand is given to the executor.
  unfoldable pub count : Strand T → Strand T
  count s = record s {
    uncounted = s.uncounted - 1;
    submitted = (s.submitted + 1) % 2 ^ 64;
    scheduled = if s.submitted == 0 then s.scheduled + 1 else s.scheduled;
  }

  -- `Task` up to the end of `ProcessBatch`; on an empty batch it returns.
  unfoldable pub begin : List T → Strand T → Strand T
  begin [] s = s
  begin (task ∷ batch) s = record s {
    tasks = [];
    running = (task ∷ batch) ∷ s.running;
    processed = s.processed ++ task ∷ batch;
  }

  unfoldable pub start : Strand T → Strand T
  start s = begin s.tasks (record s { scheduled = s.scheduled - 1 })

  -- `if (submitted_.fetch_sub(num_tasks) > num_tasks)` the strand is given to the executor again.
  -- `rest` is the other runs.
  unfoldable pub finish : ℕ → List (List T) → Strand T → Strand T
  finish num_tasks rest s = record s {
    running = rest;
    submitted = (s.submitted + 2 ^ 64 - num_tasks) % 2 ^ 64;
    scheduled = if exceeds s.submitted num_tasks then s.scheduled + 1 else s.scheduled;
  }
