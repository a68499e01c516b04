-- ===== src/Concurrency/ThreadPool.antt =====
-- src/runtime/thread_pool.cpp: `ThreadPool`, which runs the tasks of a queue on its workers and counts those
-- that are pending. Its threads take single steps: the addition to the counter, the put, the take,
-- and the `Done` after a task or after a put that was refused.
pub mod Pending
mod Tests
use broadcast_service.Base.{
  ℕ, ◌+◌, ◌-◌, Bool, true, false, Option, none, some, List, [], ◌∷◌, ◌++◌, if◌then◌else◌,
}
use broadcast_service.Concurrency.FiberSync.{add_thread, done_thread}
use broadcast_service.Concurrency.Queue
use broadcast_service.Concurrency.Queue.{Queue}

-- Besides the fields: the calls of `Execute` between the counter and the queue, those and the workers
-- that owe a `Done`, and the tasks that were accepted and taken, in order.
pub record ThreadPool (T : Type 0) : Type 0 where
  pub tasks : Queue T
  pub pending_tasks : ℕ
  pub adding : ℕ
  pub owing : ℕ
  pub accepted : List T
  pub taken : List T

module _ {T : Type 0} where
  unfoldable pub init : ThreadPool T
  init = record {
    tasks = Queue.init;
    pending_tasks = 0;
    adding = 0;
    owing = 0;
    accepted = [];
    taken = [];
  }

  -- `pending_tasks_.Add()`
  unfoldable pub add : ThreadPool T → ThreadPool T
  add s = record s { pending_tasks = add_thread 1 s.pending_tasks; adding = s.adding + 1 }

  -- `tasks_.Put(task)`; a task that is refused is no longer pending, which a `Done` tells.
  unfoldable pub put : T → ThreadPool T → ThreadPool T
  put task s =
      let r = Queue.put task s.tasks in
      let left : ThreadPool T = record s { tasks = r.1; adding = s.adding - 1 } in
      if r.0
      then record left { accepted = s.accepted ++ task ∷ [] }
      else record left { owing = s.owing + 1 }

  -- A worker takes what the queue gives; without a task it leaves its loop.
  unfoldable pub given : Option (Option T × Queue T) → ThreadPool T → ThreadPool T
  given none s = s
  given (some (none, tasks)) s = record s { tasks = tasks }
  given (some (some task, tasks)) s = record s {
    tasks = tasks;
    owing = s.owing + 1;
    taken = s.taken ++ task ∷ [];
  }

  unfoldable pub take : ThreadPool T → ThreadPool T
  take s = given (Queue.take s.tasks) s

  -- `pending_tasks_.Done()`
  unfoldable pub done : ThreadPool T → ThreadPool T
  done s = record s { pending_tasks = (done_thread 1 s.pending_tasks).1; owing = s.owing - 1 }

  unfoldable pub signal_stop : ThreadPool T → ThreadPool T
  signal_stop s = record s { tasks = Queue.close s.tasks }
