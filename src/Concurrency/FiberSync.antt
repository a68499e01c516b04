-- ===== src/Concurrency/FiberSync.antt =====
-- include/concurrency/fiber_sync.hpp: the event, the mutex and the wait group on which fibers sleep, and
-- include/concurrency/wait_group.hpp. A fiber is a number. Each method runs under its spin lock, as one
-- step; a fiber that is pushed to the sleepers is suspended.
pub mod Fairness
pub mod WakeUps
mod Tests
use broadcast_service.Base.{
  ℕ, ◌+◌, ◌-◌, ◌%◌, ◌^◌, Bool, true, false, Option, none, some, List, [], ◌∷◌, ◌++◌, nat_eq, ◌==◌,
  if◌then◌else◌,
}

-- `FiberOneShotEvent`
pub record Event : Type 0 where
  pub sleepers : List ℕ
  pub is_fired : Bool

unfoldable pub new_event : Event
new_event = record { sleepers = []; is_fired = false }

-- `Wait`, with whether the fiber goes on.
unfoldable pub wait : ℕ → Event → Bool × Event
wait fiber e =
    if e.is_fired then (true, e) else (false, record e { sleepers = e.sleepers ++ fiber ∷ [] })

-- `Fire`, with the fibers that it awakes.
unfoldable pub fire : Event → List ℕ × Event
fire e = (e.sleepers, record { sleepers = []; is_fired = true })

-- `FiberMutex`
pub record FiberMutex : Type 0 where
  pub sleepers : List ℕ
  pub is_locked : Bool

unfoldable pub new_mutex : FiberMutex
new_mutex = record { sleepers = []; is_locked = false }

-- `Lock`, with whether the fiber goes on.
unfoldable pub lock : ℕ → FiberMutex → Bool × FiberMutex
lock fiber m =
    if m.is_locked
    then (false, record m { sleepers = m.sleepers ++ fiber ∷ [] })
    else (true, record m { is_locked = true })

-- `Unlock` by the first of the sleepers, with the fiber that it awakes.
unfoldable pub hand_over : List ℕ → FiberMutex → Option ℕ × FiberMutex
hand_over [] m = (none, record m { is_locked = false })
hand_over (sleeper ∷ sleepers) m = (some sleeper, record m { sleepers = sleepers })

unfoldable pub unlock : FiberMutex → Option ℕ × FiberMutex
unlock m = hand_over m.sleepers m

-- `FiberWaitGroup`
pub record FiberWaitGroup : Type 0 where
  pub counter : ℕ
  pub event : Event

unfoldable pub add : ℕ → FiberWaitGroup → FiberWaitGroup
add count g = record g { counter = (g.counter + count) % 2 ^ 64 }

-- The counter before the subtraction is compared with 1.
unfoldable pub done : ℕ → FiberWaitGroup → List ℕ × FiberWaitGroup
done count g =
    let counted : FiberWaitGroup = record g { counter = (g.counter + 2 ^ 64 - count) % 2 ^ 64 } in
    if g.counter == 1
    then ((fire g.event).0, record counted { event = (fire g.event).1 })
    else ([], counted)

unfoldable pub wait_group : ℕ → FiberWaitGroup → Bool × FiberWaitGroup
wait_group fiber g = let waited = wait fiber g.event in (waited.0, record g { event = waited.1 })

-- `WaitGroup::Add` and `Done` of wait_group.hpp on the counter of 32 bits; `Done` tells whether it wakes
-- the threads that wait.
unfoldable pub add_thread : ℕ → ℕ → ℕ
add_thread num counter = (counter + num) % 2 ^ 32

unfoldable pub done_thread : ℕ → ℕ → Bool × ℕ
done_thread num counter = let left : ℕ = (counter + 2 ^ 32 - num) % 2 ^ 32 in (left == 0, left)
