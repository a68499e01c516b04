-- ===== src/Concurrency/Queue.antt =====
-- include/concurrency/queue.hpp: `UnboundedMRMWQueue`. Each method runs under the lock; a `Take` that
-- waits for the condition variable is no step until it can go on.
pub mod Draining
mod Tests
use broadcast_service.Base.{
  ℕ, Bool, true, false, Option, none, some, List, [], ◌∷◌, ◌++◌, if◌then◌else◌,
}

pub record Queue (T : Type 0) : Type 0 where
  pub buffer : List T
  pub is_closed : Bool

module _ {T : Type 0} where
  unfoldable pub init : Queue T
  init = record { buffer = []; is_closed = false }

  unfoldable pub put : T → Queue T → Bool × Queue T
  put value q =
      if q.is_closed then (false, q) else (true, record q { buffer = q.buffer ++ value ∷ [] })

  -- The value at the front, if there is one.
  unfoldable pub take_front : List T → Queue T → Option T × Queue T
  take_front [] q = (none, q)
  take_front (value ∷ buffer) q = (some value, record q { buffer = buffer })

  unfoldable pub waits : List T → Bool → Bool
  waits [] closed = if closed then false else true
  waits (value ∷ buffer) closed = false

  -- `none` waits; a result without a value is `std::nullopt`.
  unfoldable pub take : Queue T → Option (Option T × Queue T)
  take q = if waits q.buffer q.is_closed then none else some (take_front q.buffer q)

  unfoldable pub close : Queue T → Queue T
  close q = record q { is_closed = true }

  unfoldable pub clear : Queue T → Queue T
  clear q = record { buffer = []; is_closed = true }
