-- ===== src/Concurrency/Futures.antt =====
-- include/concurrency/shared_state.hpp, rendezvous.hpp, promise.hpp, future.hpp and combine.hpp: what
-- a promise and its future share. Producing and consuming are two steps each, the write of the
-- field and the exchange, since the two sides may be two threads.
pub mod Future
pub mod Interleavings
pub mod Promise
pub mod Combinators
mod Tests
use broadcast_service.Base.{
  ℕ, zero, suc, ◌+◌, Bool, true, false, Option, none, some, List, [], ◌∷◌, ◌++◌, if◌then◌else◌,
}
use broadcast_service.Util.Result
use broadcast_service.Util.Result.{Result, err, ok}

-- `state_.exchange(true)`: the old value and the new one
unfoldable pub exchange : Bool → Bool × Bool
exchange state = (state, true)

-- `tasks` is what `DoCallback` hands to the executor, in order. A callback is named by a number. The
-- executor is the one that runs the task at once, or any other.
pub record SharedState (T : Type 0) : Type 0 where
  pub result_placeholder : Result T
  pub rendezvous : Bool
  pub callback : Option ℕ
  pub tasks : List (Option ℕ × Result T)

module _ {T : Type 0} where
  unfoldable pub init : SharedState T
  init = record {
    result_placeholder = Result.default;
    rendezvous = false;
    callback = none;
    tasks = [];
  }

  -- An empty callback throws in the task.
  unfoldable pub do_callback : SharedState T → SharedState T
  do_callback s = record s { tasks = s.tasks ++ (s.callback, s.result_placeholder) ∷ [] }

  unfoldable pub write_result : Result T → SharedState T → SharedState T
  write_result result s = record s { result_placeholder = result }

  unfoldable pub write_callback : ℕ → SharedState T → SharedState T
  write_callback callback s = record s { callback = some callback }

  -- `if (rendezvous_.Producer()) DoCallback()`, and the same for `Consumer`
  unfoldable pub meet : SharedState T → SharedState T
  meet s =
      let (old, new) = exchange s.rendezvous in
      let s' : SharedState T = record s { rendezvous = new } in if old then do_callback s' else s'

  unfoldable pub produce : Result T → SharedState T → SharedState T
  produce result s = meet (write_result result s)

  unfoldable pub consume : ℕ → SharedState T → SharedState T
  consume callback s = meet (write_callback callback s)
