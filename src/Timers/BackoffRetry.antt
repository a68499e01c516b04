-- ===== src/Timers/BackoffRetry.antt =====
-- include/io/transport/backoff_retry.hpp: `BackoffRetryTimer`, a timer that calls its callback and
-- arms itself again with a longer timeout. A call is recorded as the timer's id and its callback,
-- and `backoff` is the policy's next timeout.
pub mod Muting
pub mod Rearming
pub mod Silencing
use broadcast_service.Base.{
  ℕ, zero, suc, Bool, true, false, Option, none, some, List, [], ◌∷◌, ◌++◌, if◌then◌else◌, ◌>>=◌,
}
use broadcast_service.Transport.RetryPolicy
use broadcast_service.Transport.RetryPolicy.{RetryPolicy}
use broadcast_service.Timers.TimerService
use broadcast_service.Timers.TimerService.{Timer, TimerService}

pub record BackoffRetryTimer (C : Type 0) : Type 0 where
  pub callback : C
  pub retry_policy : RetryPolicy

module _ {C : Type 0} (backoff : ℕ → ℕ) where
  unfoldable pub rearm :
      C
      → ℕ
      → RetryPolicy
      → TimerService (BackoffRetryTimer C)
      → Option (TimerService (BackoffRetryTimer C))
  rearm callback id policy w =
      if RetryPolicy.is_valid policy
      then TimerService.add_timer_with_id (record { callback = callback; retry_policy = policy }) id
          policy.timeout w
      else some w

  -- `Fire`
  unfoldable pub fire :
      Timer (BackoffRetryTimer C)
      → TimerService (BackoffRetryTimer C)
      → Option ((ℕ × C) × TimerService (BackoffRetryTimer C))
  fire timer w = do
    w ← rearm timer.item.callback timer.id (RetryPolicy.next backoff timer.item.retry_policy) w
    some ((timer.id, timer.item.callback), w)

  -- The last loop of `Tick`.
  unfoldable pub fire_all :
      List (Timer (BackoffRetryTimer C))
      → TimerService (BackoffRetryTimer C)
      → Option (List (ℕ × C) × TimerService (BackoffRetryTimer C))
  fire_all [] w = some ([], w)
  fire_all (timer ∷ fired) w = do
    (call, w) ← fire timer w
    (calls, w) ← fire_all fired w
    some (call ∷ calls, w)

  -- `Handle`: cancelling a timer only frees it.
  unfoldable pub handle :
      ℕ
      → TimerService (BackoffRetryTimer C)
      → Option (List (ℕ × C) × TimerService (BackoffRetryTimer C))
  handle elapsed w = let ticked = TimerService.tick elapsed w in fire_all ticked.1.0 ticked.1.1

  -- One wake-up after the other.
  unfoldable pub handle_all :
      List ℕ
      → TimerService (BackoffRetryTimer C)
      → Option (List (ℕ × C) × TimerService (BackoffRetryTimer C))
  handle_all [] w = some ([], w)
  handle_all (elapsed ∷ rest) w = do
    (calls, w) ← handle elapsed w
    (later, w) ← handle_all rest w
    some (calls ++ later, w)
