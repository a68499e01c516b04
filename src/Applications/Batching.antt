-- ===== src/Applications/Batching.antt =====
-- The two loops in which include/applications/fifo.hpp and include/applications/lattice_agreement.hpp send
-- messages as long as there are `more`: the inner one while the limiter lets them through, and the
-- outer one, which resets it and waits. Fuel stands for the rounds. `send` is one message, with the
-- number of its futures; `none` is an assertion that fails there.
pub mod Ending
use broadcast_service.Base.{
  ℕ, zero, suc, ◌+◌, Bool, true, false, ◌&&◌, Option, none, some, List, if◌then◌else◌, ◌>>=◌,
}
use broadcast_service.Util.RateLimit
use broadcast_service.Util.RateLimit.{RateLimiter}
use broadcast_service.Util.Result.{Result}
use broadcast_service.Applications.Waiting.{Outcome, finished, failed, and_then, settle}

-- `results` is what the futures of a batch come to, given their number and the state.
module _ {S : Type 0} (more : S → Bool) (send : S → Option (ℕ × S))
    (results : ℕ → S → List (Result Unit)) where
  -- The inner loop, with the number of the futures.
  unfoldable pub batch : ℕ → ℕ → RateLimiter → S → Option (ℕ × RateLimiter × S)
  batch zero futures l s = some (futures, l, s)
  batch (suc fuel) futures l s =
      let fired = RateLimit.fire l in
      let rest = send s >>= λ sent. batch fuel (futures + sent.0) fired.1 sent.1 in
      if fired.0
      then (if more s then rest else some (futures, fired.1, s))
      else some (futures, fired.1, s)

  -- `limiter.Reset()`, and the wait for all futures.
  unfoldable pub wait : Option (ℕ × RateLimiter × S) → Outcome (RateLimiter × S)
  wait none = failed
  wait (some (futures, l, s)) = settle futures (results futures s) (RateLimit.reset l, s)

  -- The outer loop; the inner one has the fuel `inner`.
  unfoldable pub run : ℕ → ℕ → RateLimiter × S → Outcome (RateLimiter × S)
  run zero inner s = finished s
  run (suc fuel) inner (l, s) =
      let rest = and_then (run fuel inner) (wait (batch inner 0 l s)) in
      if more s then rest else finished (l, s)
