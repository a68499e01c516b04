-- ===== src/Transport/RetryPolicy.antt =====
-- include/io/transport/backoff_retry.hpp: `RetryPolicy`. The next timeout is computed in floating point,
-- and perhaps at random: `backoff` stands for it.
use broadcast_service.Base.{ℕ, Bool, leb}

pub record RetryPolicy : Type 0 where
  pub timeout : ℕ
  pub max_timeout : ℕ
  pub initial_timeout : ℕ

abbrev pub init : ℕ → ℕ → RetryPolicy
init timeout max_timeout = record {
  timeout = timeout;
  max_timeout = max_timeout;
  initial_timeout = timeout;
}

abbrev pub is_valid : RetryPolicy → Bool
is_valid policy = leb policy.timeout policy.max_timeout

abbrev pub next : (ℕ → ℕ) → RetryPolicy → RetryPolicy
next backoff policy = record policy { timeout = backoff policy.timeout }

abbrev pub reset : RetryPolicy → RetryPolicy
reset policy = record policy { timeout = policy.initial_timeout }
