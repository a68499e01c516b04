-- ===== src/Util/RateLimit.antt =====
-- The rate limiters of include/primitives/uniform_reliable_broadcast.hpp and lattice_agreement.hpp, which
-- differ in the number of packets that one operation costs. A network size for which that number is 0
-- makes the constructor divide by zero, which is `none`.
use broadcast_service.Base.{
  ℕ, zero, suc, ◌+◌, ◌-◌, ◌*◌, ◌/◌, ◌%◌, ◌^◌, ◌≤◌, ◌≡◌, Bool, true, false, Option, none, some,
  if◌then◌else◌, eqb, ltb, arith, Bool-cases, inl, inr,
}

pub record RateLimiter : Type 0 where
  pub batch_size : ℕ
  pub current_fire : ℕ

abbrev limiter : ℕ → ℕ → Option RateLimiter
limiter packet_multiplier link_packet_limit =
    if eqb packet_multiplier 0
    then none
    else (let batch = link_packet_limit / packet_multiplier in
        some (record { batch_size = if ltb 1 batch then batch else 1; current_fire = 0 }))

-- `UniformReliableBroadcastRateLimiter`
abbrev pub broadcast_limiter : ℕ → ℕ → Option RateLimiter
broadcast_limiter network_size link_packet_limit =
    limiter ((network_size * ((network_size + 2 ^ 64 - 1) % 2 ^ 64)) % 2 ^ 64) link_packet_limit

-- `LatticeAgreementRateLimiter`
abbrev pub agreement_limiter : ℕ → ℕ → Option RateLimiter
agreement_limiter network_size link_packet_limit =
    limiter ((2 * network_size * network_size) % 2 ^ 64) link_packet_limit

unfoldable pub fire : RateLimiter → Bool × RateLimiter
fire l =
    if eqb l.current_fire l.batch_size
    then (false, l)
    else (true, record l { current_fire = (l.current_fire + 1) % 2 ^ 64 })

unfoldable pub reset : RateLimiter → RateLimiter
reset l = record l { current_fire = 0 }

-- `n` operations are tried; how many may go on.
unfoldable pub fires : ℕ → RateLimiter → ℕ
fires zero l = 0
fires (suc n) l = (if (fire l).0 then 1 else 0) + fires n (fire l).1

fires_from :
    (n : ℕ) (l : RateLimiter)
    → l.current_fire ≤ l.batch_size
    → l.batch_size ≤ 2 ^ 64 - 1
    → fires n l
      ≡ (if ltb n (l.batch_size - l.current_fire) then n else l.batch_size - l.current_fire)
unfolding fires fire
fires_from zero l h small = ground arith
fires_from (suc n) l h small = elim (Bool-cases (eqb l.current_fire l.batch_size)) [
  | inl full ↦ ground (arith, fires_from n l)
  | inr room ↦
      ground (arith, fires_from n (record l { current_fire = (l.current_fire + 1) % 2 ^ 64 }))
]

-- After a reset exactly the first `batch_size` operations may go on, of any number that are tried.
pub fires-reset :
    (n : ℕ) (l : RateLimiter)
    → l.batch_size ≤ 2 ^ 64 - 1
    → fires n (reset l) ≡ (if ltb n l.batch_size then n else l.batch_size)
unfolding reset
fires-reset n l small =
    ground (arith, fires_from n (record l { current_fire = 0 }) (omega arith) small)
