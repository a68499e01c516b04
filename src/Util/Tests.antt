-- ===== src/Util/Tests.antt =====
-- Unions and inclusions of small vectors.
use broadcast_service.Base.{
  if◌then◌else◌, ltb, ℕ, ◌≡◌, refl, List, [], ◌∷◌, Distinct, contains, nat_eq, arith,
}
use broadcast_service.Util.SetOperation.{push_missing, vector_set_union}
use broadcast_service.Util.RateLimit.{RateLimiter, fires, reset, fires-reset}
use broadcast_service.Util.SetOperation.Union.{}

abbrev small : List ℕ
small = 2 ∷ 1 ∷ []

abbrev large : List ℕ
large = 1 ∷ 2 ∷ 3 ∷ []

small-Distinct : Distinct small
unfolding contains
small-Distinct = (refl, (refl, tt))

large-Distinct : Distinct large
unfolding contains
large-Distinct = (refl, (refl, (refl, tt)))

-- The elements that are missing go to the back.
union_order : vector_set_union small large ≡ 2 ∷ 1 ∷ 3 ∷ []
unfolding vector_set_union push_missing contains
union_order = refl

abbrev repeated : List ℕ
repeated = 5 ∷ 5 ∷ []

-- A repeated element of the right side is pushed as often as it is there.
union_repeated : vector_set_union [] repeated ≡ 5 ∷ 5 ∷ []
unfolding vector_set_union push_missing contains
union_repeated = refl

abbrev limiter : RateLimiter
limiter = record { batch_size = 2; current_fire = 1 }

fires-reset_example : fires 5 (reset limiter) ≡ (if ltb 5 2 then 5 else 2)
fires-reset_example = fires-reset 5 limiter (omega arith)
