-- ===== src/Applications/Proposing/Tests.antt =====
-- Two lines of input for three rounds, and messages that come meanwhile.
use broadcast_service.Base.{ℕ, ◌≡◌, refl, List, [], ◌∷◌, arith, nat_eq, replicate}
use broadcast_service.Util.RateLimit
use broadcast_service.Util.RateLimit.{RateLimiter}
use broadcast_service.Util.Result.{Result, ok}
use broadcast_service.Primitives.LatticeAgreement.State
use broadcast_service.Primitives.LatticeAgreement.State.{LatticeAgreement}
use broadcast_service.Primitives.LatticeAgreement.Proposer.Starting.{Ready}
use broadcast_service.Primitives.LatticeAgreement.Proposer.Handling.{Arrival, proposes, accepts}
use broadcast_service.Applications.Waiting.{finished}
use broadcast_service.Applications.Waiting.Fulfilled.{Valued-replicate}
use broadcast_service.Applications.Proposing.{Proposer, init, read_proposal_from_input, propose_all}
use broadcast_service.Applications.Proposing.Rounds.{by_line, rounds}
use broadcast_service.Applications.Proposing.Complete.{propose_all-by_line}

abbrev limiter : RateLimiter
limiter = record { batch_size = 1; current_fire = 0 }

abbrev input : List (List ℕ)
input = (1 ∷ 2 ∷ []) ∷ (5 ∷ []) ∷ []

abbrev agreement : LatticeAgreement
agreement = State.init 1 (2 ∷ 3 ∷ [])

-- A proposal for round 5, and an answer for round 0, come before each message.
abbrev arrivals : ℕ → List Arrival
arrivals round =
    proposes 5 (record { proposed_value = 4 ∷ []; active_proposal_number = 0 })
    ∷ accepts 0 (record { status = 0; proposal_number = 0; accepted_value = [] })
    ∷ []

-- Each future comes to a value.
abbrev values : ℕ → Proposer → List (Result Unit)
values n p = replicate n (ok tt)

nothing_proposed : Ready 0 agreement.round_states
nothing_proposed = record { room = omega arith; fresh = λ j le. refl }

propose_all-by_line_example :
    (r : RateLimiter × Proposer) × (propose_all arrivals values 3
        (RateLimit.reset limiter, init input agreement)
      ≡ finished r)
    × (rounds r.1.sent ≡ by_line 0 3 input)
propose_all-by_line_example =
    propose_all-by_line arrivals values 3 limiter input agreement (omega arith) (omega arith)
      (λ n p. Valued-replicate n) nothing_proposed

by_line_three : by_line 0 3 input ≡ (0, 1 ∷ 2 ∷ []) ∷ (1, 5 ∷ []) ∷ (2, []) ∷ []
unfolding by_line read_proposal_from_input
by_line_three = refl
