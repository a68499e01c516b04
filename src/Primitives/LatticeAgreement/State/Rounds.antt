-- ===== src/Primitives/LatticeAgreement/State/Rounds.antt =====
-- include/primitives/lattice_agreement.hpp: lemmas on `GetRoundState` and the vector of rounds.
use broadcast_service.Base.{
  ℕ, zero, suc, ◌+◌, ◌<◌, ◌≤◌, ◌≡◌, refl, List, [], ◌∷◌, ◌++◌, Option, none, some, length, set,
  get_elem?, length-append, arith, if◌then◌else◌, get_elem?_total, get_elem?_beyond,
  get_elem?-append_left, get_elem?-append_end, get_elem?-set_self, get_elem?-set_ne, eqb,
}
use native.Mathlib.Decide.{dec_lt, ℕ_discrete}
use broadcast_service.Transport.Bytes.{Bytes}
use broadcast_service.Primitives.LatticeAgreement.State.{
  RoundState, LatticeAgreement, new_round, grow, initialize_empty_round_states, ensure_round,
  get_round_state,
}

-- The state of a round; a round that was not created counts as empty, with its first future.
abbrev pub round_of : List RoundState → ℕ → RoundState
round_of states j = elim (get_elem? states j) [
  | none ↦ new_round [] (some (some j))
  | some state ↦ state
]

round_of-append_empty :
    (states : List RoundState) (j : ℕ)
    → round_of (states ++ new_round [] (some (some (length states))) ∷ []) j ≡ round_of states j
round_of-append_empty states j = elim (dec_lt j (length states)) [
  | yes below ↦ ground (
    arith,
    get_elem?-append_left states (new_round [] (some (some (length states))) ∷ []) j below,
  )
  | no above ↦ elim (ℕ_discrete j (length states)) [
    | yes here ↦ rw here (
        ground (
          arith,
          get_elem?-append_end states (new_round [] (some (some (length states)))),
          get_elem?_beyond states (length states),
        ))
    | no beyond ↦ ground (
      arith,
      get_elem?_beyond states j,
      get_elem?_beyond (states ++ new_round [] (some (some (length states))) ∷ []) j,
      length-append states (new_round [] (some (some (length states))) ∷ []),
    )
  ]
]

round_of-grow :
    (fuel round : ℕ) (states : List RoundState) (j : ℕ)
    → round_of (grow fuel round states) j ≡ round_of states j
unfolding grow
round_of-grow zero round states j = refl
round_of-grow (suc fuel) round states j = ground (
  arith,
  round_of-append_empty states j,
  round_of-grow fuel round (states ++ new_round [] (some (some (length states))) ∷ []) j,
)

length-grow :
    (fuel round : ℕ) (states : List RoundState)
    → round < length states + fuel
    → round < length (grow fuel round states)
unfolding grow
length-grow zero round states h = omega arith
length-grow (suc fuel) round states h = ground (
  arith,
  length-append states (new_round [] (some (some (length states))) ∷ []),
  length-grow fuel round (states ++ new_round [] (some (some (length states))) ∷ []),
)

length-grow_least :
    (fuel round : ℕ) (states : List RoundState) → length states ≤ length (grow fuel round states)
unfolding grow
length-grow_least zero round states = omega arith
length-grow_least (suc fuel) round states = ground (
  arith,
  length-append states (new_round [] (some (some (length states))) ∷ []),
  length-grow_least fuel round (states ++ new_round [] (some (some (length states))) ∷ []),
)

length-ensure_round_least :
    (round : ℕ) (states : List RoundState) → length states ≤ length (ensure_round round states)
unfolding ensure_round initialize_empty_round_states
length-ensure_round_least round states = ground (arith, length-grow_least (suc round) round states)

-- What `GetRoundState` promises.
pub record Found (round : ℕ) (states : List RoundState) (r : Option (RoundState × List RoundState))
    : Type 0 where
  pub all : List RoundState
  pub found : r ≡ some (round_of states round, all)
  pub room : round < length all
  pub same : (j : ℕ) → round_of all j ≡ round_of states j
  pub grown : length states ≤ length all

length-ensure_round :
    (round : ℕ) (states : List RoundState) → round < length (ensure_round round states)
unfolding ensure_round
length-ensure_round round states = ground (arith, length-grow (suc round) round states)

round_of-ensure_round :
    (round : ℕ) (states : List RoundState) (j : ℕ)
    → round_of (ensure_round round states) j ≡ round_of states j
unfolding ensure_round
round_of-ensure_round round states j = ground (arith, round_of-grow (suc round) round states j)

-- The assertion never fails, and creating rounds changes no round.
pub get_round_state_total :
    (round : ℕ) (states : List RoundState) → Found round states (get_round_state round states)
unfolding get_round_state
get_round_state_total round states = record {
  all = ensure_round round states;
  found = ground (arith, round_of-ensure_round round states round, found);
  room = length-ensure_round round states;
  same = round_of-ensure_round round states;
  grown = length-ensure_round_least round states;
}
  where
    found : (s : RoundState) × (get_elem? (ensure_round round states) round ≡ some s)
    found = get_elem?_total (ensure_round round states) round (length-ensure_round round states)

pub round_of-set :
    (states : List RoundState) (round j : ℕ) (s : RoundState)
    → round < length states
    → round_of (set states round s) j ≡ (if eqb round j then s else round_of states j)
round_of-set states round j s h = elim (ℕ_discrete round j) [
  | yes here ↦ ground (arith, get_elem?-set_self states j s)
  | no other ↦ ground (arith, get_elem?-set_ne states round j s other)
]

-- From `la` to `la'` only one round changed; these were decided and sent.
pub record Effect (la : LatticeAgreement) (round : ℕ) (s : RoundState)
    (decisions : List (ℕ × List ℕ)) (packets : List (ℕ × Bytes)) (la' : LatticeAgreement)
    : Type 0 where
  pub rounds :
      (j : ℕ)
      → round_of la'.round_states j ≡ (if eqb round j then s else round_of la.round_states j)
  pub grown : length la.round_states ≤ length la'.round_states
  pub decided : la'.decided ≡ la.decided ++ decisions
  pub sent : la'.sent ≡ la.sent ++ packets
  pub local_id : la'.local_id ≡ la.local_id
  pub peers : la'.peers ≡ la.peers
  pub network_size : la'.network_size ≡ la.network_size
