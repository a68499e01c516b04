-- ===== src/Primitives/LatticeAgreement/State.antt =====
-- include/primitives/lattice_agreement.hpp: `RoundState`, the fields of `LatticeAgreement`, and the
-- functions that create and find the state of a round. A future is the round whose promise it waits
-- for, or `none` once it was moved away. `sent` and `decided` record the calls of the transport and
-- of the callback.
pub mod Rounds
use broadcast_service.Base.{
  ℕ, zero, suc, ◌+◌, ◌/◌, List, [], ◌∷◌, ◌++◌, map, Bool, true, false, Option, none, some, ◌>>=◌,
  length, set, get_elem?, if◌then◌else◌, leb, ltb, eqb, is_some,
}
use mathlib.Core.Option
use broadcast_service.Transport.Bytes.{Bytes}

abbrev pub Future : Type 0
Future = Option ℕ

pub record RoundState : Type 0 where
  pub active_proposal_number : ℕ  -- uint32_t, as are the counters
  pub acks : ℕ
  pub nacks : ℕ
  pub decisions : ℕ
  pub proposed_value : List ℕ
  pub accepted_value : List ℕ
  pub completed : Bool
  pub fulfilled : Bool  -- `promise` has its value
  pub preliminary_future : Option Future

pub record LatticeAgreement : Type 0 where
  pub local_id : ℕ
  pub network_size : ℕ
  pub peers : List ℕ  -- of `runtime_.GetHosts()`
  pub round_states : List RoundState
  pub sent : List (ℕ × Bytes)
  pub decided : List (ℕ × List ℕ)

-- The constructor, over a table of hosts: `GetNetworkSize(/*with_me=*/true)` counts this process.
abbrev pub init : ℕ → List ℕ → LatticeAgreement
init local_id peers = record {
  local_id = local_id;
  network_size = length peers + 1;
  peers = peers;
  round_states = [];
  sent = [];
  decided = [];
}

abbrev pub new_round : List ℕ → Option Future → RoundState
new_round value preliminary = record {
  active_proposal_number = 0;
  acks = 0;
  nacks = 0;
  decisions = 0;
  proposed_value = value;
  accepted_value = [];
  completed = false;
  fulfilled = false;
  preliminary_future = preliminary;
}

-- The loop appends one round at a time, so `suc round` rounds of it are enough.
unfoldable pub grow : ℕ → ℕ → List RoundState → List RoundState
grow zero round states = states
grow (suc fuel) round states =
    let longer = grow fuel round (states ++ new_round [] (some (some (length states))) ∷ []) in
    if leb (length states) round then longer else states

unfoldable pub initialize_empty_round_states : ℕ → List RoundState → List RoundState
initialize_empty_round_states round = grow (suc round) round

-- `none` is a failed assertion. A future that is taken leaves an empty one behind.
unfoldable pub initialize_next_round_state :
    ℕ → List ℕ → List RoundState → Option (Future × List RoundState)
initialize_next_round_state round proposal states = elim (get_elem? states round) [
  | some state ↦ (do
    future ← state.preliminary_future
    some (
      future,
      set states round (record state { proposed_value = proposal; preliminary_future = some none }),
    ))
  | none ↦
      if eqb round (length states)
      then some (some round, states ++ new_round proposal none ∷ [])
      else none
]

unfoldable pub ensure_round : ℕ → List RoundState → List RoundState
unfolding initialize_empty_round_states
ensure_round round states =
    if leb (length states) round then initialize_empty_round_states round states else states

-- The state of a round, and the states among which it stands; `none` is a failed assertion.
unfoldable pub get_round_state : ℕ → List RoundState → Option (RoundState × List RoundState)
get_round_state round states =
    Option.map (λ state. (state, ensure_round round states))
      (get_elem? (ensure_round round states) round)

abbrev pub put : LatticeAgreement → ℕ → RoundState → LatticeAgreement
put la round state = record la { round_states = set la.round_states round state }

unfoldable pub majority : LatticeAgreement → ℕ
majority la = la.network_size / 2 + 1

-- `BestEffortBroadcast`: to every peer, and to this process last.
unfoldable pub best_effort_broadcast : Bytes → LatticeAgreement → LatticeAgreement
best_effort_broadcast message la = record la {
  sent = la.sent ++ (map (λ peer. (peer, message)) la.peers ++ (la.local_id, message) ∷ []);
}
