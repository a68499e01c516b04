-- ===== src/Primitives/LatticeAgreement/Proposer.antt =====
-- include/primitives/lattice_agreement.hpp: the proposer's side, `Propose`, `HandleAcceptMessage` with
-- `HandleAck` and `HandleNack`, and what they lead to.
pub mod React
pub mod Refinement
pub mod Starting
pub mod Futures
pub mod Handling
use broadcast_service.Base.{
  ℕ, ◌+◌, ◌%◌, ◌^◌, List, [], ◌∷◌, ◌++◌, true, ◌&&◌, Option, none, some, ◌>>=◌, length,
  if◌then◌else◌, eqb, leb, ltb, nat_eq,
}
use broadcast_service.Util.SetOperation.{vector_set_union}
use broadcast_service.Primitives.LatticeAgreement.ProposalMessage
use broadcast_service.Primitives.LatticeAgreement.ProposalMessage.{Proposal, ProposalMessage}
use broadcast_service.Primitives.LatticeAgreement.AcceptMessage.{Accept, AcceptMessage, ack, nack}
use broadcast_service.Primitives.LatticeAgreement.LaMessage
use broadcast_service.Primitives.LatticeAgreement.LaMessage.{LaMessage}
use broadcast_service.Primitives.LatticeAgreement.State.{
  Future, RoundState, LatticeAgreement, get_round_state, put, initialize_next_round_state, majority,
  best_effort_broadcast,
}

unfoldable pub wrap_proposal_message : ProposalMessage → Option LaMessage
wrap_proposal_message input = do
  message ← ProposalMessage.to_bytes input
  some (record { type = LaMessage.proposal; message = message })

-- The proposals of a message are put into the states of their rounds, one future for each.
unfoldable pub initialize_rounds :
    ℕ → List Proposal → LatticeAgreement → Option (List Future × LatticeAgreement)
initialize_rounds round [] la = some ([], la)
initialize_rounds round (proposal ∷ proposals) la = do
  (future, states) ← initialize_next_round_state round proposal.proposed_value la.round_states
  (futures, la') ←
      initialize_rounds ((round + 1) % 2 ^ 32) proposals (record la { round_states = states })
  some (future ∷ futures, la')

unfoldable pub broadcast_proposals : ProposalMessage → LatticeAgreement → Option LatticeAgreement
broadcast_proposals message la = do
  la_message ← wrap_proposal_message message
  buffer ← LaMessage.to_bytes la_message
  some (best_effort_broadcast buffer la)

unfoldable pub propose :
    ProposalMessage → LatticeAgreement → Option (List Future × LatticeAgreement)
propose message la = do
  (futures, la') ← initialize_rounds message.first_round_id message.proposals la
  la'' ← broadcast_proposals message la'
  some (futures, la'')

-- `Decide`: the promise is fulfilled, and the callback called.
unfoldable pub decide : ℕ → RoundState → LatticeAgreement → LatticeAgreement
decide round state la =
    put (record la { decided = la.decided ++ (round, state.proposed_value) ∷ [] }) round
      (record state { completed = true; fulfilled = true })

abbrev pub next_proposal : RoundState → RoundState
next_proposal state = record state {
  active_proposal_number = (state.active_proposal_number + 1) % 2 ^ 32;
  acks = 0;
  nacks = 0;
}

abbrev pub proposal_of : ℕ → RoundState → ProposalMessage
proposal_of round state = record {
  first_round_id = round;
  proposals =
      record {
        proposed_value = state.proposed_value;
        active_proposal_number = state.active_proposal_number;
      }
      ∷ [];
}

unfoldable pub move_to_next_proposal_number :
    ℕ → RoundState → LatticeAgreement → Option LatticeAgreement
move_to_next_proposal_number round state la =
    broadcast_proposals (proposal_of round (next_proposal state))
      (put la round (next_proposal state))

unfoldable pub check_ack_nack_conditions :
    ℕ → RoundState → LatticeAgreement → Option LatticeAgreement
check_ack_nack_conditions round state la =
    if leb (majority la) state.acks
    then some (decide round state la)
    else if ltb 0 state.nacks && leb (majority la) ((state.acks + state.nacks) % 2 ^ 32)
    then move_to_next_proposal_number round state la
    else some (put la round state)

abbrev pub count_ack : RoundState → RoundState
count_ack state = record state { acks = (state.acks + 1) % 2 ^ 32 }

abbrev pub count_nack : RoundState → List ℕ → RoundState
count_nack state value = record state {
  nacks = (state.nacks + 1) % 2 ^ 32;
  proposed_value = vector_set_union state.proposed_value value;
}

-- The answers to earlier proposals, and those to a round that is decided, are dropped.
unfoldable pub answered :
    ℕ → RoundState → Accept → RoundState → LatticeAgreement → Option LatticeAgreement
answered round state accept state' la =
    if state.completed
    then some la
    else if eqb state.active_proposal_number accept.proposal_number
    then check_ack_nack_conditions round state' la
    else some la

unfoldable pub handle_ack : ℕ → Accept → LatticeAgreement → Option LatticeAgreement
handle_ack round accept la = do
  (state, all) ← get_round_state round la.round_states
  answered round state accept (count_ack state) (record la { round_states = all })

unfoldable pub handle_nack : ℕ → Accept → LatticeAgreement → Option LatticeAgreement
handle_nack round accept la = do
  (state, all) ← get_round_state round la.round_states
  answered round state accept (count_nack state accept.accepted_value)
      (record la { round_states = all })

-- A status that is neither is passed over.
unfoldable pub handle_accept : ℕ → Accept → LatticeAgreement → Option LatticeAgreement
handle_accept round accept la =
    if eqb accept.status ack
    then handle_ack round accept la
    else if eqb accept.status nack
    then handle_nack round accept la
    else some la

-- The loop of `HandleAcceptMessage`, over consecutive rounds.
unfoldable pub handle_accepts : ℕ → List Accept → LatticeAgreement → Option LatticeAgreement
handle_accepts round [] la = some la
handle_accepts round (accept ∷ accepts) la = do
  la' ← handle_accept round accept la
  handle_accepts ((round + 1) % 2 ^ 32) accepts la'

unfoldable pub handle_accept_message : AcceptMessage → LatticeAgreement → Option LatticeAgreement
handle_accept_message message la = handle_accepts message.first_round_id message.accepts la
