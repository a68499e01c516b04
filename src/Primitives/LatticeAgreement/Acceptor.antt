-- ===== src/Primitives/LatticeAgreement/Acceptor.antt =====
-- include/primitives/lattice_agreement.hpp: the acceptor's side, `HandlePropose` and
-- `HandleProposalMessage`, and `HandleDecideMessage`, which nothing calls.
pub mod Answers
pub mod Refinement
use broadcast_service.Base.{
  ℕ, ◌+◌, ◌%◌, ◌^◌, List, [], ◌∷◌, ◌++◌, Option, none, some, ◌>>=◌, length, if◌then◌else◌, eqb,
  nat_eq,
}
use broadcast_service.Util.SetOperation.{vector_set_union}
use broadcast_service.Primitives.LatticeAgreement.ProposalMessage
use broadcast_service.Primitives.LatticeAgreement.ProposalMessage.{Proposal, ProposalMessage}
use broadcast_service.Primitives.LatticeAgreement.AcceptMessage
use broadcast_service.Primitives.LatticeAgreement.AcceptMessage.{Accept, AcceptMessage, ack, nack}
use broadcast_service.Primitives.LatticeAgreement.LaMessage
use broadcast_service.Primitives.LatticeAgreement.LaMessage.{LaMessage}
use broadcast_service.Primitives.LatticeAgreement.DecideMessage.{DecideMessage}
use broadcast_service.Primitives.LatticeAgreement.State.{
  RoundState, LatticeAgreement, get_round_state, put,
}

abbrev acked : RoundState → Proposal → RoundState × Accept
acked state proposal = (
  record state { accepted_value = proposal.proposed_value },
  record { status = ack; proposal_number = proposal.active_proposal_number; accepted_value = [] },
)

abbrev nacked : RoundState → Proposal → List ℕ → RoundState × Accept
nacked state proposal union = (
  record state { accepted_value = union },
  record {
    status = nack;
    proposal_number = proposal.active_proposal_number;
    accepted_value = union;
  },
)

-- The body of `HandlePropose` on the state of the round.
unfoldable pub answer : RoundState → Proposal → RoundState × Accept
answer state proposal =
    let union = vector_set_union state.accepted_value proposal.proposed_value in
    if eqb (length union) (length proposal.proposed_value)
    then acked state proposal
    else nacked state proposal union

unfoldable pub handle_propose : ℕ → Proposal → LatticeAgreement → Option (Accept × LatticeAgreement)
handle_propose round proposal la = do
  (state, all) ← get_round_state round la.round_states
  let (state', accept) = answer state proposal
  some (accept, put (record la { round_states = all }) round state')

-- The loop of `HandleProposalMessage`, over consecutive rounds.
unfoldable pub handle_proposes :
    ℕ → List Proposal → LatticeAgreement → Option (List Accept × LatticeAgreement)
handle_proposes round [] la = some ([], la)
handle_proposes round (proposal ∷ proposals) la = do
  (accept, la') ← handle_propose round proposal la
  (accepts, la'') ← handle_proposes ((round + 1) % 2 ^ 32) proposals la'
  some (accept ∷ accepts, la'')

-- `WrapAcceptMessage`
unfoldable pub wrap_accept_message : AcceptMessage → Option LaMessage
wrap_accept_message input = do
  message ← AcceptMessage.to_bytes input
  some (record { type = LaMessage.accept; message = message })

unfoldable pub handle_proposal_message :
    ℕ → ProposalMessage → LatticeAgreement → Option LatticeAgreement
handle_proposal_message src message la = do
  (accepts, la') ← handle_proposes message.first_round_id message.proposals la
  la_message ←
      wrap_accept_message (record { first_round_id = message.first_round_id; accepts = accepts })
  buffer ← LaMessage.to_bytes la_message
  some (record la' { sent = la'.sent ++ (src, buffer) ∷ [] })

unfoldable pub count_decision : ℕ → RoundState → RoundState
count_decision network_size state =
    let decisions = (state.decisions + 1) % 2 ^ 32 in
    if eqb decisions network_size
    then record state { decisions = decisions; proposed_value = []; accepted_value = [] }
    else record state { decisions = decisions }

unfoldable pub handle_decide_message : DecideMessage → LatticeAgreement → Option LatticeAgreement
handle_decide_message message la = do
  (state, all) ← get_round_state message.round_id la.round_states
  some (
      put (record la { round_states = all }) message.round_id
        (count_decision la.network_size state))
