-- ===== src/Primitives/LatticeAgreement/Tests.antt =====
-- Lattice agreement at process 1 of a network of three.
use broadcast_service.Base.{
  ◌≡◌, refl, [], ◌∷◌, none, some, arith, contains, length, Distinct, nat_eq,
}
use broadcast_service.Transport.Bytes.{Bytes}
use broadcast_service.Util.SetOperation.{vector_set_union, push_missing}
use broadcast_service.Primitives.LatticeAgreement.LaMessage
use broadcast_service.Primitives.LatticeAgreement.LaMessage.{LaMessage}
use broadcast_service.Primitives.LatticeAgreement.LaMessage.RoundTrip.{}
use broadcast_service.Primitives.LatticeAgreement.ProposalMessage
use broadcast_service.Primitives.LatticeAgreement.ProposalMessage.{Proposal, ProposalMessage}
use broadcast_service.Primitives.LatticeAgreement.ProposalMessage.RoundTrip.{
  Fits, proposal_message_round_trip,
}
use broadcast_service.Primitives.LatticeAgreement.AcceptMessage
use broadcast_service.Primitives.LatticeAgreement.AcceptMessage.{Accept, AcceptMessage, ack, nack}
use broadcast_service.Primitives.LatticeAgreement.AcceptMessage.RoundTrip.{
  accept_message_round_trip,
}
use broadcast_service.Primitives.LatticeAgreement.DecideMessage.{}
use broadcast_service.Primitives.LatticeAgreement.DecideMessage.RoundTrip.{}
use broadcast_service.Primitives.LatticeAgreement.State.{
  RoundState, LatticeAgreement, new_round, majority,
}
use broadcast_service.Primitives.LatticeAgreement.State.Rounds.{round_of, Effect}
use broadcast_service.Primitives.LatticeAgreement.Acceptor.{answer, handle_propose}
use broadcast_service.Primitives.LatticeAgreement.Acceptor.Answers.{Answers, answer-Answers}
use broadcast_service.Primitives.LatticeAgreement.Acceptor.Refinement.{handle_propose-Effect}
use broadcast_service.Primitives.LatticeAgreement.Proposer.{handle_accept}
use broadcast_service.Primitives.LatticeAgreement.Proposer.React.{react}
use broadcast_service.Primitives.LatticeAgreement.Proposer.Refinement.{Reacts, handle_accept-Reacts}

-- A round in which `2` and `3` are proposed, `3` and `4` accepted and one nack counted.
abbrev round_state : RoundState
round_state = record (new_round (2 ∷ 3 ∷ []) none) { accepted_value = 3 ∷ 4 ∷ []; nacks = 1 }

abbrev la : LatticeAgreement
la = record {
  local_id = 1;
  network_size = 3;
  peers = 2 ∷ 3 ∷ [];
  round_states = round_state ∷ [];
  sent = [];
  decided = [];
}

abbrev smaller : Proposal
smaller = record { proposed_value = 4 ∷ 5 ∷ []; active_proposal_number = 1 }

abbrev refusal : Accept
refusal = record { status = nack; proposal_number = 0; accepted_value = 6 ∷ 2 ∷ [] }

accepted-Distinct : Distinct round_state.accepted_value
unfolding contains
accepted-Distinct = (refl, (refl, tt))

proposed-Distinct : Distinct smaller.proposed_value
unfolding contains
proposed-Distinct = (refl, (refl, tt))

answer-Answers_example :
    Answers round_state smaller (answer round_state smaller).0 (answer round_state smaller).1
answer-Answers_example = answer-Answers round_state smaller accepted-Distinct proposed-Distinct

-- The union is larger than the proposal.
answer_union : (answer round_state smaller).0.accepted_value ≡ 3 ∷ 4 ∷ 5 ∷ []
unfolding answer vector_set_union push_missing contains
answer_union = refl

handle_propose-Effect_example :
    (la' : LatticeAgreement) × (handle_propose 2 smaller la
      ≡ some ((answer (round_of la.round_states 2) smaller).1, la'))
    × Effect la 2 (answer (round_of la.round_states 2) smaller).0 [] [] la'
handle_propose-Effect_example = handle_propose-Effect 2 smaller la

handle_accept-Reacts_example :
    (la' : LatticeAgreement) × (handle_accept 0 refusal la ≡ some la')
    × Reacts la 0 (react (majority la) 0 (round_of la.round_states 0) refusal) la'
handle_accept-Reacts_example = handle_accept-Reacts 0 refusal la

abbrev envelope : LaMessage
envelope = record { type = LaMessage.decide; message = 1 ∷ 2 ∷ [] }

abbrev proposals : ProposalMessage
proposals = record {
  first_round_id = 4;
  proposals = smaller ∷ record { proposed_value = []; active_proposal_number = 0 } ∷ [];
}

proposals_fit : Fits proposals
proposals_fit = record {
  round = omega arith;
  few = omega arith;
  proposals = (
    record { few = omega arith; values = ground arith; number = omega arith },
    (record { few = omega arith; values = tt; number = omega arith }, tt),
  );
}

proposal_message_round_trip_example :
    (buffer : Bytes) × (ProposalMessage.to_bytes proposals ≡ some buffer)
    × (length buffer ≡ ProposalMessage.size proposals)
    × (ProposalMessage.unmarshal buffer ≡ some proposals)
proposal_message_round_trip_example = proposal_message_round_trip proposals proposals_fit

abbrev accepts : AcceptMessage
accepts = record {
  first_round_id = 4;
  accepts = refusal ∷ record { status = ack; proposal_number = 1; accepted_value = [] } ∷ [];
}

accepts_fit : AcceptMessage.RoundTrip.Fits accepts
accepts_fit = record {
  round = omega arith;
  few = omega arith;
  accepts = (
    record {
      status = omega arith;
      few = omega arith;
      values = ground arith;
      number = omega arith;
      no_value = λ h. ground arith;
    },
    (
      record {
        status = omega arith;
        few = omega arith;
        values = tt;
        number = omega arith;
        no_value = λ h. refl;
      },
      tt,
    ),
  );
}
