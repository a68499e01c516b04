-- ===== src/Primitives/LatticeAgreement/Proposer/React.antt =====
-- include/primitives/lattice_agreement.hpp: `HandleAck`, `HandleNack` and `CheckAckNackConditions` as
-- functions of the state of the round alone.
use broadcast_service.Base.{
  ℕ, ◌+◌, ◌%◌, ◌^◌, List, [], ◌∷◌, ◌++◌, map, true, ◌&&◌, ◌||◌, Option, none, some, if◌then◌else◌,
  eqb, leb, ltb,
}
use broadcast_service.Transport.Bytes.{Bytes}
use broadcast_service.Primitives.LatticeAgreement.ProposalMessage
use broadcast_service.Primitives.LatticeAgreement.ProposalMessage.{ProposalMessage}
use broadcast_service.Primitives.LatticeAgreement.AcceptMessage.{Accept, ack, nack}
use broadcast_service.Primitives.LatticeAgreement.LaMessage
use broadcast_service.Primitives.LatticeAgreement.State.{RoundState, LatticeAgreement}
use broadcast_service.Primitives.LatticeAgreement.State.Rounds.{}
use broadcast_service.Primitives.LatticeAgreement.Proposer.{
  count_ack, count_nack, next_proposal, proposal_of,
}

-- The new state of the round, the value decided, and the proposal that is broadcast.
pub record Reaction : Type 0 where
  pub state : RoundState
  pub decision : Option (List ℕ)
  pub offer : Option ProposalMessage

abbrev pub ignore : RoundState → Reaction
ignore s = record { state = s; decision = none; offer = none }

unfoldable pub conclude : ℕ → ℕ → RoundState → Reaction
conclude majority round s =
    if leb majority s.acks
    then record {
      state = record s { completed = true; fulfilled = true };
      decision = some s.proposed_value;
      offer = none;
    }
    else if ltb 0 s.nacks && leb majority ((s.acks + s.nacks) % 2 ^ 32)
    then record {
      state = next_proposal s;
      decision = none;
      offer = some (proposal_of round (next_proposal s));
    }
    else ignore s

unfoldable pub counted : RoundState → Accept → RoundState
counted s a = if eqb a.status ack then count_ack s else count_nack s a.accepted_value

unfoldable pub react : ℕ → ℕ → RoundState → Accept → Reaction
unfolding conclude counted
react majority round s a =
    if (eqb a.status ack || eqb a.status nack)
    then (if s.completed
        then ignore s
        else if eqb s.active_proposal_number a.proposal_number
        then conclude majority round (counted s a)
        else ignore s)
    else ignore s

-- The bytes of a broadcast proposal, to every peer and to this process.
abbrev pub broadcast_of : LatticeAgreement → Bytes → List (ℕ × Bytes)
broadcast_of la message = map (λ peer. (peer, message)) la.peers ++ (la.local_id, message) ∷ []

abbrev pub proposal_bytes : ProposalMessage → Bytes
proposal_bytes m =
    LaMessage.contents (record { type = LaMessage.proposal; message = ProposalMessage.contents m })

abbrev pub decision_of : ℕ → Option (List ℕ) → List (ℕ × List ℕ)
decision_of round none = []
decision_of round (some value) = (round, value) ∷ []

abbrev pub offer_of : LatticeAgreement → Option ProposalMessage → List (ℕ × Bytes)
offer_of la none = []
offer_of la (some m) = broadcast_of la (proposal_bytes m)
