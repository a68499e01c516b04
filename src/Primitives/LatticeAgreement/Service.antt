-- ===== src/Primitives/LatticeAgreement/Service.antt =====
-- include/primitives/lattice_agreement.hpp: `GetReliableTransportCallback`, which dispatches the
-- messages that arrive.
use broadcast_service.Base.{ℕ, Option, some, ◌>>=◌, if◌then◌else◌, eqb}
use broadcast_service.Transport.Bytes.{Bytes}
use broadcast_service.Primitives.LatticeAgreement.LaMessage
use broadcast_service.Primitives.LatticeAgreement.ProposalMessage
use broadcast_service.Primitives.LatticeAgreement.AcceptMessage
use broadcast_service.Primitives.LatticeAgreement.DecideMessage
use broadcast_service.Primitives.LatticeAgreement.State.{LatticeAgreement}
use broadcast_service.Primitives.LatticeAgreement.Acceptor.{handle_proposal_message}
use broadcast_service.Primitives.LatticeAgreement.Proposer.{handle_accept_message}

-- A decision is read and dropped; a type that is none of the three is logged.
unfoldable pub on_message : ℕ → Bytes → LatticeAgreement → Option LatticeAgreement
on_message peer bytes la = do
  la_message ← LaMessage.unmarshal bytes
  if eqb la_message.type LaMessage.proposal
      then (do
        message ← ProposalMessage.unmarshal la_message.message
        handle_proposal_message peer message la)
      else if eqb la_message.type LaMessage.accept
      then (do
        message ← AcceptMessage.unmarshal la_message.message
        handle_accept_message message la)
      else if eqb la_message.type LaMessage.decide
      then (do message ← DecideMessage.unmarshal la_message.message; some la)
      else some la
