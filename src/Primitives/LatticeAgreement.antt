-- ===== src/Primitives/LatticeAgreement.antt =====
-- include/primitives/lattice_agreement.hpp: the messages, the state of the rounds, and the handlers.
pub mod LaMessage
pub mod ProposalMessage
pub mod AcceptMessage
pub mod DecideMessage
pub mod State
pub mod Acceptor
pub mod Proposer
pub mod Service
pub mod Consensus
mod Tests
