-- ===== src/Primitives.antt =====
-- include/primitives: the broadcast and agreement protocols.
pub mod BestEffortBroadcast
pub mod UniformReliableBroadcast
pub mod FifoBroadcast
pub mod LatticeAgreement
