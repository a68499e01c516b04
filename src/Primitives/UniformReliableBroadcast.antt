-- ===== src/Primitives/UniformReliableBroadcast.antt =====
-- include/primitives/uniform_reliable_broadcast.hpp: the message, the state, and the handler.
pub mod UrbMessage
pub mod State
pub mod Handler
mod Tests
