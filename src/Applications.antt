-- ===== src/Applications.antt =====
-- include/applications: what the applications broadcast, propose and write to their logs.
pub mod DecisionLog
pub mod Waiting
pub mod Batching
pub mod Message
pub mod Fifo
pub mod PerfectLinks
pub mod Proposing
mod Tests
