-- ===== src/Concurrency.antt =====
-- include/concurrency: the containers that threads share. Each operation holds its lock throughout, so
-- it is one step on the contents.
pub mod MrmwMap
pub mod MrmwSet
pub mod Budget
pub mod TaskQueue
pub mod Futures
pub mod Strand
pub mod FiberSync
pub mod Queue
pub mod ThreadPool
mod Tests
