-- ===== src/Util.antt =====
-- include/util: sets as vectors, dictionaries, and rate limiters.
pub mod SetOperation
pub mod Dict
pub mod HashSet
pub mod IntrusiveList
pub mod RateLimit
pub mod Result
mod Tests
