-- ===== src/Timers.antt =====
-- include/io/timer.hpp, include/io/timer_service.hpp and src/io/timer_service.cpp, and the timers of
-- include/io/transport/backoff_retry.hpp.
pub mod TimerService
pub mod BackoffRetry
mod Tests
