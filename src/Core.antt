-- ===== src/Core.antt =====
-- automation_file/core: the resilience helpers and the executors.
pub mod CircuitBreaker
pub mod RateLimiter
pub mod Quota
pub mod Retry
pub mod ActionQueue
