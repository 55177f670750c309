-- ===== src/Fault.antt =====
-- The resilience patterns of libs/go/src/fault.
pub mod Policy
pub mod Breaker
pub mod RateLimiter
pub mod Bulkhead
pub mod Retry
