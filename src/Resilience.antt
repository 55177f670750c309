-- ===== src/Resilience.antt =====
-- libs/go/resilience: the older rate limiters.
pub mod SlidingWindow
