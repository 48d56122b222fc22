-- ===== src/Limits.antt =====
-- pkg/limits/limiter.go: the rate limiters, a module each.
pub mod TokenBucket
pub mod SlidingWindow
pub mod FixedWindow
pub mod Concurrency
pub mod Multi
