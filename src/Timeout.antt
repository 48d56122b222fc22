-- ===== src/Timeout.antt =====
-- pkg/timeout/timeout.go: timers, groups of timers, deadlines, retries and the circuit breaker.
pub mod Timer
pub mod Group
pub mod Deadline
pub mod Retry
pub mod Circuit
