-- ===== src/Ketama.antt =====
-- pkg/ketama/ketama.go: consistent hashing.
pub mod Sorting
pub mod Ring
pub mod Several
pub mod Balancer
pub mod Weighted
