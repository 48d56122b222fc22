-- ===== src/Cache.antt =====
-- pkg/cache/cache.go: the in-memory cache, the interface, the tiered cache over any two caches, and
-- the cache that keeps nothing, and the keys of requests.
pub mod Memory
pub mod Contract
pub mod Tiered
pub mod NoOp
pub mod Keys
