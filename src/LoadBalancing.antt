-- ===== src/LoadBalancing.antt =====
-- pkg/loadbalancing/balancer.go: the backends that the three balancers share, and the balancers, a
-- module each. A backend is mutated through pointers that only its balancer holds, so it lives in
-- the balancer's list.
pub mod Backends
pub mod Contract
pub mod RoundRobin
pub mod Random
pub mod LeastConnection
