-- ===== src/Proxy.antt =====
-- pkg/proxy/proxy.go: the forwarding of a request, the service that forwards to the backends of a
-- balancer, the one that SimpleProxyService makes, and the type ProxyHTTP, a module each.
pub mod Forwarding
pub mod Service
pub mod Simple
pub mod Filters
