-- ===== src/Http.antt =====
-- pkg/http/headers.go: request and response headers, the version of HTTP and the directives of a
-- Cache-Control header.
pub mod Headers
pub mod Request
pub mod Response
pub mod Version
pub mod CacheControl
