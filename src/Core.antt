-- ===== src/Core.antt =====
-- pkg/core/server.go: the server with its services, and the peers that it can talk to.
pub mod Server
pub mod Peer
