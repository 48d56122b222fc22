-- ===== src/Tls.antt =====
-- pkg/tls/tls.go: the settings of TLS and the manager of certificates. What crypto/tls, crypto/x509
-- and the files bring is an argument; a certificate and a pool are the numbers that name them.
pub mod Settings
pub mod Certificates
pub mod Client
