-- ===== src/Dump/Tls.antt =====
-- pqcdump/src/tls.rs: the hello messages of TLS.
pub mod ClientHello
pub mod ServerHello
pub mod Hosts
pub mod Tests
