-- ===== src/Scanner/Tls.antt =====
-- The scan of a TLS server: pqcscan/src/tls.rs behind the message that it sends (`Hello`), and the
-- names of the alerts in pqcscan/src/tlsconstants.rs.
pub mod Alerts
pub mod Response
pub mod Scan
pub mod Tests
