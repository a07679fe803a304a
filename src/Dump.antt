-- ===== src/Dump.antt =====
-- The passive analyser, pqcdump/src.
pub mod Tcp
pub mod Packet
pub mod Ssh
pub mod Tls
pub mod Capture
pub mod Algorithms
pub mod Report
pub mod UniqueFile
pub mod Analysis
pub mod ReportFile
