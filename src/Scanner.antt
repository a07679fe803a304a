-- ===== src/Scanner.antt =====
-- The active scanner, pqcscan/src.
pub mod Hello
pub mod Target
pub mod Runner
pub mod Net
pub mod Ssh
pub mod Tls
pub mod Csv
pub mod Report
pub mod Tests
pub mod Xml
pub mod Main
