-- ===== src/Scanner/Ssh.antt =====
-- pqcscan/src/ssh.rs: the scan of an SSH server, and in `Kexinit` the parser of its key exchange
-- message.
pub mod Kexinit
pub mod Scan
pub mod Tests
