-- ===== src/Dump/Ssh.antt =====
-- pqcdump/src/ssh.rs: the SSH key exchange messages and the sessions that they make up. The parser is in
-- `Kexinit`, the session table in `Sessions`.
pub mod Kexinit
pub mod Sessions
pub mod Sets
pub mod Tests
