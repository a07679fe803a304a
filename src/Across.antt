-- ===== src/Across.antt =====
-- The two programs against each other: the analyser reads what the scanner sends.
pub mod Hello
pub mod Kexinit
pub mod Tests
