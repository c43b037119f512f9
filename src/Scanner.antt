-- ===== src/Scanner.antt =====
-- The scanner of uploaded files: apps/api/src/scanner.
pub mod Clamav
