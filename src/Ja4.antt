-- ===== src/Ja4.antt =====
-- internal/ja4.
pub mod Cursor
pub mod Hello
pub mod Records
pub mod Fingerprint
mod Examples
