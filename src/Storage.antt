-- ===== src/Storage.antt =====
-- internal/storage.
pub mod Rows
pub mod Pause
pub mod Flusher
pub mod Buckets
pub mod Rollup
mod Examples
