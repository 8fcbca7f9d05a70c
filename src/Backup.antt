-- ===== src/Backup.antt =====
-- internal/backup: what a backup holds, and the queue of requests for one.
pub mod Sets
pub mod Queue
mod Examples
