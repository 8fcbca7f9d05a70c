-- ===== src/Restart.antt =====
-- internal/restartreq.
pub mod Watcher
pub mod Service
pub mod Loop
mod Examples
