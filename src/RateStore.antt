-- ===== src/RateStore.antt =====
-- internal/ratestore.
pub mod Window
pub mod History
pub mod Store
pub mod Requests
pub mod Sweeps
mod Examples
