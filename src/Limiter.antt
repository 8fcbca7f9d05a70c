-- ===== src/Limiter.antt =====
-- internal/limiter: the collector's own load limits.
pub mod Rate
pub mod Admit
pub mod Slots
pub mod Caps
pub mod Looks
pub mod GeoBlock
mod Examples
