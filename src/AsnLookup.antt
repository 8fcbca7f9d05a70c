-- ===== src/AsnLookup.antt =====
-- internal/asnlookup: the range tables and the result cache.
pub mod RangeTable
pub mod Cache
mod Examples
