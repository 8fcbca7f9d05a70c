-- ===== src/SchemaVer.antt =====
-- internal/schemaver: what the fingerprint of a schema is taken over.
pub mod Ddl
