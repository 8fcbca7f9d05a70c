-- ===== src/Panel.antt =====
-- internal/panel: who may do what on a site, and the writes that change it.
pub mod Roles
pub mod Members
pub mod Attempts
pub mod Invites
pub mod Recovery
