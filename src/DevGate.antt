-- ===== src/DevGate.antt =====
-- internal/devgate: the second password in front of the settings that carry legal weight.
pub mod Gate
pub mod Bounds
pub mod Grants
pub mod Earned
mod Examples
