-- ===== src/Integrity.antt =====
-- The integrity of artifacts: app/engine/core/integrity.
pub mod Checker
pub mod Tampering
pub mod Trust
mod Examples
