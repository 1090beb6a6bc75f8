-- ===== src/Security.antt =====
-- The response to a failed integrity check and the audit log of it: app/engine/core/security.
pub mod Events
pub mod Audit
pub mod Replay
pub mod Policy
pub mod Manager
mod Grounds
mod Audited
pub mod Response
pub mod Torn
pub mod Selection
mod Examples
