-- ===== src/SelfHealing.antt =====
-- app/engine/core/self_healing.
pub mod Model
pub mod Fallback
pub mod Repairing
pub mod Orchestrator
pub mod Performed
pub mod Results
pub mod Gates
pub mod Unhandled
mod Examples
