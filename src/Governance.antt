-- ===== src/Governance.antt =====
-- Response plans and their lifecycle: app/api/core/decision_store.py.
pub mod Lifecycle
pub mod Store
pub mod Plans
pub mod Creation
pub mod Edges
pub mod Effects
pub mod Approvals
pub mod Histories
pub mod Service
pub mod Examples
