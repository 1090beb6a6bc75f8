-- ===== src/Repair.antt =====
-- Diagnosis and repair: app/engine/core/analysis/root_cause.py and app/engine/core/repair (planner.py
-- and sandbox.py).
pub mod RootCause
pub mod Planner
pub mod Sandbox
pub mod Ranking
pub mod Plans
pub mod Runs
pub mod Examples
