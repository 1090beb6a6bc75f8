-- ===== src/Recovery.antt =====
-- The recovery package: app/engine/core/recovery (decision.py, validator.py, models.py, executor.py).
pub mod Decision
pub mod Validator
pub mod Report
pub mod Actions
pub mod Rerun
pub mod Executor
pub mod Policy
pub mod Results
pub mod Walks
pub mod Outcomes
pub mod Gate
pub mod Resume
pub mod Rollback
pub mod Examples
