-- ===== src/Pipeline.antt =====
-- The pipeline package: app/engine/core/pipeline (status.py, executor.py and
-- checkpoints/manager.py). The data model is in Model, Python's objects and the outside world are
-- in Runtime, the two classes in Checkpoints and Executor, and the proofs below those.
pub mod Model
pub mod Runtime
pub mod Checkpoints
pub mod Steps
pub mod Executor
pub mod Frame
pub mod Traces
pub mod Coverage
pub mod Runs
pub mod Totality
pub mod Examples
