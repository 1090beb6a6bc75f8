-- ===== src/Recovery/Outcomes.antt =====
-- What `RecoveryExecutor.execute` returns, whatever the decision.
use crucible_ai.Pipeline.Runtime.{Runtime}
