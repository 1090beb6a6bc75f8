-- ===== src/Fault/Model.antt =====
-- app/engine/core/fault/models.py. Confidences are percentages. The human-readable `message` and
-- `reasoning` texts, the free-text evidence of a localization and the timestamp are left out: no
-- code of the repository reads them back.
use crucible_ai.Prelude.{Bool, Option, String, ℕ}

pub data FaultSeverity : Type 0 where
  low medium high critical : FaultSeverity

pub data FaultType : Type 0 where
  validation_error schema_mismatch missing_artifact corrupted_artifact : FaultType
  dependency_failure execution_error timeout resource_error unknown : FaultType

-- The keys of the evidence dictionary that later stages read; an absent key reads as "".
pub record Evidence : Type 0 where
  pub error_type : String
  pub error_message : String

pub record FaultReport : Type 0 where
  pub execution_id : String
  pub detected : Bool
  pub observed_node : Option String
  pub fault_type : FaultType
  pub severity : FaultSeverity
  pub evidence : Evidence

pub record FaultLocalization : Type 0 where
  pub execution_id : String
  pub observed_node : Option String
  pub probable_root_node : Option String
  pub confidence : ℕ
