-- ===== src/Repair/Examples.antt =====
-- The theorems on diagnosis, plans and the sandbox at concrete data.
use crucible_ai.Fault.Detector.{detect}
use crucible_ai.Pipeline.Runtime.{ok}
use crucible_ai.Fault.Model.{FaultLocalization}
use crucible_ai.Repair.Sandbox.{Handlers}
use crucible_ai.Repair.Ranking.{IsBounded, IsRanked, Leads, analyze-IsRanked}
use crucible_ai.Pipeline.Model.{PipelineExecution}
use crucible_ai.Repair.RootCause.{
  RootCauseHypothesis, RootCauseReport, analyze, fault_to_hypothesis,
}
use crucible_ai.Samples.{failed_with}
use crucible_ai.Repair.Planner.{restore_checkpoint}
use crucible_ai.Prelude.{All, [], none, some, true, ℕ, ◌+◌}

abbrev divided : PipelineExecution
divided = failed_with "ZeroDivisionError" "division by zero"

abbrev located : FaultLocalization
located = record {
  execution_id = "run";
  observed_node = some "train";
  probable_root_node = some "load";
  confidence = 90;
}

abbrev diagnosis : RootCauseReport
diagnosis = analyze divided (detect divided) located []

-- The first step is carried out, any other raises.
abbrev handlers : Handlers ℕ ℕ
handlers restore_checkpoint =
    some (λ step context w. (ok (record { success = some true; validation_passed = none }), w + 1))
handlers _ = none

analyze-IsRanked_example :
    IsRanked diagnosis.hypotheses
    × All IsBounded diagnosis.hypotheses
    × ((h : RootCauseHypothesis) × Leads
          (fault_to_hypothesis (detect divided).fault_type)
          diagnosis
          h)
analyze-IsRanked_example = analyze-IsRanked divided (detect divided) located []
