-- ===== src/Repair/Sandbox.antt =====
-- app/engine/core/repair/sandbox.py, with the `InProcessBackend`. A handler is code that the
-- application registers; of its reply the truth of two keys is read.
use crucible_ai.Prelude.{
  Bool, List, Option, String, [], false, get_or, if◌then◌else◌, ltb, none, not, some, suc, true, ℕ,
  ◌&&◌, ◌++◌, ◌∷◌,
}
use crucible_ai.Pipeline.Runtime.{Result, ok, raise, Act}
use crucible_ai.Repair.RootCause.{HypothesisCategory}
use crucible_ai.Repair.Planner.{RepairActionType, RepairStep, RepairPlan}

pub data SandboxStatus : Type 0 where
  success failed partial skipped pending : SandboxStatus

-- The dictionary that a handler returns; a key that is absent is `none`.
pub record Reply : Type 0 where
  pub success : Option Bool
  pub validation_passed : Option Bool

-- `_handlers`
abbrev pub Handlers : Type 0 → Type 0 → Type 0
Handlers V W = RepairActionType → Option (RepairStep → V → Act W Reply)

pub record StepExecutionRecord : Type 0 where
  pub step_index : ℕ
  pub action_type : RepairActionType
  pub target_node : Option String
  pub status : SandboxStatus
  pub validation_passed : Bool

pub record SandboxResult : Type 0 where
  pub execution_id : String
  pub plan_category : HypothesisCategory
  pub status : SandboxStatus
  pub success : Bool
  pub steps_executed : List StepExecutionRecord
  pub steps_succeeded : ℕ
  pub steps_failed : ℕ

abbrev pub step_record : RepairStep → SandboxStatus → Bool → StepExecutionRecord
step_record step status validation = record {
  step_index = step.step_index;
  action_type = step.action_type;
  target_node = step.target_node;
  status = status;
  validation_passed = validation;
}

-- What a reply makes of a step; a handler that raises fails it.
unfoldable pub judge : RepairStep → Result Reply → StepExecutionRecord
judge step (raise e) = step_record step SandboxStatus.failed false
judge step (ok reply) =
    let done = get_or reply.success false in
    let valid = get_or reply.validation_passed done in
    if step.requires_validation && not valid
    then step_record step SandboxStatus.failed false
    else step_record step (if done then SandboxStatus.success else SandboxStatus.failed) valid

unfoldable pub halted_result : RepairPlan → ℕ → List StepExecutionRecord → SandboxResult
halted_result plan succeeded records = record {
  execution_id = plan.execution_id;
  plan_category = plan.hypothesis_category;
  status = if ltb 0 succeeded then SandboxStatus.partial else SandboxStatus.failed;
  success = false;
  steps_executed = records;
  steps_succeeded = succeeded;
  steps_failed = 1;
}

unfoldable pub completed_result : RepairPlan → ℕ → List StepExecutionRecord → SandboxResult
completed_result plan succeeded records = record {
  execution_id = plan.execution_id;
  plan_category = plan.hypothesis_category;
  status = SandboxStatus.success;
  success = true;
  steps_executed = records;
  steps_succeeded = succeeded;
  steps_failed = 0;
}

abbrev pub is_step_failed : SandboxStatus → Bool
is_step_failed SandboxStatus.failed = true
is_step_failed _ = false

abbrev pub is_step_success : SandboxStatus → Bool
is_step_success SandboxStatus.success = true
is_step_success _ = false

module _ {V W : Type 0} (handlers : Handlers V W) (context : V) where
  -- `_execute_step`
  unfoldable pub execute_step : RepairStep → W → StepExecutionRecord × W
  unfolding judge
  execute_step step w = elim (handlers step.action_type) [
    | none ↦ (step_record step SandboxStatus.skipped false, w)
    | some handler ↦ (let (reply, after) = handler step context w in (judge step reply, after))
  ]

  -- `for step in plan.steps`, from the number of successes and the records so far
  unfoldable pub run_steps :
      RepairPlan → List RepairStep → ℕ → List StepExecutionRecord → W → SandboxResult × W
  unfolding execute_step halted_result completed_result
  run_steps plan [] succeeded records w = (completed_result plan succeeded records, w)
  run_steps plan (step ∷ rest) succeeded records w =
      let (r, after) = execute_step step w in
      let all = records ++ r ∷ [] in
      let count = if is_step_success r.status then suc succeeded else succeeded in
      let continued = run_steps plan rest count all after in
      if is_step_failed r.status then (halted_result plan succeeded all, after) else continued

  -- `execute_plan`
  unfoldable pub execute_plan : RepairPlan → W → SandboxResult × W
  unfolding run_steps
  execute_plan plan w = run_steps plan plan.steps 0 [] w
