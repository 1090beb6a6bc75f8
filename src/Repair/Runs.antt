-- ===== src/Repair/Runs.antt =====
-- What a run of a plan in the sandbox records.
use crucible_ai.Prelude.{
  Bool, List, [], all, false, if◌then◌else◌, map, none, refl, suc, true, ℕ, ◌++◌, ◌∷◌, ◌≡◌, ◌⊎◌,
}
use crucible_ai.Repair.Planner.{RepairStep, RepairPlan, RepairActionType}
use crucible_ai.Repair.Sandbox.{
  SandboxStatus, SandboxResult, StepExecutionRecord, is_step_failed, is_step_success, Handlers,
  completed_result, execute_plan, execute_step, run_steps, step_record,
}

-- The number of records that pass a test of their status.
abbrev tally : (SandboxStatus → Bool) → List StepExecutionRecord → ℕ
tally p [] = 0
tally p (r ∷ rs) = if p r.status then suc (tally p rs) else tally p rs

abbrev step_indices : List RepairStep → List ℕ
step_indices steps = map (λ (s : RepairStep). s.step_index) steps

abbrev record_indices : List StepExecutionRecord → List ℕ
record_indices records = map (λ (r : StepExecutionRecord). r.step_index) records

module _ {V W : Type 0} (handlers : Handlers V W) (context : V) where
  -- The records of steps that are carried out one after the other, and the world that they leave.
  abbrev pub run_all : List RepairStep → W → List StepExecutionRecord × W
  run_all [] w = ([], w)
  run_all (s ∷ ss) w =
      let (r, after) = execute_step handlers context s w in
      let (rs, last) = run_all ss after in (r ∷ rs, last)

  -- The steps that were carried out are a prefix of the plan, and nothing else has acted on the world:
  -- a result counts their records, and succeeds where none failed, and then no step is left; else the
  -- last record is the one that failed.
  pub record IsFaithful (plan : RepairPlan) (w : W) (r : SandboxResult) (last : W) : Type 0 where
    pub done : List RepairStep
    pub rest : List RepairStep
    pub whole : plan.steps ≡ done ++ rest
    pub ran : run_all done w ≡ (r.steps_executed, last)
    pub prefix : step_indices plan.steps ≡ record_indices r.steps_executed ++ step_indices rest
    pub succeeded : r.steps_succeeded ≡ tally is_step_success r.steps_executed
    pub failures : r.steps_failed ≡ tally is_step_failed r.steps_executed
    pub verdict :
        ((r.success ≡ true) × (r.steps_failed ≡ 0) × (rest ≡ []))
        ⊎ ((r.success ≡ false)
            × (r.steps_failed ≡ 1)
            × (before : List StepExecutionRecord) × (x : StepExecutionRecord) × (r.steps_executed
                ≡ before ++ x ∷ [])
            × (is_step_failed x.status ≡ true))

  -- What holds of the records so far, with the steps that are done and left.
  record IsPartial (plan : RepairPlan) (start : W) (done left : List RepairStep) (n : ℕ)
      (rs : List StepExecutionRecord) (w : W) : Type 0 where
    indices : step_indices plan.steps ≡ record_indices rs ++ step_indices left
    successes : n ≡ tally is_step_success rs
    failures : tally is_step_failed rs ≡ 0
    whole : plan.steps ≡ done ++ left
    ran : run_all done start ≡ (rs, w)

  -- Where no handler is registered, every step is skipped, and the run is a success that has carried
  -- out no step and left the world as it was.
  run_steps_skipped :
      (plan : RepairPlan) (left : List RepairStep) (n : ℕ) (rs : List StepExecutionRecord) (w : W)
      → ((a : RepairActionType) → handlers a ≡ none)
      → (all : List StepExecutionRecord) × (run_steps handlers context plan left n rs w
          ≡ (completed_result plan n all, w))
  unfolding run_steps
  run_steps_skipped plan [] n rs w h = (rs, refl)
  run_steps_skipped plan (s ∷ left) n rs w h =
      let (all, e) =
        run_steps_skipped plan left n (rs ++ step_record s SandboxStatus.skipped false ∷ []) w h in
      (all, rw (h s.action_type, execute_step) e)

  pub execute_plan-unhandled :
      (plan : RepairPlan) (w : W)
      → ((a : RepairActionType) → handlers a ≡ none)
      → (all : List StepExecutionRecord) × (execute_plan handlers context plan w
          ≡ (completed_result plan 0 all, w))
  unfolding execute_plan
  execute_plan-unhandled plan w h = run_steps_skipped plan plan.steps 0 [] w h
