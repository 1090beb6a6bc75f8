-- ===== src/Recovery/Rerun.antt =====
-- `_execute_rerun` of app/engine/core/recovery/executor.py.
use crucible_ai.Prelude.{
  Bool, List, Option, String, [], false, get_or, if◌then◌else◌, is_eq_some, is_some, none, or_else,
  some, suc, true, zero, ℕ, ◌||◌, ◌∷◌,
}
use crucible_ai.Pipeline.Model.{NodeStatus, NodeExecution}
use crucible_ai.Pipeline.Runtime.{
  Exception, ok, raise, Node, Runtime, State, Exec, pure, throw, foreign, ◌>>=◌, ◌>>◌, read_clock,
  Result,
}
use crucible_ai.Pipeline.Steps.{truthy, describe}
use crucible_ai.Recovery.Decision.{RecoveryDecision}
use crucible_ai.Recovery.Validator.{validate_node_execution}
use crucible_ai.Recovery.Report.{
  recovery_rerun_started, recovery_validation_started, recovery_validation_failed,
  recovery_validation_passed, RecoveryResult, RecoveryState, not_runnable, lift, emit,
  failed_result, report, target_or, recovery_failed, recovery_completed, RecoveryStatus,
}
use crucible_ai.Recovery.Actions.{load_and_validate_checkpoint, restored}

module _ {V W : Type 0} where
  -- `_run_node`
  unfoldable pub rerun_node : Node V W → V → Exec (State V W) V
  rerun_node node context = elim node.run [
    | some run ↦ foreign (run context)
    | none ↦ elim node.call [ some call ↦ foreign (call context) | none ↦ throw not_runnable ]
  ]

  -- `_node_id`
  unfoldable pub rerun_node_id : Node V W → String
  rerun_node_id node = get_or (truthy node.node_id) (get_or (truthy node.name) node.class_name)

-- How the attempts at one node end: with its output, or with a result to return at once.
pub data Outcome (V : Type 0) : Type 0 where
  accepted : V → Outcome V
  halted : RecoveryResult → Outcome V

-- How the loop over the nodes ends: a result returned from inside, or whether the target was found
-- and the first node rerun.
pub data Walk : Type 0 where
  ended : RecoveryResult → Walk
  walked : Bool → Option String → Walk

module _ {V W : Type 0} (rt : Runtime V W) where
  -- `_make_node_exec`
  unfoldable pub make_node_exec : String → String → V → Exec (State V W) NodeExecution
  make_node_exec execution_id node_id result = do
    output_metadata ← describe rt result
    now ← read_clock rt
    pure (record {
      execution_id = execution_id;
      node_id = node_id;
      status = NodeStatus.success;
      started_at = now;
      finished_at = some now;
      input_metadata = [];
      output_metadata = output_metadata;
      error_type = none;
      error_message = none;
      checkpoint_id = none;
    })

  -- The validation gate after a rerun.
  unfoldable pub gate :
      RecoveryDecision → String → V → NodeExecution → Exec (RecoveryState V W) (Outcome V)
  unfolding emit report failed_result
  gate d node_id result n s =
      if (validate_node_execution n none).passed
      then (do emit node_id recovery_validation_passed; pure (accepted result)) s
      else (do emit node_id recovery_validation_failed; r ← failed_result d; pure (halted r)) s

  -- After `_run_node` has returned: what raises here finds `context = result`.
  unfoldable pub examine : RecoveryDecision → String → V → Exec (RecoveryState V W) (Outcome V)
  unfolding gate make_node_exec emit
  examine d node_id result = do
    n ← lift (make_node_exec d.execution_id node_id result)
    emit node_id recovery_validation_started
    gate d node_id result n

  -- One `try`: the context that it leaves, and how it ended.
  unfoldable pub try_rerun :
      RecoveryDecision
      → String
      → V
      → Result V × RecoveryState V W
      → (V × Result (Outcome V)) × RecoveryState V W
  unfolding examine
  try_rerun d node_id context (raise e, s) = ((context, raise e), s)
  try_rerun d node_id context (ok result, s) =
      let (o, t) = examine d node_id result s in ((result, o), t)

  -- The end of a `try`: out of the loop, or past the `except` to the next attempt.
  unfoldable pub after_try :
      String
      → (V → Exception → Exec (RecoveryState V W) (Outcome V))
      → (V × Result (Outcome V)) × RecoveryState V W
      → Result (Outcome V) × RecoveryState V W
  unfolding emit
  after_try node_id next ((context, ok o), s) = (ok o, s)
  after_try node_id next ((context, raise e), s) =
      (do emit node_id recovery_failed; next context e) s

  -- `while attempt < self.max_attempts`, with the attempts left and the last exception.
  unfoldable pub attempts :
      RecoveryDecision → Node V W → ℕ → V → Option Exception → Exec (RecoveryState V W) (Outcome V)
  unfolding after_try try_rerun emit failed_result
  attempts d node zero context none = pure (accepted context)
  attempts d node zero context (some e) = do r ← failed_result d; pure (halted r)
  attempts d node (suc n) context last = do
    emit (rerun_node_id node) recovery_rerun_started
    λ s.
        after_try (rerun_node_id node) (λ c e. attempts d node n c (some e))
          (try_rerun d (rerun_node_id node) context (lift (rerun_node node context) s))

  -- What follows a node: the next one on the new context, or the result that was returned.
  unfoldable pub advance :
      (V → Exec (RecoveryState V W) Walk) → Outcome V → Exec (RecoveryState V W) Walk
  advance next (accepted context) = next context
  advance next (halted r) = pure (ended r)

  -- `for node in node_list`, from a found flag, a context and the first node rerun.
  unfoldable pub rerun_nodes :
      RecoveryDecision
      → ℕ
      → List (Node V W)
      → Bool
      → V
      → Option String
      → Exec (RecoveryState V W) Walk
  unfolding attempts advance
  rerun_nodes d max_attempts [] found context first = pure (walked found first)
  rerun_nodes d max_attempts (node ∷ rest) found context first =
      let skip = rerun_nodes d max_attempts rest false context first in
      let next = λ (c : V).
        rerun_nodes d max_attempts rest true c
          (or_else (truthy first) (some (rerun_node_id node))) in
      if found || is_eq_some (rerun_node_id node) d.target_node
      then (do o ← attempts d node max_attempts context none; advance next o)
      else skip

  -- Step 1 of `_execute_rerun`: the checkpoint's artifact, or None.
  unfoldable pub upstream_context : Option String → Exec (RecoveryState V W) V
  unfolding load_and_validate_checkpoint restored
  upstream_context none = pure rt.none_value
  upstream_context (some checkpoint_id) = do
    load_and_validate_checkpoint checkpoint_id
    restored rt checkpoint_id

  unfoldable pub finish_rerun : RecoveryDecision → Walk → Exec (RecoveryState V W) RecoveryResult
  unfolding emit report failed_result
  finish_rerun d (ended r) = pure r
  finish_rerun d (walked false first) = failed_result d
  finish_rerun d (walked true first) = do
    emit (target_or "unknown" d) recovery_completed
    report d RecoveryStatus.success true d.checkpoint_id first (is_some d.checkpoint_id) true

  -- Step 2, over the nodes that were supplied.
  unfoldable pub rerun_supplied :
      RecoveryDecision → ℕ → V → Option (List (Node V W)) → Exec (RecoveryState V W) RecoveryResult
  unfolding rerun_nodes finish_rerun failed_result
  rerun_supplied d max_attempts context none = failed_result d
  rerun_supplied d max_attempts context (some nodes) = do
    walk ← rerun_nodes d max_attempts nodes false context none
    finish_rerun d walk

  -- `_execute_rerun`
  unfoldable pub execute_rerun :
      RecoveryDecision → ℕ → Option (List (Node V W)) → Exec (RecoveryState V W) RecoveryResult
  unfolding upstream_context rerun_supplied emit
  execute_rerun d max_attempts nodes = do
    context ← upstream_context d.checkpoint_id
    emit (target_or "unknown" d) recovery_rerun_started
    rerun_supplied d max_attempts context nodes
