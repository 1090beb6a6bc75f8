-- ===== src/Pipeline/Executor.antt =====
-- `PipelineExecutor.execute` of app/engine/core/pipeline/executor.py: its loop, node by node.
use crucible_ai.Prelude.{List, Option, String, [], none, some, ℕ, ◌++◌, ◌+◌, ◌∷◌}
use crucible_ai.Pipeline.Model.{
  NodeStatus, PipelineStatus, Metadata, NodeExecution, PipelineExecution, Checkpoint,
}
use crucible_ai.Pipeline.Runtime.{
  Exception, Result, ok, raise, Node, Runtime, State, Exec, pure, ◌>>=◌, ◌>>◌, read_clock,
  draw_uuid,
}
use crucible_ai.Pipeline.Checkpoints.{last_known_good}
use crucible_ai.Pipeline.Steps.{
  node_id_of, run_node, input_metadata_of, validate_node_output, output_metadata_of,
  create_checkpoint, update_context,
}

-- What is fixed for a node before its `try`.
pub record Ticket : Type 0 where
  pub execution_id : String
  pub node_execution_id : String
  pub node_id : String
  pub started_at : ℕ
  pub input_metadata : Metadata

unfoldable pub success_entry : Ticket → Metadata → String → ℕ → NodeExecution
success_entry k output checkpoint_id finished_at = record {
  execution_id = k.node_execution_id;
  node_id = k.node_id;
  status = NodeStatus.success;
  started_at = k.started_at;
  finished_at = some finished_at;
  input_metadata = k.input_metadata;
  output_metadata = output;
  error_type = none;
  error_message = none;
  checkpoint_id = some checkpoint_id;
}

unfoldable pub failed_entry : Ticket → Exception → ℕ → NodeExecution
failed_entry k e finished_at = record {
  execution_id = k.node_execution_id;
  node_id = k.node_id;
  status = NodeStatus.failed;
  started_at = k.started_at;
  finished_at = some finished_at;
  input_metadata = k.input_metadata;
  output_metadata = [];
  error_type = some e.type_name;
  error_message = some e.message;
  checkpoint_id = none;
}

module _ {V W : Type 0} (rt : Runtime V W) where
  -- The `try` up to `executions.append`: the result of the node and its entry.
  unfoldable pub accept : Ticket → Node V W → V → Exec (State V W) (V × NodeExecution)
  accept k node context = do
    result ← run_node node context
    output ← output_metadata_of rt result
    validate_node_output node result
    checkpoint ← create_checkpoint rt node k.execution_id result k.input_metadata output
    finished_at ← read_clock rt
    pure (result, success_entry k output checkpoint.checkpoint_id finished_at)

  -- The rest of the `try`: the entries appended so far, and the new context.
  unfoldable pub propagate :
      V → Result (V × NodeExecution) × State V W → (List NodeExecution × Result V) × State V W
  propagate context (raise e, s) = (([], raise e), s)
  propagate context (ok (result, entry), s) =
      let (c, t) = update_context rt context result s in ((entry ∷ [], c), t)

  -- The record of the run, appended to the history.
  unfoldable pub close :
      String → PipelineStatus → ℕ → List NodeExecution → Exec (State V W) PipelineExecution
  close execution_id status started_at nodes s =
      let e : PipelineExecution = record {
        execution_id = execution_id;
        status = status;
        nodes = nodes;
        started_at = started_at;
        finished_at = some (rt.now s.readings);
      } in
      (ok e, record s { readings = s.readings + 1; history = s.history ++ e ∷ [] })

  -- The `except` clause: a failed entry, and the run stops.
  unfoldable pub stop :
      Ticket → ℕ → List NodeExecution → Exception → Exec (State V W) PipelineExecution
  stop k started_at nodes e = do
    finished_at ← read_clock rt
    close k.execution_id PipelineStatus.failed started_at
        (nodes ++ failed_entry k e finished_at ∷ [])

  -- What follows a node: `next` on the new context, or the end of the run.
  unfoldable pub settle :
      Ticket
      → ℕ
      → List NodeExecution
      → (V → List NodeExecution → Exec (State V W) PipelineExecution)
      → (List NodeExecution × Result V) × State V W
      → Result PipelineExecution × State V W
  settle k started_at nodes next ((new, ok context), s) = next context (nodes ++ new) s
  settle k started_at nodes next ((new, raise e), s) = stop k started_at (nodes ++ new) e s

  -- What stands before the `try`.
  unfoldable pub prepare : String → Node V W → V → Exec (State V W) Ticket
  prepare execution_id node context = do
    node_execution_id ← draw_uuid rt
    started_at ← read_clock rt
    input_metadata ← input_metadata_of node context
    pure (record {
      execution_id = execution_id;
      node_execution_id = node_execution_id;
      node_id = node_id_of node;
      started_at = started_at;
      input_metadata = input_metadata;
    })

  -- `for node in nodes`
  unfoldable pub run_nodes :
      String → ℕ → List (Node V W) → V → List NodeExecution → Exec (State V W) PipelineExecution
  unfolding close prepare
  run_nodes execution_id started_at [] context nodes =
      close execution_id PipelineStatus.success started_at nodes
  run_nodes execution_id started_at (node ∷ rest) context nodes = do
    k ← prepare execution_id node context
    λ s.
        settle k started_at nodes (λ c new. run_nodes execution_id started_at rest c new)
          (propagate context (accept k node context s))

  -- `execute`
  unfoldable pub execute : List (Node V W) → V → Exec (State V W) PipelineExecution
  execute nodes context = do
    execution_id ← draw_uuid rt
    started_at ← read_clock rt
    run_nodes execution_id started_at nodes context []

-- `last_known_good_checkpoint`
unfoldable pub last_known_good_checkpoint : {V W : Type 0} → String → State V W → Option Checkpoint
last_known_good_checkpoint execution_id s = last_known_good (some execution_id) s.checkpoints
