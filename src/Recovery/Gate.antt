-- ===== src/Recovery/Gate.antt =====
-- What the validation gate of a rerun checks, and what it does not.
use mathlib.Core.Path.{fun_ext}
use crucible_ai.Prelude.{
  Bool, List, Option, String, [], ap, arith, false, map, none, or_else, refl, some, suc, true, zero,
  ℕ, ◌∷◌, ◌≡◌,
}
use crucible_ai.Pipeline.Runtime.{
  Exception, Node, Runtime, State, Returns, Result, Returns-continue, ok, raise, Exec, continue,
}
use crucible_ai.Pipeline.Steps.{describe, attribute_entry, truthy}
use crucible_ai.Recovery.Decision.{RecoveryDecision, RecoveryActionType, rerun_from_node}
use crucible_ai.Recovery.Report.{
  RecoveryState, recovery_validation_started, lift, emit, RecoveryResult, recovery_rerun_started,
  target_or,
}
use crucible_ai.Recovery.Validator.{validate_node_execution}
use crucible_ai.Pipeline.Model.{NodeExecution}
use crucible_ai.Recovery.Executor.{Request, dispatch, execute}
use crucible_ai.Recovery.Rerun.{
  accepted, make_node_exec, examine, attempts, rerun_nodes, rerun_node, rerun_node_id, gate,
  execute_rerun, rerun_supplied, upstream_context,
}

module _ {V W : Type 0} (rt : Runtime V W) where
  -- The record that is built for a rerun node says that it succeeded, and never lacks metadata.
  abbrev Described : NodeExecution → State V W → Type 0
  Described n s = (validate_node_execution n none).passed ≡ true

  make_node_exec-passes :
      (eid id : String) (x : V) (s : State V W) → Returns Described (make_node_exec rt eid id x s)
  unfolding make_node_exec describe attribute_entry validate_node_execution
  make_node_exec-passes eid id x s = ground arith

  lifted :
      (m : Result NodeExecution × State V W) (s : RecoveryState V W)
      → Returns Described m
      → Returns (λ n (t : RecoveryState V W). Described n t.base) (m.0, record s { base = m.1 })
  lifted (ok n, t) s h = h
  lifted (raise e, t) s h = tt

  gate_accepts :
      (d : RecoveryDecision) (id : String) (x : V) (n : NodeExecution) (s : RecoveryState V W)
      → (validate_node_execution n none).passed ≡ true
      → Returns (λ o t. o ≡ accepted x) (gate rt d id x n s)
  unfolding gate
  gate_accepts d id x n s h = rw h refl

  -- The gate accepts whatever a rerun node returns, None included: unless reading an attribute of
  -- the output raises, the attempt is accepted and the output becomes the context.
  pub examine_accepts :
      (d : RecoveryDecision) (id : String) (x : V) (s : RecoveryState V W)
      → Returns (λ o t. o ≡ accepted x) (examine rt d id x s)
  unfolding examine
  examine_accepts d id x s =
      Returns-continue (λ o t. o ≡ accepted x) (λ n t. Described n t.base)
        (lift (make_node_exec rt d.execution_id id x) s) _
        (lifted (make_node_exec rt d.execution_id id x s.base) s
          (make_node_exec-passes d.execution_id id x s.base))
        (λ n t h. gate_accepts d id x n (emit id recovery_validation_started t).1 h)

  -- The node without its own check of its output.
  abbrev pub unchecked : Node V W → Node V W
  unchecked n = record n { validate_output = none }

  abbrev pub unchecked_nodes : Option (List (Node V W)) → Option (List (Node V W))
  unchecked_nodes none = none
  unchecked_nodes (some ns) = some (map unchecked ns)

  attempts-unchecked :
      (d : RecoveryDecision) (n : Node V W) (k : ℕ) (c : V) (last : Option Exception)
      (s : RecoveryState V W)
      → attempts rt d (unchecked n) k c last s ≡ attempts rt d n k c last s
  unfolding attempts rerun_node rerun_node_id
  attempts-unchecked d n zero c none s = refl
  attempts-unchecked d n zero c (some e) s = refl
  attempts-unchecked d n (suc k) c last s =
      rw (fun_ext (λ c'. fun_ext (λ e. fun_ext (λ t. attempts-unchecked d n k c' (some e) t))))

  rerun_nodes-unchecked :
      (d : RecoveryDecision) (k : ℕ) (ns : List (Node V W)) (found : Bool) (c : V)
      (first : Option String)
      → rerun_nodes rt d k (map unchecked ns) found c first ≡ rerun_nodes rt d k ns found c first
  unfolding rerun_nodes rerun_node_id
  rerun_nodes-unchecked d k [] found c first = refl
  rerun_nodes-unchecked d k (n ∷ ns) found c first =
      rw (rerun_nodes-unchecked d k ns false c first) (
        rw
          (fun_ext (λ c'.
            rerun_nodes-unchecked d k ns true c' (or_else (truthy first) (some (rerun_node_id n)))))
          (rw (fun_ext (λ s. attempts-unchecked d n k c none s)) refl))

  -- A request whose nodes do not check their output.
  abbrev pub without_checks : Request V W → Request V W
  without_checks q = record q { nodes = unchecked_nodes q.nodes }

  rerun_supplied-unchecked :
      (d : RecoveryDecision) (k : ℕ) (c : V) (nodes : Option (List (Node V W)))
      (s : RecoveryState V W)
      → rerun_supplied rt d k c (unchecked_nodes nodes) s ≡ rerun_supplied rt d k c nodes s
  unfolding rerun_supplied
  rerun_supplied-unchecked d k c none s = refl
  rerun_supplied-unchecked d k c (some ns) s = rw (rerun_nodes-unchecked d k ns false c none)

  dispatch-unchecked :
      (a : RecoveryActionType) (d : RecoveryDecision) (q : Request V W) (s : RecoveryState V W)
      → dispatch rt a d (without_checks q) s ≡ dispatch rt a d q s
  unfolding dispatch execute_rerun
  dispatch-unchecked rerun_from_node d q s =
      ap
        (λ (f : V → Exec (RecoveryState V W) RecoveryResult).
          continue (upstream_context rt d.checkpoint_id s)
            (λ c t. f c (emit (target_or "unknown" d) recovery_rerun_started t).1))
        (fun_ext (λ c. fun_ext (λ t. rerun_supplied-unchecked d q.max_attempts c q.nodes t)))
  dispatch-unchecked _ d q s = refl

  -- Recovery never asks a node to check its output: with every `validate_output` taken off the
  -- nodes, an execution has the same result and leaves the same state. The pipeline executor does
  -- ask (`validate_node_output`), so a rerun accepts what made the run fail.
  pub execute-without_checks :
      (d : RecoveryDecision) (q : Request V W) (s : RecoveryState V W)
      → execute rt d (without_checks q) s ≡ execute rt d q s
  unfolding execute
  execute-without_checks d q s = rw (dispatch-unchecked d.action d q)
