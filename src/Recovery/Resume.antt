-- ===== src/Recovery/Resume.antt =====
-- Where a rerun starts, and what it reports when no attempt is allowed.
use crucible_ai.Prelude.{
  Bool-cases, List, Option, String, [], arith, false, inl, inr, is_eq_some, none, refl, some, suc,
  true, zero, ℕ, ◌∷◌, ◌≡◌,
}
use crucible_ai.Pipeline.Runtime.{ok, Node, Runtime, Returns, Result, raise, Delivers}
use crucible_ai.Recovery.Decision.{RecoveryDecision, rerun_from_node, RecoveryActionType}
use crucible_ai.Recovery.Report.{
  RecoveryState, RecoveryResult, recovery_rerun_started, target_or, emit,
}
use crucible_ai.Recovery.Executor.{Request, execute, dispatch, handle}
use crucible_ai.Recovery.Walks.{Supplied, has_target, Resumes, execute_rerun-Resumes}
use crucible_ai.Recovery.Rerun.{
  walked, attempts, advance, rerun_nodes, rerun_node_id, execute_rerun, rerun_supplied,
}

module _ {V W : Type 0} (rt : Runtime V W) where
  -- With no attempt allowed the loop runs no node and reports no failure.
  rerun_nodes_found :
      (d : RecoveryDecision) (ns : List (Node V W)) (c : V) (first : Option String)
      (s : RecoveryState V W)
      → (f : Option String) × (rerun_nodes rt d 0 ns true c first s ≡ (ok (walked true f), s))
  unfolding rerun_nodes attempts advance
  rerun_nodes_found d [] c first s = (first, refl)
  rerun_nodes_found d (n ∷ ns) c first s = rerun_nodes_found d ns c _ s

  rerun_nodes_zero :
      (d : RecoveryDecision) (ns : List (Node V W)) (c : V) (s : RecoveryState V W)
      → has_target d ns ≡ true
      → (f : Option String) × (rerun_nodes rt d 0 ns false c none s ≡ (ok (walked true f), s))
  unfolding rerun_nodes attempts advance
  rerun_nodes_zero d [] c s h = absurd (cc h)
  rerun_nodes_zero d (n ∷ ns) c s h =
      elim (Bool-cases (is_eq_some (rerun_node_id n) d.target_node)) [
        | inl p ↦ rw p (rerun_nodes_found d ns c _ s)
        | inr p ↦ rw p (rerun_nodes_zero d ns c s (ground arith))
      ]

  abbrev pub Targeted : RecoveryDecision → Request V W → RecoveryResult → RecoveryState V W → Type 0
  Targeted d q r t = r.success ≡ true → Supplied rt d q.nodes

  dispatch-Targeted :
      (a : RecoveryActionType) (d : RecoveryDecision) (q : Request V W) (s : RecoveryState V W)
      → a ≡ rerun_from_node
      → Returns (Targeted d q) (dispatch rt a d q s)
  unfolding dispatch
  dispatch-Targeted rerun_from_node d q s e =
      goal_only (execute_rerun rt d q.max_attempts q.nodes s)
        (execute_rerun-Resumes rt d q.max_attempts q.nodes s)
    where
      goal_only :
          (m : Result RecoveryResult × RecoveryState V W)
          → Returns (Resumes rt d q.nodes) m
          → Returns (Targeted d q) m
      goal_only (ok r, t) h = h.1
      goal_only (raise x, t) h = tt
  dispatch-Targeted _ d q s e = absurd (ground arith)

  handle-Targeted :
      (d : RecoveryDecision) (q : Request V W) (m : Result RecoveryResult × RecoveryState V W)
      → Returns (Targeted d q) m
      → Returns (Targeted d q) (handle d m)
  unfolding handle
  handle-Targeted d q (ok r, s) h = h
  handle-Targeted d q (raise e, s) h = ground arith

  -- A rerun that is reported as a success was given nodes, and the decision's target is one of them.
  pub rerun_success_target :
      (d : RecoveryDecision) (q : Request V W) (s : RecoveryState V W)
      → d.action ≡ rerun_from_node
      → Returns (Targeted d q) (execute rt d q s)
  unfolding execute
  rerun_success_target d q s h = handle-Targeted d q _ (dispatch-Targeted d.action d q _ h)

  abbrev pub Idle : RecoveryState V W → RecoveryResult → RecoveryState V W → Type 0
  Idle s r t = (r.success ≡ true) × (r.validation_passed ≡ true) × (t.base ≡ s.base)

  rerun_supplied_zero :
      (d : RecoveryDecision) (k : ℕ) (c : V) (nodes : Option (List (Node V W)))
      (s : RecoveryState V W)
      → k ≡ 0
      → Supplied rt d nodes
      → Delivers (Idle s) (rerun_supplied rt d k c nodes s)
  unfolding rerun_supplied
  rerun_supplied_zero d zero c (some ns) s e h =
      let (f, p) = rerun_nodes_zero d ns c s h in rw p (refl, refl, refl)
  rerun_supplied_zero d zero c none s e h = absurd h
  rerun_supplied_zero d (suc k) c nodes s e h = absurd (omega arith)

  execute_rerun_zero :
      (d : RecoveryDecision) (q : Request V W) (s : RecoveryState V W)
      → d.checkpoint_id ≡ none
      → q.max_attempts ≡ 0
      → Supplied rt d q.nodes
      → Delivers (Idle s) (execute_rerun rt d q.max_attempts q.nodes s)
  unfolding execute_rerun
  execute_rerun_zero d q s c m h = simp c (
      rerun_supplied_zero d q.max_attempts rt.none_value q.nodes
        (emit (target_or "unknown" d) recovery_rerun_started s).1 m h)

  dispatch_zero :
      (a : RecoveryActionType) (d : RecoveryDecision) (q : Request V W) (s : RecoveryState V W)
      → a ≡ rerun_from_node
      → d.checkpoint_id ≡ none
      → q.max_attempts ≡ 0
      → Supplied rt d q.nodes
      → Delivers (Idle s) (dispatch rt a d q s)
  unfolding dispatch
  dispatch_zero rerun_from_node d q s a c m h = execute_rerun_zero d q s c m h
  dispatch_zero _ d q s a c m h = absurd (ground arith)

  handle_zero :
      (d : RecoveryDecision) (s : RecoveryState V W) (m : Result RecoveryResult × RecoveryState V W)
      → Delivers (Idle s) m
      → Delivers (Idle s) (handle d m)
  unfolding handle
  handle_zero d s (ok r, t) h = h
  handle_zero d s (raise e, t) h = absurd h

  -- With `max_attempts = 0` a rerun to a listed target, with no checkpoint to restore, is reported as
  -- a validated success although no node is run: nothing but the list of events changes.
  pub rerun_zero_attempts :
      (d : RecoveryDecision) (q : Request V W) (s : RecoveryState V W)
      → d.action ≡ rerun_from_node
      → d.checkpoint_id ≡ none
      → q.max_attempts ≡ 0
      → Supplied rt d q.nodes
      → Delivers (Idle s) (execute rt d q s)
  unfolding execute
  rerun_zero_attempts d q s a c m h = handle_zero d s _ (dispatch_zero d.action d q _ a c m h)
