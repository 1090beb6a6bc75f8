-- ===== src/Recovery/Walks.antt =====
-- How the loop of a rerun may end.
use crucible_ai.Prelude.{
  Bool, Bool-cases, List, Option, String, [], any, arith, false, inl, inr, is_eq_some, none,
  or_else, refl, some, suc, true, zero, ℕ, ◌||◌, ◌∷◌, ◌≡◌,
}
use crucible_ai.Pipeline.Runtime.{
  Result, ok, raise, Exec, Returns, Runtime, Exception, Node, Returns-continue, ◌>>=◌, pure,
  Returns-each,
}
use crucible_ai.Recovery.Decision.{RecoveryDecision}
use crucible_ai.Recovery.Report.{
  RecoveryResult, RecoveryState, failed_result, target_or, emit, lift, recovery_validation_started,
  recovery_rerun_started,
}
use crucible_ai.Pipeline.Model.{NodeExecution}
use crucible_ai.Recovery.Rerun.{
  Outcome, Walk, accepted, attempts, halted, ended, walked, examine, make_node_exec, gate,
  after_try, execute_rerun, finish_rerun, rerun_node_id, rerun_nodes, rerun_supplied, try_rerun,
  upstream_context, advance,
}
use crucible_ai.Recovery.Results.{IsConsistent}
use crucible_ai.Pipeline.Steps.{truthy}

-- Whether the decision's target is among the nodes.
abbrev pub has_target : {V W : Type 0} → RecoveryDecision → List (Node V W) → Bool
has_target d ns = any (λ n. is_eq_some (rerun_node_id n) d.target_node) ns

module _ {V W : Type 0} (rt : Runtime V W) where
  -- an outcome that halts carries a consistent result
  abbrev Halts : RecoveryDecision → Outcome V → RecoveryState V W → Type 0
  Halts d (accepted c) s = Unit
  Halts d (halted r) s = IsConsistent d r × (r.success ≡ false)

  -- How a walk may end: a result from inside is a failure, and the target is found only if some
  -- node has its id.
  abbrev Walks : RecoveryDecision → List (Node V W) → Bool → Walk → RecoveryState V W → Type 0
  Walks d ns found (ended r) s = IsConsistent d r × (r.success ≡ false)
  Walks d ns found (walked true first) s = (found || has_target d ns) ≡ true
  Walks d ns found (walked false first) s = Unit

  halt-Halts :
      (d : RecoveryDecision) (s : RecoveryState V W)
      → Returns (Halts d) ((do r ← failed_result d; pure (halted r)) s)
  unfolding failed_result
  halt-Halts d s = ground arith

  gate-Halts :
      (d : RecoveryDecision) (id : String) (c : V) (n : NodeExecution) (s : RecoveryState V W)
      → Returns (Halts d) (gate rt d id c n s)
  unfolding gate
  gate-Halts d id c n s = ground arith

  examine-Halts :
      (d : RecoveryDecision) (id : String) (c : V) (s : RecoveryState V W)
      → Returns (Halts d) (examine rt d id c s)
  unfolding examine
  examine-Halts d id c s =
      Returns-each (Halts d) (lift (make_node_exec rt d.execution_id id c) s) _
        (λ n t. gate-Halts d id c n (emit id recovery_validation_started t).1)

  try_rerun-Halts :
      (d : RecoveryDecision) (id : String) (c : V) (m : Result V × RecoveryState V W)
      → Returns (Halts d) ((try_rerun rt d id c m).0.1, (try_rerun rt d id c m).1)
  unfolding try_rerun
  try_rerun-Halts d id c (ok x, s) = examine-Halts d id x s
  try_rerun-Halts d id c (raise e, s) = tt

  after_try-Halts :
      (d : RecoveryDecision) (id : String)
      (next : V → Exception → Exec (RecoveryState V W) (Outcome V))
      (m : (V × Result (Outcome V)) × RecoveryState V W)
      → Returns (Halts d) (m.0.1, m.1)
      → ((c : V) (e : Exception) (s : RecoveryState V W) → Returns (Halts d) (next c e s))
      → Returns (Halts d) (after_try rt id next m)
  unfolding after_try
  after_try-Halts d id next ((c, ok o), s) h k = h
  after_try-Halts d id next ((c, raise e), s) h k = k c e _

  attempts-Halts :
      (d : RecoveryDecision) (node : Node V W) (n : ℕ) (c : V) (last : Option Exception)
      (s : RecoveryState V W)
      → Returns (Halts d) (attempts rt d node n c last s)
  unfolding attempts
  attempts-Halts d node zero c none s = tt
  attempts-Halts d node zero c (some e) s = halt-Halts d s
  attempts-Halts d node (suc n) c last s =
      after_try-Halts d _ _ _ (try_rerun-Halts d (rerun_node_id node) c _)
        (λ c' e t. attempts-Halts d node n c' (some e) t)

  widen :
      (d : RecoveryDecision) (ns ms : List (Node V W)) (found : Bool)
      → (found || has_target d ms) ≡ true
      → (m : Result Walk × RecoveryState V W) → Returns (Walks d ns true) m
      → Returns (Walks d ms found) m
  widen d ns ms found p (ok (ended r), s) h = h
  widen d ns ms found p (ok (walked true f), s) h = p
  widen d ns ms found p (ok (walked false f), s) h = tt
  widen d ns ms found p (raise e, s) h = tt

  skipped_first :
      (d : RecoveryDecision) (n : Node V W) (ns : List (Node V W)) (found : Bool)
      → found ≡ false
      → (m : Result Walk × RecoveryState V W) → Returns (Walks d ns false) m
      → Returns (Walks d (n ∷ ns) found) m
  skipped_first d n ns found p (ok (ended r), s) h = h
  skipped_first d n ns found p (ok (walked true f), s) h = ground arith
  skipped_first d n ns found p (ok (walked false f), s) h = tt
  skipped_first d n ns found p (raise e, s) h = tt

  walked_nothing :
      (d : RecoveryDecision) (found : Bool) (first : Option String) (s : RecoveryState V W)
      → Walks d [] found (walked found first) s
  walked_nothing d true first s = refl
  walked_nothing d false first s = tt

  advance-Walks :
      (d : RecoveryDecision) (ns ms : List (Node V W)) (found : Bool)
      (next : V → Exec (RecoveryState V W) Walk) (o : Outcome V) (s : RecoveryState V W)
      → (found || has_target d ms) ≡ true
      → Halts d o s
      → ((c : V) (t : RecoveryState V W) → Returns (Walks d ns true) (next c t))
      → Returns (Walks d ms found) (advance rt next o s)
  unfolding advance
  advance-Walks d ns ms found next (accepted c) s p h k = widen d ns ms found p (next c s) (k c s)
  advance-Walks d ns ms found next (halted r) s p h k = h

  rerun_nodes-Walks :
      (d : RecoveryDecision) (n : ℕ) (ns : List (Node V W)) (found : Bool) (c : V)
      (first : Option String) (s : RecoveryState V W)
      → Returns (Walks d ns found) (rerun_nodes rt d n ns found c first s)
  unfolding rerun_nodes
  rerun_nodes-Walks d n [] found c first s = walked_nothing d found first s
  rerun_nodes-Walks d n (node ∷ rest) found c first s =
      elim (Bool-cases (found || is_eq_some (rerun_node_id node) d.target_node)) [
        | inl p ↦ rw p (
            Returns-continue (Walks d (node ∷ rest) found) (Halts d) (attempts rt d node n c none s)
              _ (attempts-Halts d node n c none s)
              (λ o t h. advance-Walks d rest (node ∷ rest) found _ o t (ground arith) h (λ c' u.
                rerun_nodes-Walks d n rest true c'
                  (or_else (truthy first) (some (rerun_node_id node))) u)))
        | inr p ↦ rw p (
            skipped_first d node rest found (ground arith) (rerun_nodes rt d n rest false c first s)
              (rerun_nodes-Walks d n rest false c first s))
      ]

  -- A rerun that succeeds was given nodes, and the decision's target among them.
  abbrev pub Supplied : RecoveryDecision → Option (List (Node V W)) → Type 0
  Supplied d none = ⊥
  Supplied d (some ns) = has_target d ns ≡ true

  abbrev pub Resumes :
      RecoveryDecision → Option (List (Node V W)) → RecoveryResult → RecoveryState V W → Type 0
  Resumes d ns r s = IsConsistent d r × (r.success ≡ true → Supplied d ns)

  finish_rerun-Resumes :
      (d : RecoveryDecision) (ns : List (Node V W)) (w : Walk) (s : RecoveryState V W)
      → Walks d ns false w s
      → Returns (Resumes d (some ns)) (finish_rerun rt d w s)
  unfolding finish_rerun
  finish_rerun-Resumes d ns (ended r) s h = ground arith
  finish_rerun-Resumes d ns (walked false n) s h = ground arith
  finish_rerun-Resumes d ns (walked true n) s h = ground arith

  rerun_supplied-Resumes :
      (d : RecoveryDecision) (n : ℕ) (c : V) (nodes : Option (List (Node V W)))
      (s : RecoveryState V W)
      → Returns (Resumes d nodes) (rerun_supplied rt d n c nodes s)
  unfolding rerun_supplied
  rerun_supplied-Resumes d n c none s = ground arith
  rerun_supplied-Resumes d n c (some ns) s =
      Returns-continue (Resumes d (some ns)) (Walks d ns false)
        (rerun_nodes rt d n ns false c none s) _ (rerun_nodes-Walks d n ns false c none s)
        (finish_rerun-Resumes d ns)

  pub execute_rerun-Resumes :
      (d : RecoveryDecision) (n : ℕ) (nodes : Option (List (Node V W))) (s : RecoveryState V W)
      → Returns (Resumes d nodes) (execute_rerun rt d n nodes s)
  unfolding execute_rerun
  execute_rerun-Resumes d n nodes s =
      Returns-each (Resumes d nodes) (upstream_context rt d.checkpoint_id s) _ (λ c t.
        rerun_supplied-Resumes d n c nodes
          (emit (target_or "unknown" d) recovery_rerun_started t).1)
