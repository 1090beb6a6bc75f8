-- ===== src/Pipeline/Coverage.antt =====
-- Which nodes the entries of a run stand for.
use mathlib.Core.List.{append_assoc, append-nil, map-append}
use crucible_ai.Prelude.{
  List, String, [], ap, inl, inr, map, refl, sym, ℕ, ◌++◌, ◌∙◌, ◌∷◌, ◌≡◌, ◌⊎◌,
}
use crucible_ai.Pipeline.Model.{NodeExecution, PipelineExecution, PipelineStatus}
use crucible_ai.Pipeline.Runtime.{
  Exception, Node, Result, Returns, Returns-continue, Returns-each, Runtime, State, draw_uuid, ok,
  raise, read_clock,
}
use crucible_ai.Pipeline.Steps.{
  create_checkpoint, input_metadata_of, node_id_of, output_metadata_of, run_node, update_context,
  validate_node_output,
}
use crucible_ai.Pipeline.Runs.{Recorded, execute-Recorded}
use crucible_ai.Pipeline.Traces.{IsTrace}
use crucible_ai.Pipeline.Executor.{
  Ticket, accept, close, execute, failed_entry, prepare, propagate, run_nodes, settle, stop,
  success_entry,
}

abbrev pub entry_ids : List NodeExecution → List String
entry_ids entries = map (λ (n : NodeExecution). n.node_id) entries

module _ {V W : Type 0} where
  abbrev pub node_ids : List (Node V W) → List String
  node_ids nodes = map (λ (n : Node V W). node_id_of n) nodes

  -- A run that succeeded has an entry for each node, in their order. A run that failed has one for
  -- each node up to the failed one, in their order; that node may have an entry of its own before the
  -- failed one, where its output was accepted but could not be passed on.
  abbrev pub Covers : List (Node V W) → PipelineExecution → Type 0
  Covers nodes e =
      ((e.status ≡ PipelineStatus.success) × (entry_ids e.nodes ≡ node_ids nodes))
      ⊎ ((e.status ≡ PipelineStatus.failed)
          × (past : List (Node V W)) × (n : Node V W) × (rest : List (Node V W)) × (before : List
              NodeExecution)
          × (x : NodeExecution) × (nodes ≡ past ++ n ∷ rest)
          × (e.nodes ≡ before ++ x ∷ [])
          × (x.node_id ≡ node_id_of n)
          × ((entry_ids before ≡ node_ids past) ⊎ (entry_ids before ≡ node_ids (past ++ n ∷ []))))

  next_ids :
      (past : List (Node V W)) (n : Node V W) (before : List NodeExecution) (x : NodeExecution)
      → entry_ids before ≡ node_ids past
      → x.node_id ≡ node_id_of n
      → entry_ids (before ++ x ∷ []) ≡ node_ids (past ++ n ∷ [])
  next_ids past n before x h e =
      map-append (λ (y : NodeExecution). y.node_id) before (x ∷ [])
      ∙ ap (λ l. l ++ x.node_id ∷ []) h
      ∙ ap (λ i. node_ids past ++ i ∷ []) e
      ∙ sym (map-append (λ (y : Node V W). node_id_of y) past (n ∷ []))

module _ {V W : Type 0} (rt : Runtime V W) where
  abbrev Named : String → V × NodeExecution → State V W → Type 0
  Named id r t = r.1.node_id ≡ id

  accept-Named :
      (k : Ticket) (n : Node V W) (c : V) (s : State V W)
      → Returns (Named k.node_id) (accept rt k n c s)
  unfolding accept success_entry
  accept-Named k n c s =
      let P = Named k.node_id in
      Returns-each P (run_node n c s) _ (λ x t. Returns-each P (output_metadata_of rt x t) _ (λ m u.
        Returns-each P (validate_node_output n x u) _ (λ _ v.
          Returns-each P (create_checkpoint rt n k.execution_id x k.input_metadata m v) _
            (λ p w. Returns-each P (read_clock rt w) _ (λ now w'. refl)))))

  abbrev For : Node V W → Ticket → State V W → Type 0
  For n k t = k.node_id ≡ node_id_of n

  prepare-For :
      (id : String) (n : Node V W) (c : V) (s : State V W) → Returns (For n) (prepare rt id n c s)
  unfolding prepare
  prepare-For id n c s = Returns-each (For n) (draw_uuid rt s) _ (λ i t.
      Returns-each (For n) (read_clock rt t) _
        (λ now u. Returns-each (For n) (input_metadata_of n c u) _ (λ m v. refl)))

  module _ (all : List (Node V W)) (id : String) (st : ℕ) where
    abbrev Done : PipelineExecution → State V W → Type 0
    Done e t = Covers all e

    stop-Covers :
        (k : Ticket) (past : List (Node V W)) (n : Node V W) (rest : List (Node V W))
        (before : List NodeExecution) (e : Exception) (s : State V W)
        → all ≡ past ++ n ∷ rest
        → k.node_id ≡ node_id_of n
        → (entry_ids before ≡ node_ids past) ⊎ (entry_ids before ≡ node_ids (past ++ n ∷ []))
        → Returns Done (stop rt k st before e s)
    unfolding stop close read_clock failed_entry
    stop-Covers k past n rest before e s a i h = inr (refl, past, n, rest, before, _, a, refl, i, h)

    -- What follows the try of a node, with what holds of the rest of the run.
    accepted :
        (k : Ticket) (n : Node V W) (rest past : List (Node V W)) (c : V)
        (before : List NodeExecution) (m : Result (V × NodeExecution) × State V W)
        → all ≡ past ++ n ∷ rest
        → entry_ids before ≡ node_ids past
        → k.node_id ≡ node_id_of n
        → Returns (Named k.node_id) m
        → ((c' : V) (l : List NodeExecution) (u : State V W)
            → entry_ids l ≡ node_ids (past ++ n ∷ [])
            → Returns Done (run_nodes rt id st rest c' l u))
        → Returns Done
            (settle rt k st before (λ c' l. run_nodes rt id st rest c' l) (propagate rt c m))
    unfolding settle propagate
    accepted k n rest past c before (raise e, s) a h i d next =
        stop-Covers k past n rest (before ++ []) e s a i
          (inl (ap entry_ids (append-nil before) ∙ h))
    accepted k n rest past c before (ok (x, entry), s) a h i d next =
        passed (update_context rt c x s)
      where
        passed :
            (r : Result V × State V W)
            → Returns Done (
                settle rt k st before
                  (λ c' l. run_nodes rt id st rest c' l)
                  ((entry ∷ [], r.0), r.1))
        passed (ok c', t) =
            next c' (before ++ entry ∷ []) t (next_ids past n before entry h (d ∙ i))
        passed (raise e, t) =
            stop-Covers k past n rest (before ++ entry ∷ []) e t a i
              (inr (next_ids past n before entry h (d ∙ i)))

    run_nodes-Covers :
        (rest past : List (Node V W)) (c : V) (before : List NodeExecution) (s : State V W)
        → all ≡ past ++ rest
        → entry_ids before ≡ node_ids past
        → Returns Done (run_nodes rt id st rest c before s)
    unfolding run_nodes close
    run_nodes-Covers [] past c before s a h =
        inl (refl, h ∙ ap node_ids (sym (a ∙ append-nil past)))
    run_nodes-Covers (n ∷ rest) past c before s a h =
        Returns-continue Done (For n) (prepare rt id n c s) _ (prepare-For id n c s) (λ k t i.
          accepted k n rest past c before (accept rt k n c t) a h i (accept-Named k n c t)
            (λ c' l u h'.
              run_nodes-Covers rest (past ++ n ∷ []) c' l u
                (a ∙ sym (append_assoc past (n ∷ []) rest)) h'))

  pub execute-Covers :
      (nodes : List (Node V W)) (c : V) (s : State V W)
      → Returns (λ e t. Covers nodes e) (execute rt nodes c s)
  unfolding execute read_clock draw_uuid
  execute-Covers nodes c s = run_nodes-Covers nodes _ _ nodes [] c [] _ refl refl

  -- A run that returns is a trace of its nodes, appended to the history; one that raises leaves the
  -- history.
  abbrev pub Traced :
      List (Node V W) → List PipelineExecution → Result PipelineExecution × State V W → Type 0
  Traced nodes h (ok e, t) = IsTrace e × Covers nodes e × (t.history ≡ h ++ e ∷ [])
  Traced nodes h (raise x, t) = t.history ≡ h

  both :
      (nodes : List (Node V W)) (h : List PipelineExecution)
      (m : Result PipelineExecution × State V W)
      → Recorded rt h m
      → Returns (λ e t. Covers nodes e) m
      → Traced nodes h m
  both nodes h (ok e, t) (r, x) c = (r, c, x)
  both nodes h (raise x, t) r c = r

  -- Every run that returns has the shape of a trace of the given nodes. On success there is an entry
  -- for each node, in their order, and each is accepted, with a checkpoint. On failure there is one
  -- for each node up to one that failed, in their order, all accepted, and then a failed one of that
  -- node, which may also have an accepted one just before. The history gains that run and nothing
  -- else, and gains nothing where `execute` raises.
  pub execute-Traced :
      (nodes : List (Node V W)) (c : V) (s : State V W)
      → Traced nodes s.history (execute rt nodes c s)
  execute-Traced nodes c s =
      both nodes s.history (execute rt nodes c s) (execute-Recorded rt nodes c s)
        (execute-Covers nodes c s)
