-- ===== src/Pipeline/Totality.antt =====
-- When `PipelineExecutor.execute` returns.
use crucible_ai.Prelude.{All, List, String, [], ℕ, ◌++◌, ◌∷◌, ◌≡◌}
use crucible_ai.Pipeline.Model.{NodeExecution, PipelineExecution}
use crucible_ai.Pipeline.Runtime.{
  Result, ok, raise, Node, Runtime, State, Exec, continue, Delivers, draw_uuid, read_clock,
}
use crucible_ai.Pipeline.Steps.{input_metadata_of}
use crucible_ai.Pipeline.Executor.{
  Ticket, accept, propagate, close, settle, stop, prepare, run_nodes, execute,
}
use crucible_ai.Pipeline.Traces.{IsTrace}
use crucible_ai.Pipeline.Runs.{Recorded, execute-Recorded}

module _ {V W : Type 0} (rt : Runtime V W) where
  abbrev Done : {A : Type 0} → A → State V W → Type 0
  Done a t = Unit

  -- Reading the input metadata of a node never raises.
  abbrev pub IsReadable : Node V W → Type 0
  IsReadable n =
      (c : V) (s : State V W) → Delivers (λ _ (t : State V W). Unit {0}) (input_metadata_of n c s)

  delivered :
      {A B : Type 0} (m : Result A × State V W) (f : A → Exec (State V W) B)
      → Delivers Done m
      → ((a : A) (t : State V W) → Delivers Done (f a t))
      → Delivers Done (continue m f)
  delivered (ok a, t) f h k = k a t
  delivered (raise e, t) f h k = absurd h

  settle-Delivers :
      (k : Ticket) (st : ℕ) (done : List NodeExecution)
      (next : V → List NodeExecution → Exec (State V W) PipelineExecution)
      (m : (List NodeExecution × Result V) × State V W)
      → ((c : V) (l : List NodeExecution) (t : State V W) → Delivers Done (next c l t))
      → Delivers Done (settle rt k st done next m)
  unfolding settle stop close read_clock
  settle-Delivers k st done next ((new, ok c), s) ih = ih c (done ++ new) s
  settle-Delivers k st done next ((new, raise e), s) ih = tt

  prepare-Delivers :
      (eid : String) (n : Node V W) (c : V) (s : State V W)
      → IsReadable n
      → Delivers Done (prepare rt eid n c s)
  unfolding prepare read_clock draw_uuid
  prepare-Delivers eid n c s h = delivered (input_metadata_of n c _) _ (h c _) (λ m t. tt)

  run_nodes-Delivers :
      (eid : String) (st : ℕ) (nodes : List (Node V W)) (c : V) (done : List NodeExecution)
      (s : State V W)
      → All IsReadable nodes
      → Delivers Done (run_nodes rt eid st nodes c done s)
  unfolding run_nodes
  run_nodes-Delivers eid st [] c done s h = tt
  run_nodes-Delivers eid st (n ∷ rest) c done s h =
      delivered (prepare rt eid n c s) _ (prepare-Delivers eid n c s h.0) (λ k t.
        settle-Delivers k st done _ (propagate rt c (accept rt k n c t))
          (λ c' l u. run_nodes-Delivers eid st rest c' l u h.1))

  abbrev pub Ran : List PipelineExecution → PipelineExecution → State V W → Type 0
  Ran h e t = IsTrace e × (t.history ≡ h ++ e ∷ [])

  recorded :
      (h : List PipelineExecution) (m : Result PipelineExecution × State V W)
      → Recorded rt h m
      → Delivers Done m
      → Delivers (Ran h) m
  recorded h (ok e, t) r d = r
  recorded h (raise x, t) r d = absurd d

  execute-Delivers :
      (nodes : List (Node V W)) (c : V) (s : State V W)
      → All IsReadable nodes
      → Delivers Done (execute rt nodes c s)
  unfolding execute read_clock draw_uuid
  execute-Delivers nodes c s h = run_nodes-Delivers _ _ nodes c [] _ h

  -- Where reading the input metadata of a node never raises, `execute` returns the record of a run
  -- and adds it to the history, whatever the nodes, their output checks, the objects and the disk do.
  pub execute-Ran :
      (nodes : List (Node V W)) (c : V) (s : State V W)
      → All IsReadable nodes
      → Delivers (Ran s.history) (execute rt nodes c s)
  execute-Ran nodes c s h =
      recorded s.history (execute rt nodes c s) (execute-Recorded rt nodes c s)
        (execute-Delivers nodes c s h)
