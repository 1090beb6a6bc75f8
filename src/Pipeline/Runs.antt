-- ===== src/Pipeline/Runs.antt =====
-- The loop of `PipelineExecutor.execute`: the shape of a run, and what the history gains.
use crucible_ai.Prelude.{All, All-append, List, String, [], refl, ℕ, ◌++◌, ◌∷◌, ◌≡◌}
use crucible_ai.Pipeline.Model.{NodeExecution, PipelineExecution}
use crucible_ai.Pipeline.Runtime.{
  Exception, Result, ok, raise, Node, Runtime, State, Exec, continue, Returns, draw_uuid,
  read_clock,
}
use crucible_ai.Pipeline.Executor.{
  Ticket, accept, propagate, close, settle, stop, prepare, run_nodes, execute, failed_entry,
}
use crucible_ai.Pipeline.Frame.{IsFrame, accept-stays, propagate-stays, prepare-stays}
use crucible_ai.Pipeline.Traces.{
  IsAccepted, IsTrace, all_accepted, last_failed, accept-IsAccepted, Accepted,
}

module _ {V W : Type 0} (rt : Runtime V W) where
  -- A run that returns is a trace, appended to the history; one that raises leaves the history.
  abbrev pub Recorded : List PipelineExecution → Result PipelineExecution × State V W → Type 0
  Recorded h (ok e, t) = IsTrace e × (t.history ≡ h ++ e ∷ [])
  Recorded h (raise x, t) = t.history ≡ h

  abbrev Unchanged : List PipelineExecution → State V W → Type 0
  Unchanged h s = s.history ≡ h

  history-IsFrame : (h : List PipelineExecution) → IsFrame (Unchanged h)
  history-IsFrame h = record {
    world = λ s w p. p;
    readings = λ s p. p;
    drawn = λ s p. p;
    artifacts = λ s fs p. p;
    metadata_files = λ s fs p. p;
  }

  stop-Recorded :
      (k : Ticket) (st : ℕ) (before : List NodeExecution) (e : Exception)
      (h : List PipelineExecution) (s : State V W)
      → All IsAccepted before
      → s.history ≡ h
      → Recorded h (stop rt k st before e s)
  unfolding stop close read_clock failed_entry
  stop-Recorded k st before e h s a p = (last_failed before _ refl refl a refl, simp p)

  propagate-IsAccepted :
      (c : V) (m : Result (V × NodeExecution) × State V W)
      → Returns (Accepted rt) m
      → All IsAccepted (propagate rt c m).0.0
  unfolding propagate
  propagate-IsAccepted c (ok (x, entry), s) a = (a, tt)
  propagate-IsAccepted c (raise e, s) a = tt

  settle-Recorded :
      (k : Ticket) (st : ℕ) (done : List NodeExecution)
      (next : V → List NodeExecution → Exec (State V W) PipelineExecution)
      (h : List PipelineExecution) (m : (List NodeExecution × Result V) × State V W)
      → All IsAccepted done
      → All IsAccepted m.0.0
      → m.1.history ≡ h
      → ((c : V) (l : List NodeExecution) (t : State V W)
          → All IsAccepted l
          → t.history ≡ h
          → Recorded h (next c l t))
      → Recorded h (settle rt k st done next m)
  unfolding settle
  settle-Recorded k st done next h ((new, ok c), s) a b p ih =
      ih c (done ++ new) s (All-append IsAccepted done new a b) p
  settle-Recorded k st done next h ((new, raise e), s) a b p ih =
      stop-Recorded k st (done ++ new) e h s (All-append IsAccepted done new a b) p

  run_nodes-Recorded :
      (eid : String) (st : ℕ) (nodes : List (Node V W)) (c : V) (done : List NodeExecution)
      (h : List PipelineExecution) (s : State V W)
      → All IsAccepted done
      → s.history ≡ h
      → Recorded h (run_nodes rt eid st nodes c done s)
  unfolding run_nodes
  run_nodes-Recorded eid st [] c done h s a p = (all_accepted refl a, simp p)
  run_nodes-Recorded eid st (n ∷ rest) c done h s a p =
      recorded_continue h (prepare rt eid n c s) _
        (prepare-stays rt (Unchanged h) (history-IsFrame h) (λ _ _ p. p) eid n c s p)
        (λ k t q.
          settle-Recorded k st done _ h (propagate rt c (accept rt k n c t)) a
            (propagate-IsAccepted c (accept rt k n c t) (accept-IsAccepted rt k n c t))
            (propagate-stays rt (Unchanged h) (history-IsFrame h) (λ _ _ p. p) c (accept rt k n c t)
              (accept-stays rt (Unchanged h) (history-IsFrame h) (λ _ _ p. p) k n c t q))
            (λ c' l u b r. run_nodes-Recorded eid st rest c' l h u b r))
    where
      recorded_continue :
          (h : List PipelineExecution) (m : Result Ticket × State V W)
          (f : Ticket → Exec (State V W) PipelineExecution)
          → m.1.history ≡ h
          → ((k : Ticket) (t : State V W) → t.history ≡ h → Recorded h (f k t))
          → Recorded h (continue m f)
      recorded_continue h (ok k, t) f p g = g k t p
      recorded_continue h (raise e, t) f p g = p

  -- Every run that returns has the shape of a trace: on success all nodes were accepted, each with a
  -- checkpoint; on failure all entries but the last, which is the failed one. The history gains that
  -- run and nothing else, and gains nothing where `execute` raises.
  pub execute-Recorded :
      (nodes : List (Node V W)) (c : V) (s : State V W) → Recorded s.history (execute rt nodes c s)
  unfolding execute read_clock draw_uuid
  execute-Recorded nodes c s = run_nodes-Recorded _ _ nodes c [] s.history _ tt refl
