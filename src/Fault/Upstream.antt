-- ===== src/Fault/Upstream.antt =====
-- What the localizer finds in the runs of the pipeline executor.
use mathlib.Core.List.{reverse-cons}
use crucible_ai.Prelude.{
  All, All-append, Bool, Bool-cases, List, [], arith, eq_self, false, find?, inl, inr, none, refl,
  reverse, some, ◌++◌, ◌==◌, ◌∷◌, ◌≡◌,
}
use crucible_ai.Pipeline.Model.{
  NodeStatus, NodeExecution, PipelineExecution, failed_node, is_failed,
}
use crucible_ai.Pipeline.Runtime.{Runtime, State, Node, Result, ok, raise, Returns}
use crucible_ai.Pipeline.Traces.{IsAccepted, IsTrace, all_accepted, last_failed}
use crucible_ai.Pipeline.Runs.{Recorded, execute-Recorded}
use crucible_ai.Pipeline.Executor.{execute}
use crucible_ai.Fault.Detector.{detect, detect_failure, report_failed}
use crucible_ai.Fault.Localizer.{
  NodeEvent, preceding, has_validation_event, lacks_checkpoint, metadata_failed, suspect, localize,
}

find?-none :
    {A : Type 0} (p : A → Bool) (xs : List A) → All (λ x. p x ≡ false) xs → find? p xs ≡ none
find?-none p [] h = refl
find?-none p (x ∷ xs) h = rw (h.0, find?-none p xs h.1)

All-map :
    {A : Type 0} (P Q : A → Type 0) (xs : List A) → ((x : A) → P x → Q x) → All P xs → All Q xs
All-map P Q [] f h = tt
All-map P Q (x ∷ xs) f h = (f x h.0, All-map P Q xs f h.1)

All-reverse : {A : Type 0} (P : A → Type 0) (xs : List A) → All P xs → All P (reverse xs)
All-reverse P [] h = tt
All-reverse P (x ∷ xs) h =
    rw (reverse-cons x xs) (All-append P (reverse xs) (x ∷ []) (All-reverse P xs h.1) (h.0, tt))

-- No event of a list tells of a failed output validation.
abbrev pub IsQuiet : List NodeEvent → Type 0
IsQuiet events =
    All (λ (e : NodeEvent). (e.event_type == "output_validation_failed") ≡ false) events

quiet_event :
    (events : List NodeEvent) (n : NodeExecution)
    → IsQuiet events
    → has_validation_event events n ≡ false
unfolding has_validation_event
quiet_event [] n h = refl
quiet_event (e ∷ es) n h = let r = quiet_event es n h.1 in ground (arith, h.0, r)

accepted_suspect :
    (events : List NodeEvent) (ns : List NodeExecution)
    → IsQuiet events
    → All IsAccepted ns
    → suspect events ns ≡ none
unfolding suspect lacks_checkpoint
accepted_suspect events ns q h =
    rw
      (
        find?-none (λ n. is_failed n.status) ns (All-map _ _ ns (λ n a. rw a.succeeded refl) h),
        suspect,
      )
      (rw
        (
          find?-none (has_validation_event events) ns
              (All-map _ _ ns (λ n a. quiet_event events n q) h),
          suspect,
        )
        (rw
          (
            find?-none (λ n. metadata_failed n.output_metadata) ns
                (All-map _ _ ns (λ n a. a.clean) h),
            suspect,
          )
          (rw
            (
              find?-none lacks_checkpoint ns
                  (All-map _ _ ns (λ n a. rw (a.succeeded, a.kept) refl) h),
              suspect,
            )
            refl)))

preceding-IsAccepted :
    (before : List NodeExecution) (n : NodeExecution)
    → All IsAccepted before
    → All IsAccepted (preceding n.node_id (before ++ n ∷ []))
unfolding preceding
preceding-IsAccepted [] n h = rw (eq_self n.node_id) tt
preceding-IsAccepted (b ∷ bs) n h = elim (Bool-cases (b.node_id == n.node_id)) [
  | inl p ↦ rw p tt
  | inr p ↦ rw p (h.0, preceding-IsAccepted bs n h.1)
]

accepted_failed :
    (before : List NodeExecution) (n : NodeExecution)
    → All IsAccepted before
    → n.status ≡ NodeStatus.failed
    → find? (λ (m : NodeExecution). is_failed m.status) (before ++ n ∷ []) ≡ some n
accepted_failed [] n h f = rw f refl
accepted_failed (b ∷ bs) n h f = rw (h.0.succeeded, accepted_failed bs n h.1 f) refl

trace-localize :
    (e : PipelineExecution) (events : List NodeEvent)
    → IsTrace e
    → IsQuiet events
    → (localize e (detect e) events).probable_root_node ≡ (detect e).observed_node
unfolding localize detect detect_failure report_failed failed_node
trace-localize e events (all_accepted s a) q = rw s refl
trace-localize e events (last_failed before n s k a f) q =
    let near = reverse (preceding n.node_id (before ++ n ∷ [])) in
    let found = accepted_suspect events near q (
      All-reverse IsAccepted (preceding n.node_id (before ++ n ∷ []))
        (preceding-IsAccepted before n a)) in
    rw (s, k) (rw (accepted_failed before n a f, find?) (rw (found, suspect) refl))

module _ {V W : Type 0} (rt : Runtime V W) where
  -- The observed node is taken for the root.
  abbrev pub IsLocal : List NodeEvent → PipelineExecution → State V W → Type 0
  IsLocal events e t = (localize e (detect e) events).probable_root_node ≡ (detect e).observed_node

  from_trace :
      (events : List NodeEvent) (h : List PipelineExecution)
      (m : Result PipelineExecution × State V W)
      → IsQuiet events
      → Recorded rt h m
      → Returns (IsLocal events) m
  from_trace events h (ok e, t) q r = trace-localize e events r.0 q
  from_trace events h (raise x, t) q r = tt

  -- For a run that `execute` returns, the root that the localizer names is the node where the fault
  -- was observed, unless an event tells of a failed output validation: no node before the failed one
  -- carries any of the other evidence.
  pub execute-localize :
      (nodes : List (Node V W)) (c : V) (events : List NodeEvent) (s : State V W)
      → IsQuiet events
      → Returns (IsLocal events) (execute rt nodes c s)
  execute-localize nodes c events s q =
      from_trace events s.history _ q (execute-Recorded rt nodes c s)
