-- ===== src/Recovery/Policy.antt =====
-- What the decision engine prescribes, on its own and for the reports of the fault detector.
use crucible_ai.Prelude.{
  Bool, List, Option, Option-cases, String, any, arith, contains, false, inl, inr, none, refl, some,
  true, ℕ, ◌==◌, ◌||◌, ◌≡◌, ◌≢◌, ◌⊎◌,
}
use crucible_ai.Pipeline.Model.{
  PipelineStatus, PipelineExecution, Checkpoint, failed_node, NodeExecution,
}
use crucible_ai.Fault.Model.{
  low, FaultReport, FaultLocalization, corrupted_artifact, critical, resource_error, unknown,
}
use crucible_ai.Fault.Detector.{classify, detect, report_failed, detect_failure}
use crucible_ai.Recovery.Decision.{
  RecoveryActionType, retry, rerun_from_node, rollback, decide, security_keywords,
  has_security_hint, quarantine, manual_review, abort,
}

-- The actions that a person has to approve.
abbrev pub needs_approval : RecoveryActionType → Bool
needs_approval retry = false
needs_approval rerun_from_node = false
needs_approval _ = true

-- A decision asks for approval exactly where its action is neither a retry nor a rerun from a node.
pub decide_approval :
    (e : PipelineExecution) (f : FaultReport) (l : FaultLocalization) (c : Option Checkpoint)
    → (decide e f l c).requires_approval ≡ needs_approval (decide e f l c).action
unfolding decide
decide_approval e f l c = ground arith

-- A rollback is prescribed only where there is a last known good checkpoint, and to that one.
pub decide_rollback :
    (e : PipelineExecution) (f : FaultReport) (l : FaultLocalization) (c : Option Checkpoint)
    → (decide e f l c).action ≡ rollback
    → (k : Checkpoint) × (c ≡ some k) × ((decide e f l c).checkpoint_id ≡ some k.checkpoint_id)
unfolding decide
decide_rollback e f l none h = ground arith
decide_rollback e f l (some k) h = (k, refl, ground arith)

-- The detector never rates a fault low.
classify-ne-low : (t : String) (m : List ℕ) → (classify t m).1 ≢ low
unfolding classify
classify-ne-low t m h = ground arith

detect-ne-low :
    (e : PipelineExecution)
    → e.status ≢ PipelineStatus.success
    → ((detect e).detected ≡ true) × ((detect e).severity ≢ low)
unfolding detect report_failed
detect-ne-low e h = grind (arith, classify-ne-low)

-- A run that did not succeed is never simply retried.
pub decide-detect-ne-retry :
    (e : PipelineExecution) (l : FaultLocalization) (c : Option Checkpoint)
    → e.status ≢ PipelineStatus.success
    → (decide e (detect e) l c).action ≢ retry
unfolding decide
decide-detect-ne-retry e l c h = let k = detect-ne-low e h in ground (arith, k.0, k.1)

-- A corrupted artifact is reported only where the error's type or its message names security.
classify_corrupted :
    (t : String) (m : List ℕ)
    → (classify t m).0 ≡ corrupted_artifact
    → ((t == "SecurityError" || t == "IntegrityError")
        || any (λ kw. contains kw m) security_keywords)
      ≡ true
unfolding classify
classify_corrupted t m h = ground arith

detect_failure_corrupted :
    (eid : String) (o : Option NodeExecution)
    → (detect_failure eid o).fault_type ≡ corrupted_artifact
    → has_security_hint (detect_failure eid o) ≡ true
unfolding detect_failure has_security_hint
detect_failure_corrupted eid none h = ground arith
detect_failure_corrupted eid (some n) h = classify_corrupted _ _ h

detect_corrupted :
    (e : PipelineExecution)
    → (detect e).fault_type ≡ corrupted_artifact
    → has_security_hint (detect e) ≡ true
unfolding detect
detect_corrupted e h = ground (arith, detect_failure_corrupted e.execution_id (failed_node e))

decide_corrupted :
    (e : PipelineExecution) (f : FaultReport) (l : FaultLocalization) (c : Option Checkpoint)
    → f.detected ≡ true
    → f.severity ≢ low
    → f.fault_type ≡ corrupted_artifact
    → has_security_hint f ≡ true
    → ((decide e f l c).action ≡ quarantine) × ((decide e f l c).target_node ≡ f.observed_node)
unfolding decide
decide_corrupted e f l c d s t h = ground arith

-- A run that fails with a corrupted artifact is quarantined at the observed node, whatever the
-- localization and whether or not there is a checkpoint to roll back to.
pub decide-detect_corrupted :
    (e : PipelineExecution) (l : FaultLocalization) (c : Option Checkpoint)
    → e.status ≢ PipelineStatus.success
    → (detect e).fault_type ≡ corrupted_artifact
    → ((decide e (detect e) l c).action ≡ quarantine)
      × ((decide e (detect e) l c).target_node ≡ (detect e).observed_node)
decide-detect_corrupted e l c s h =
    let k = detect-ne-low e s in decide_corrupted e (detect e) l c k.0 k.1 h (detect_corrupted e h)

-- Of the critical faults
classify_critical :
    (t : String) (m : List ℕ)
    → (classify t m).1 ≡ critical
    → ((classify t m).0 ≡ corrupted_artifact) ⊎ ((classify t m).0 ≡ resource_error)
unfolding classify
classify_critical t m h = ground arith

detect_failure_critical :
    (eid : String) (o : Option NodeExecution)
    → (detect_failure eid o).severity ≡ critical
    → ((detect_failure eid o).fault_type ≡ corrupted_artifact)
      ⊎ ((detect_failure eid o).fault_type ≡ resource_error)
unfolding detect_failure
detect_failure_critical eid none h = ground arith
detect_failure_critical eid (some n) h = classify_critical _ _ h

detect_critical :
    (e : PipelineExecution)
    → (detect e).severity ≡ critical
    → ((detect e).fault_type ≡ corrupted_artifact) ⊎ ((detect e).fault_type ≡ resource_error)
unfolding detect
detect_critical e h = ground (arith, detect_failure_critical e.execution_id (failed_node e))

decide_exhausted :
    (e : PipelineExecution) (f : FaultReport) (l : FaultLocalization) (c : Option Checkpoint)
    → f.detected ≡ true
    → f.severity ≡ critical
    → f.fault_type ≡ resource_error
    → (decide e f l c).action ≡ manual_review
unfolding decide
decide_exhausted e f l c d s t = ground arith

-- A critical fault is never acted on automatically: it is quarantined where it is a corrupted
-- artifact and else reviewed by a person, also where there is a checkpoint to roll back to.
pub decide-detect_critical :
    (e : PipelineExecution) (l : FaultLocalization) (c : Option Checkpoint)
    → e.status ≢ PipelineStatus.success
    → (detect e).severity ≡ critical
    → (((detect e).fault_type ≡ corrupted_artifact)
        × ((decide e (detect e) l c).action ≡ quarantine))
      ⊎ (((detect e).fault_type ≡ resource_error)
          × ((decide e (detect e) l c).action ≡ manual_review))
decide-detect_critical e l c s h = elim (detect_critical e h) [
  | inl p ↦ inl (p, (decide-detect_corrupted e l c s p).0)
  | inr p ↦ inr (p, decide_exhausted e (detect e) l c (detect-ne-low e s).0 h p)
]

detect_observed :
    (e : PipelineExecution) → (detect e).observed_node ≡ none → ((detect e).fault_type ≡ unknown)
unfolding detect detect_failure report_failed
detect_observed e h = ground arith

decide-ne-abort :
    (e : PipelineExecution) (f : FaultReport) (l : FaultLocalization) (k : Checkpoint)
    → (f.observed_node ≡ none → f.fault_type ≡ unknown)
    → (f.fault_type ≡ corrupted_artifact → has_security_hint f ≡ true)
    → (decide e f l (some k)).action ≢ abort
unfolding decide
decide-ne-abort e f l k o h = elim (Option-cases f.observed_node) [
  | inl p ↦ (let q = o p in ground arith)
  | inr (n, p) ↦ ground arith
]

-- With a last known good checkpoint no recovery is given up: whatever the run and its localization,
-- the decision is not to abort.
pub decide-detect-ne-abort :
    (e : PipelineExecution) (l : FaultLocalization) (k : Checkpoint)
    → (decide e (detect e) l (some k)).action ≢ abort
decide-detect-ne-abort e l k =
    decide-ne-abort e (detect e) l k (detect_observed e) (detect_corrupted e)
