-- ===== src/Fault/Localizer.antt =====
-- app/engine/core/fault/localizer.py: the rules of `localize` in their order, each over the nodes
-- before the observed one, nearest first.
use crucible_ai.Prelude.{
  Bool, List, Option, String, [], any, codes, false, find?, if◌then◌else◌, is_some, leb, lower,
  none, not, reverse, some, true, ℕ, ◌&&◌, ◌==◌, ◌||◌, ◌∷◌,
}
use crucible_ai.Pipeline.Model.{
  NodeExecution, PipelineExecution, Meta, text, flag, object, Metadata, get_key, is_success,
  is_failed,
}
use crucible_ai.Fault.Model.{FaultReport, FaultLocalization}

-- app/engine/core/observability/events.py, with the fields that `localize` reads.
pub record NodeEvent : Type 0 where
  pub node_id : String
  pub event_type : String

-- `for node_exec in execution.nodes: if node_exec.node_id == observed: break`
unfoldable pub preceding : String → List NodeExecution → List NodeExecution
preceding observed [] = []
preceding observed (n ∷ ns) =
    let rest = preceding observed ns in if n.node_id == observed then [] else n ∷ rest

unfoldable pub has_validation_event : List NodeEvent → NodeExecution → Bool
has_validation_event events n =
    any (λ (e : NodeEvent). e.node_id == n.node_id && e.event_type == "output_validation_failed")
      events

abbrev pub is_true : Option Meta → Bool
is_true (some (flag true)) = true
is_true _ = false

abbrev pub is_text : String → Option Meta → Bool
is_text s (some (text t)) = t == s
is_text s _ = false

same_codes : List ℕ → List ℕ → Bool
same_codes [] [] = true
same_codes (c ∷ s) (d ∷ t) = leb c d && leb d c && same_codes s t
same_codes _ _ = false

-- `str(v).lower() == "failed"`; the `str()` of a flag, of a list and of a tuple is never that.
unfoldable pub reads_failed : Option Meta → Bool
unfolding same_codes
reads_failed (some (text s)) = same_codes (lower s) (codes "failed")
reads_failed (some (object s)) = same_codes (lower s) (codes "failed")
reads_failed _ = false

unfoldable pub metadata_failed : Metadata → Bool
unfolding get_key reads_failed
metadata_failed meta =
    is_true (get_key "validation_failed" meta)
    || is_text "failed" (get_key "output_validation" meta)
    || reads_failed (get_key "validation_status" meta)

unfoldable pub lacks_checkpoint : NodeExecution → Bool
lacks_checkpoint n = is_success n.status && not (is_some n.checkpoint_id)

-- Rules 2 to 5: the nearest preceding node with the strongest kind of evidence that any has.
unfoldable pub suspect : List NodeEvent → List NodeExecution → Option (NodeExecution × ℕ)
suspect events nearest = elim (find? (λ n. is_failed n.status) nearest) [
  | some n ↦ some (n, 90)
  | none ↦ elim (find? (has_validation_event events) nearest) [
    | some n ↦ some (n, 85)
    | none ↦ elim (find? (λ n. metadata_failed n.output_metadata) nearest) [
      | some n ↦ some (n, 85)
      | none ↦ elim (find? lacks_checkpoint nearest) [ some n ↦ some (n, 75) | none ↦ none ]
    ]
  ]
]

unfoldable pub conclude : String → String → Option (NodeExecution × ℕ) → FaultLocalization
conclude eid observed (some (n, confidence)) = record {
  execution_id = eid;
  observed_node = some observed;
  probable_root_node = some n.node_id;
  confidence = confidence;
}
conclude eid observed none = record {
  execution_id = eid;
  observed_node = some observed;
  probable_root_node = some observed;
  confidence = 55;
}

unfoldable pub localize_observed :
    PipelineExecution → List NodeEvent → Option String → FaultLocalization
unfolding suspect conclude
localize_observed execution events none = record {
  execution_id = execution.execution_id;
  observed_node = none;
  probable_root_node = none;
  confidence = 30;
}
localize_observed execution events (some observed) =
    conclude execution.execution_id observed
      (suspect events (reverse (preceding observed execution.nodes)))

-- `FaultLocalizer.localize`
unfoldable pub localize : PipelineExecution → FaultReport → List NodeEvent → FaultLocalization
unfolding localize_observed
localize execution fault events =
    if fault.detected then localize_observed execution events fault.observed_node else record {
      execution_id = execution.execution_id;
      observed_node = none;
      probable_root_node = none;
      confidence = 100;
    }
