-- ===== src/Pipeline/Traces.antt =====
-- The shape of a run: what its record holds, and what the history keeps of it.
use crucible_ai.Prelude.{
  All, Bool-cases, List, String, [], false, inl, inr, is_some, refl, true, ◌++◌, ◌∷◌, ◌≡◌, ◌⊎◌,
}
use crucible_ai.Pipeline.Model.{
  NodeStatus, PipelineStatus, Metadata, NodeExecution, PipelineExecution, Meta, dims, names, text,
}
use crucible_ai.Pipeline.Runtime.{
  Node, Runtime, State, Returns, Attribute, Returns-continue, Returns-each, present, raises,
  read_clock, unusable, absent,
}
use crucible_ai.Pipeline.Steps.{
  attribute_entry, describe, output_metadata_of, create_checkpoint, run_node, validate_node_output,
}
use crucible_ai.Pipeline.Executor.{accept, Ticket, success_entry}
use crucible_ai.Fault.Localizer.{metadata_failed}

-- An entry of a node that was accepted: a success with a checkpoint, no error, and nothing in its
-- metadata that reads as a failed validation.
pub record IsAccepted (n : NodeExecution) : Type 0 where
  pub succeeded : n.status ≡ NodeStatus.success
  pub kept : is_some n.checkpoint_id ≡ true
  pub clean : metadata_failed n.output_metadata ≡ false

-- A run that succeeded accepted every node; a run that failed accepted every node but the last entry.
pub data IsTrace (e : PipelineExecution) : Type 0 where
  all_accepted : e.status ≡ PipelineStatus.success → All IsAccepted e.nodes → IsTrace e
  last_failed :
      (before : List NodeExecution) (n : NodeExecution)
      → e.status ≡ PipelineStatus.failed
      → e.nodes ≡ before ++ n ∷ []
      → All IsAccepted before
      → n.status ≡ NodeStatus.failed
      → IsTrace e

module _ {V W : Type 0} (rt : Runtime V W) where
  abbrev Clean : Metadata → State V W → Type 0
  Clean m s = metadata_failed m ≡ false

  abbrev Keyed : String → Metadata → State V W → Type 0
  Keyed key m s = (m ≡ []) ⊎ ((k : Meta) × (m ≡ (key, k) ∷ []))

  attribute_entry-Keyed :
      {A : Type 0} (key : String) (inject : A → Meta) (a : Attribute A) (s : State V W)
      → Returns (Keyed key) (attribute_entry key inject a s)
  unfolding attribute_entry
  attribute_entry-Keyed key inject absent s = inl refl
  attribute_entry-Keyed key inject unusable s = inl refl
  attribute_entry-Keyed key inject (raises e) s = tt
  attribute_entry-Keyed key inject (present a) s = inr (inject a, refl)

  clean_entries :
      (k : Meta) (m m' : Metadata) (s t : State V W)
      → Keyed "shape" m s
      → Keyed "columns" m' t
      → metadata_failed ((("result_type", k) ∷ m) ++ m') ≡ false
  unfolding metadata_failed
  clean_entries k m m' s t (inl p) (inl q) = rw (p, q)
  clean_entries k m m' s t (inl p) (inr q) = rw (p, q.1)
  clean_entries k m m' s t (inr p) (inl q) = rw (p.1, q)
  clean_entries k m m' s t (inr p) (inr q) = rw (p.1, q.1)

  described-Clean : (x : V) (s : State V W) → Returns Clean (describe rt x s)
  unfolding describe
  described-Clean x s =
      Returns-continue Clean (Keyed "shape") (attribute_entry "shape" dims (rt.shape x s.world) s) _
        (attribute_entry-Keyed "shape" dims (rt.shape x s.world) s)
        (λ m t h.
          Returns-continue Clean (Keyed "columns")
            (attribute_entry "columns" names (rt.columns x t.world) t) _
            (attribute_entry-Keyed "columns" names (rt.columns x t.world) t)
            (λ m' u h'. clean_entries (text (rt.type_name x)) m m' t u h h'))

  output_metadata_of-Clean : (x : V) (s : State V W) → Returns Clean (output_metadata_of rt x s)
  unfolding output_metadata_of metadata_failed
  output_metadata_of-Clean x s = elim (Bool-cases (rt.is_none x)) [
    | inl p ↦ rw p refl
    | inr p ↦ rw p (described-Clean x s)
  ]

  -- an outcome of the `try` up to the append
  abbrev pub Accepted : V × NodeExecution → State V W → Type 0
  Accepted r t = IsAccepted r.1

  pub accept-IsAccepted :
      (k : Ticket) (n : Node V W) (c : V) (s : State V W) → Returns Accepted (accept rt k n c s)
  unfolding accept success_entry
  accept-IsAccepted k n c s = Returns-each Accepted (run_node n c s) _ (λ x t.
      Returns-continue Accepted Clean (output_metadata_of rt x t) _ (output_metadata_of-Clean x t)
        (λ m u h. Returns-each Accepted (validate_node_output n x u) _ (λ _ v.
          Returns-each Accepted (create_checkpoint rt n k.execution_id x k.input_metadata m v) _
            (λ p w.
              Returns-each Accepted (read_clock rt w) _
                (λ now w'. record { succeeded = refl; kept = refl; clean = h })))))
