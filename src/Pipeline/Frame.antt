-- ===== src/Pipeline/Frame.antt =====
-- What the steps of the pipeline leave alone: a predicate on states that does not look at the world,
-- the clock, the identifiers drawn or the files is kept by every step but the registration of a
-- checkpoint and the close of a run.
use crucible_ai.Prelude.{
  Bool, Bool-cases, List, Option, String, [], false, inl, inr, none, some, true, ◌++◌, ◌+◌, ◌∷◌,
}
use crucible_ai.Pipeline.Runtime.{
  Result, ok, raise, Act, Node, State, Exec, continue, foreign, Attribute, Runtime, artifact_file,
  metadata_file, present, unusable, raises, absent, draw_uuid, read_clock,
}
use crucible_ai.Pipeline.Model.{Meta, Metadata, dims, names, Checkpoint, NodeExecution}
use crucible_ai.Pipeline.Checkpoints.{
  persist_metadata, serialize, store_artifact, store_if_present, write_artifact,
}
use crucible_ai.Pipeline.Executor.{Ticket, prepare, propagate, accept}
use crucible_ai.Pipeline.Steps.{
  run_node, input_metadata_of, attribute_entry, check_validity, describe, keep_context,
  metadata_from, output_metadata_of, run_with, set_with, update_context, validate_node_output,
  validate_with, create_checkpoint,
}

-- What a predicate keeps through a bind, whether or not the first part returns.
pub stays_continue :
    {S A B : Type 0} (P : S → Type 0) (m : Result A × S) (f : A → Exec S B)
    → P m.1
    → ((a : A) (t : S) → P t → P (f a t).1)
    → P (continue m f).1
stays_continue P (ok a, s) f h k = k a s h
stays_continue P (raise e, s) f h k = h

-- The closure of a predicate under the changes that the steps make.
pub record IsFrame {V W : Type 0} (P : State V W → Type 0) : Type 0 where
  pub world : (s : State V W) (w : W) → P s → P (record s { world = w })
  pub readings : (s : State V W) → P s → P (record s { readings = s.readings + 1 })
  pub drawn : (s : State V W) → P s → P (record s { drawn = s.drawn + 1 })
  pub artifacts : (s : State V W) (fs : List (String × V)) → P s → P (record s { artifacts = fs })
  pub metadata_files :
      (s : State V W) (fs : List String) → P s → P (record s { metadata_files = fs })

module _ {V W : Type 0} (P : State V W → Type 0) (frame : IsFrame P) where
  foreign-stays : {A : Type 0} (m : Act W A) (s : State V W) → P s → P (foreign m s).1
  foreign-stays m s h = frame.world s (m s.world).1 h

  run_with-stays :
      (r k : Option (V → Act W V)) (c : V) (s : State V W) → P s → P (run_with r k c s).1
  unfolding run_with
  run_with-stays (some r) k c s h = foreign-stays (r c) s h
  run_with-stays none (some k) c s h = foreign-stays (k c) s h
  run_with-stays none none c s h = h

  pub run_node-stays : (n : Node V W) (c : V) (s : State V W) → P s → P (run_node n c s).1
  unfolding run_node
  run_node-stays n c s h = run_with-stays n.run n.call c s h

  metadata_from-stays :
      (o : Option (V → Act W (Option Metadata))) (c : V) (s : State V W)
      → P s
      → P (metadata_from o c s).1
  unfolding metadata_from
  metadata_from-stays none c s h = h
  metadata_from-stays (some m) c s h =
      stays_continue P (foreign (m c) s) _ (foreign-stays (m c) s h) (λ a t k. k)

  pub input_metadata_of-stays :
      (n : Node V W) (c : V) (s : State V W) → P s → P (input_metadata_of n c s).1
  unfolding input_metadata_of
  input_metadata_of-stays n c s h = metadata_from-stays n.input_metadata c s h

  check_validity-stays : (b : Bool) (s : State V W) → P s → P (check_validity b s).1
  unfolding check_validity
  check_validity-stays true s h = h
  check_validity-stays false s h = h

  validate_with-stays :
      (o : Option (V → Act W Bool)) (x : V) (s : State V W) → P s → P (validate_with o x s).1
  unfolding validate_with
  validate_with-stays none x s h = h
  validate_with-stays (some m) x s h =
      stays_continue P (foreign (m x) s) _ (foreign-stays (m x) s h) check_validity-stays

  pub validate_node_output-stays :
      (n : Node V W) (x : V) (s : State V W) → P s → P (validate_node_output n x s).1
  unfolding validate_node_output
  validate_node_output-stays n x s h = validate_with-stays n.validate_output x s h

  attribute_entry-stays :
      {A : Type 0} (key : String) (inject : A → Meta) (a : Attribute A) (s : State V W)
      → P s
      → P (attribute_entry key inject a s).1
  unfolding attribute_entry
  attribute_entry-stays key inject absent s h = h
  attribute_entry-stays key inject unusable s h = h
  attribute_entry-stays key inject (raises e) s h = h
  attribute_entry-stays key inject (present a) s h = h

module _ {V W : Type 0} (rt : Runtime V W) (P : State V W → Type 0) (frame : IsFrame P) where
  describe-stays : (x : V) (s : State V W) → P s → P (describe rt x s).1
  unfolding describe
  describe-stays x s h =
      stays_continue P (attribute_entry "shape" dims (rt.shape x s.world) s) _
        (attribute_entry-stays P frame "shape" dims (rt.shape x s.world) s h)
        (λ m t k.
          stays_continue P (attribute_entry "columns" names (rt.columns x t.world) t) _
            (attribute_entry-stays P frame "columns" names (rt.columns x t.world) t k)
            (λ m' u l. l))

  pub output_metadata_of-stays : (x : V) (s : State V W) → P s → P (output_metadata_of rt x s).1
  unfolding output_metadata_of
  output_metadata_of-stays x s h = elim (Bool-cases (rt.is_none x)) [
    | inl p ↦ rw p h
    | inr p ↦ rw p (describe-stays x s h)
  ]

  keep_context-stays :
      (c x : V) (o : Option W) (s : State V W) → P s → P (keep_context rt c x o s).1
  unfolding keep_context
  keep_context-stays c x none s h = h
  keep_context-stays c x (some w) s h = frame.world s w h

  set_with-stays :
      (o : Option (V → Act W (Unit {0}))) (c x : V) (s : State V W)
      → P s
      → P (set_with rt o c x s).1
  unfolding set_with
  set_with-stays (some m) c x s h =
      stays_continue P (foreign (m x) s) _ (foreign-stays P frame (m x) s h) (λ a t k. k)
  set_with-stays none c x s h = elim (Bool-cases (rt.has_value c s.world)) [
    | inl p ↦ rw p (keep_context-stays c x (rt.assign_value c x s.world) s h)
    | inr p ↦ rw p h
  ]

  pub update_context-stays : (c x : V) (s : State V W) → P s → P (update_context rt c x s).1
  unfolding update_context
  update_context-stays c x s h = elim (Bool-cases (rt.is_none c)) [
    | inl p ↦ rw p h
    | inr p ↦ rw p (elim (Bool-cases (rt.same x c)) [
      | inl q ↦ rw q h
      | inr q ↦ rw q (set_with-stays (rt.set_value c) c x s h)
    ])
  ]

  write_artifact-stays :
      (path : String) (o : Option V) (s : State V W) → P s → P (write_artifact rt path o s).1
  unfolding write_artifact
  write_artifact-stays path none s h = h
  write_artifact-stays path (some x) s h =
      elim (Bool-cases (rt.writable (artifact_file path) s.world)) [
        | inl p ↦ rw p (frame.artifacts s _ h)
        | inr p ↦ rw p h
      ]

  pub store_if_present-stays :
      (id : String) (x : V) (s : State V W) → P s → P (store_if_present rt id x s).1
  unfolding store_if_present
  store_if_present-stays id x s h = elim (Bool-cases (rt.is_none x)) [
    | inl p ↦ rw p h
    | inr p ↦ rw p (
        stays_continue P (store_artifact rt id x s) _
          (write_artifact-stays id (rt.loads (serialize rt x s.world)) s h) (λ a t k. k))
  ]

  pub persist_metadata-stays : (id : String) (s : State V W) → P s → P (persist_metadata rt id s).1
  unfolding persist_metadata
  persist_metadata-stays id s h = elim (Bool-cases (rt.writable (metadata_file id) s.world)) [
    | inl p ↦ rw p (frame.metadata_files s _ h)
    | inr p ↦ rw p h
  ]

-- The steps that register a checkpoint, for a predicate that does not look at the checkpoints either.
module _ {V W : Type 0} (rt : Runtime V W) (P : State V W → Type 0) (frame : IsFrame P)
    (registers : (s : State V W) (c : Checkpoint)
      → P s
      → P (record s { checkpoints = s.checkpoints ++ c ∷ [] })) where
  create_checkpoint-stays :
      (n : Node V W) (eid : String) (x : V) (m m' : Metadata) (s : State V W)
      → P s
      → P (create_checkpoint rt n eid x m m' s).1
  unfolding create_checkpoint
  create_checkpoint-stays n eid x m m' s h =
      stays_continue P (store_if_present rt (rt.uuid4 s.drawn) x (draw_uuid rt s).1) _
        (store_if_present-stays rt P frame (rt.uuid4 s.drawn) x (draw_uuid rt s).1
          (frame.drawn s h))
        (λ path t k.
          stays_continue P (persist_metadata rt (rt.uuid4 s.drawn) _) _
            (persist_metadata-stays rt P frame (rt.uuid4 s.drawn) _
              (registers _ _ (frame.readings t k)))
            (λ _ u l. l))

  pub accept-stays :
      (k : Ticket) (n : Node V W) (c : V) (s : State V W) → P s → P (accept rt k n c s).1
  unfolding accept read_clock
  accept-stays k n c s h =
      stays_continue P (run_node n c s) _ (run_node-stays P frame n c s h) (λ x t a.
        stays_continue P (output_metadata_of rt x t) _ (output_metadata_of-stays rt P frame x t a)
          (λ m u b.
            stays_continue P (validate_node_output n x u) _
              (validate_node_output-stays P frame n x u b)
              (λ _ v d.
                stays_continue P (create_checkpoint rt n k.execution_id x k.input_metadata m v) _
                  (create_checkpoint-stays n k.execution_id x k.input_metadata m v d)
                  (λ p w e. frame.readings w e))))

  pub propagate-stays :
      (c : V) (m : Result (V × NodeExecution) × State V W) → P m.1 → P (propagate rt c m).1
  unfolding propagate
  propagate-stays c (ok (x, entry), s) h = update_context-stays rt P frame c x s h
  propagate-stays c (raise e, s) h = h

  pub prepare-stays :
      (eid : String) (n : Node V W) (c : V) (s : State V W) → P s → P (prepare rt eid n c s).1
  unfolding prepare read_clock draw_uuid
  prepare-stays eid n c s h =
      stays_continue P (input_metadata_of n c _) _
        (input_metadata_of-stays P frame n c _ (frame.readings _ (frame.drawn s h))) (λ m t k. k)
