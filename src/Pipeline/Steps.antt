-- ===== src/Pipeline/Steps.antt =====
-- The helpers of `PipelineExecutor`, app/engine/core/pipeline/executor.py.
use crucible_ai.Prelude.{
  Bool, Option, String, [], false, get_or, if◌then◌else◌, is_some, none, some, true, ◌++◌, ◌==◌,
  ◌∷◌,
}
use crucible_ai.Pipeline.Model.{Meta, text, names, dims, Metadata, get_key, Checkpoint}
use crucible_ai.Pipeline.Runtime.{
  Exception, ok, Act, Attribute, absent, unusable, raises, present, Node, Runtime, Exec, pure,
  throw, foreign, ◌>>=◌, ◌>>◌, State,
}
use crucible_ai.Pipeline.Checkpoints.{create}

abbrev pub type_error : Exception
type_error = record {
  type_name = "TypeError";
  message = "must provide run(context) or be callable";
}

abbrev pub validation_failed : Exception
validation_failed = record { type_name = "ValueError"; message = "Node output validation failed." }

-- A truthy string, or none.
abbrev pub truthy : Option String → Option String
truthy none = none
truthy (some s) = if s == "" then none else some s

-- `{key: metadata[key]}` if the key is there
abbrev pub entry : String → Option Meta → Metadata
entry key none = []
entry key (some v) = (key, v) ∷ []

-- `_schema_from_metadata`
unfoldable pub schema_from_metadata : Metadata → Metadata
unfolding get_key
schema_from_metadata m =
    entry "shape" (get_key "shape" m)
    ++ (entry "columns" (get_key "columns" m) ++ entry "result_type" (get_key "result_type" m))

module _ {V W : Type 0} where
  -- `_node_id`; only a callable node has its `__name__` read.
  unfoldable pub node_id_of : Node V W → String
  node_id_of node =
      get_or (truthy node.node_id)
        (get_or (if is_some node.call then truthy node.name else none) node.class_name)

  unfoldable pub run_with : Option (V → Act W V) → Option (V → Act W V) → V → Exec (State V W) V
  run_with (some run) call context = foreign (run context)
  run_with none (some call) context = foreign (call context)
  run_with none none context = throw type_error

  -- `_run_node`
  unfoldable pub run_node : Node V W → V → Exec (State V W) V
  unfolding run_with
  run_node node context = run_with node.run node.call context

  unfoldable pub metadata_from :
      Option (V → Act W (Option Metadata)) → V → Exec (State V W) Metadata
  metadata_from none context = pure []
  metadata_from (some provider) context = do
    found ← foreign (provider context)
    pure (get_or found [])

  -- `_input_metadata`
  unfoldable pub input_metadata_of : Node V W → V → Exec (State V W) Metadata
  unfolding metadata_from
  input_metadata_of node context = metadata_from node.input_metadata context

  unfoldable pub check_validity : Bool → Exec (State V W) (Unit {0})
  check_validity true = pure tt
  check_validity false = throw validation_failed

  unfoldable pub validate_with : Option (V → Act W Bool) → V → Exec (State V W) (Unit {0})
  unfolding check_validity
  validate_with none result = pure tt
  validate_with (some validator) result = do
    valid ← foreign (validator result)
    check_validity valid

  -- `_validate_node_output`
  unfoldable pub validate_node_output : Node V W → V → Exec (State V W) (Unit {0})
  unfolding validate_with
  validate_node_output node result = validate_with node.validate_output result

  -- One optional attribute of a result: its entry, nothing where TypeError is caught.
  unfoldable pub attribute_entry :
      {A : Type 0} → String → (A → Meta) → Attribute A → Exec (State V W) Metadata
  attribute_entry key inject absent = pure []
  attribute_entry key inject unusable = pure []
  attribute_entry key inject (raises e) = throw e
  attribute_entry key inject (present a) = pure ((key, inject a) ∷ [])

module _ {V W : Type 0} (rt : Runtime V W) where
  -- The dictionary of a result that is not None.
  unfoldable pub describe : V → Exec (State V W) Metadata
  unfolding attribute_entry
  describe result = do
    shape ← (λ s. attribute_entry "shape" dims (rt.shape result s.world) s)
    columns ← (λ s. attribute_entry "columns" names (rt.columns result s.world) s)
    pure ((("result_type", text (rt.type_name result)) ∷ shape) ++ columns)

  -- `_output_metadata`
  unfoldable pub output_metadata_of : V → Exec (State V W) Metadata
  unfolding describe
  output_metadata_of result = if rt.is_none result then pure [] else describe result

  -- `_create_checkpoint`
  unfoldable pub create_checkpoint :
      Node V W → String → V → Metadata → Metadata → Exec (State V W) Checkpoint
  unfolding create
  create_checkpoint node execution_id result input_metadata output_metadata =
      create rt execution_id (node_id_of node) result (get_or node.version "unknown")
        (schema_from_metadata input_metadata) (schema_from_metadata output_metadata) "passed"
        node.class_name

  unfoldable pub keep_context : V → V → Option W → Exec (State V W) V
  keep_context context result none s = (ok result, s)
  keep_context context result (some w) s = (ok context, record s { world = w })

  unfoldable pub set_with : Option (V → Act W (Unit {0})) → V → V → Exec (State V W) V
  unfolding keep_context
  set_with (some setter) context result s = (do foreign (setter result); pure context) s
  set_with none context result s =
      if rt.has_value context s.world
      then keep_context context result (rt.assign_value context result s.world) s
      else (ok result, s)

  -- `_update_context`
  unfoldable pub update_context : V → V → Exec (State V W) V
  unfolding set_with
  update_context context result s =
      if rt.is_none context
      then (ok result, s)
      else if rt.same result context
      then (ok context, s)
      else set_with (rt.set_value context) context result s
