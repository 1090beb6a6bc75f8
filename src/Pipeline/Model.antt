-- ===== src/Pipeline/Model.antt =====
-- The records of app/engine/core/pipeline/status.py and of executor.py, with the two searches of
-- `PipelineExecution`. A time is the number of microseconds since the epoch.
use crucible_ai.Prelude.{
  Bool, List, Option, String, [], false, find?, if◌then◌else◌, none, reverse, some, true, ℕ, ◌==◌,
  ◌∷◌,
}

pub data NodeStatus : Type 0 where
  pending running success failed skipped rolled_back : NodeStatus

pub data PipelineStatus : Type 0 where
  created running success failed rolling_back rolled_back : PipelineStatus

-- A value of a metadata dictionary. `object s` is any other Python object, whose `str()` is `s`.
pub data Meta : Type 0 where
  text : String → Meta
  flag : Bool → Meta
  names : List String → Meta
  dims : List ℕ → Meta
  object : String → Meta

-- `dict[str, Any]`
abbrev pub Metadata : Type 0
Metadata = List (String × Meta)

-- `d.get(key)`
unfoldable pub get_key {ℓ} : {V : Type ℓ} → String → List (String × V) → Option V
get_key k [] = none
get_key k ((j, v) ∷ m) = let rest = get_key k m in if j == k then some v else rest

pub record NodeExecution : Type 0 where
  pub execution_id : String
  pub node_id : String
  pub status : NodeStatus
  pub started_at : ℕ
  pub finished_at : Option ℕ
  pub input_metadata : Metadata
  pub output_metadata : Metadata
  pub error_type : Option String
  pub error_message : Option String
  pub checkpoint_id : Option String

pub record PipelineExecution : Type 0 where
  pub execution_id : String
  pub status : PipelineStatus
  pub nodes : List NodeExecution
  pub started_at : ℕ
  pub finished_at : Option ℕ

-- `Checkpoint` of checkpoints/manager.py; `node_type` is the one key of its metadata.
pub record Checkpoint : Type 0 where
  pub checkpoint_id : String
  pub execution_id : String
  pub node_id : String
  pub created_at : ℕ
  pub node_version : String
  pub data_hash : String
  pub input_schema : Metadata
  pub output_schema : Metadata
  pub artifact_path : Option String
  pub validation_status : String
  pub node_type : String

abbrev pub is_success : NodeStatus → Bool
is_success NodeStatus.success = true
is_success _ = false

abbrev pub is_failed : NodeStatus → Bool
is_failed NodeStatus.failed = true
is_failed _ = false

-- The property `failed_node`: the first node that failed.
unfoldable pub failed_node : PipelineExecution → Option NodeExecution
failed_node e = find? (λ n. is_failed n.status) e.nodes

-- The property `last_successful_node`.
unfoldable pub last_successful_node : PipelineExecution → Option NodeExecution
last_successful_node e = find? (λ n. is_success n.status) (reverse e.nodes)
