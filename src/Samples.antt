-- ===== src/Samples.antt =====
-- Concrete data for the tests: an interpreter whose objects are numbers (0 is None), nodes, runs,
-- checkpoints and decisions.
use crucible_ai.Prelude.{String, [], false, leb, none, some, suc, true, zero, ℕ, ◌&&◌, ◌+◌, ◌∷◌}
use crucible_ai.Pipeline.Model.{NodeStatus, PipelineStatus, PipelineExecution, Checkpoint}
use crucible_ai.Pipeline.Runtime.{ok, raise, Act, absent, Node, Runtime, State}

abbrev identifier : ℕ → String
identifier zero = "run"
identifier (suc zero) = "first"
identifier (suc (suc zero)) = "second"
identifier (suc (suc (suc zero))) = "third"
identifier (suc (suc (suc (suc n)))) = "later"

abbrev pub python : Runtime ℕ ℕ
python = record {
  none_value = 0;
  is_none = λ x. leb x 0;
  same = λ x y. leb x y && leb y x;
  type_name = λ _. "int";
  shape = λ _ _. absent;
  columns = λ _ _. absent;
  set_value = λ _. none;
  has_value = λ _ _. false;
  assign_value = λ _ _ _. none;
  is_native = λ _. true;
  dumps = λ _ _. some "7";
  is_dataclass = λ _. false;
  as_dict = λ _ _. none;
  to_dict = λ _ _. none;
  object_dict = λ _ _. none;
  dumps_repr = λ _ _. "\"object\"";
  loads = λ _. some 7;
  sha256 = λ s. s;
  load_error = λ _ _. none;
  writable = λ _ _. true;
  now = λ n. n;
  uuid4 = identifier;
}

-- A node that counts its runs in the world and returns 7.
abbrev work : ℕ → Act ℕ ℕ
work context w = (ok 7, w + 1)

abbrev fail : ℕ → Act ℕ ℕ
fail context w = (raise (record { type_name = "ValueError"; message = "bad column" }), w + 1)

abbrev make_node : String → (ℕ → Act ℕ ℕ) → Node ℕ ℕ
make_node id run = record {
  node_id = some id;
  name = none;
  class_name = "Step";
  version = some "1";
  input_metadata = none;
  run = some run;
  call = none;
  validate_output = some (λ x w. (ok true, w));
}

abbrev pub load_node : Node ℕ ℕ
load_node = make_node "load" work

abbrev pub broken_node : Node ℕ ℕ
broken_node = make_node "train" fail

abbrev pub start : State ℕ ℕ
start = record {
  world = 0;
  readings = 0;
  drawn = 0;
  checkpoints = [];
  artifacts = [];
  metadata_files = [];
  history = [];
}

abbrev pub saved : Checkpoint
saved = record {
  checkpoint_id = "first";
  execution_id = "run";
  node_id = "load";
  created_at = 3;
  node_version = "1";
  data_hash = "7";
  input_schema = [];
  output_schema = [];
  artifact_path = some "first";
  validation_status = "passed";
  node_type = "Step";
}

-- A manager that holds the checkpoint, with its file.
abbrev pub stored : State ℕ ℕ
stored = record start { checkpoints = saved ∷ []; artifacts = ("first", 7) ∷ [] }

abbrev pub failed_with : String → String → PipelineExecution
failed_with error_type message = record {
  execution_id = "run";
  status = PipelineStatus.failed;
  nodes =
      record {
        execution_id = "entry-1";
        node_id = "load";
        status = NodeStatus.success;
        started_at = 1;
        finished_at = some 2;
        input_metadata = [];
        output_metadata = [];
        error_type = none;
        error_message = none;
        checkpoint_id = some "first";
      }
      ∷ (record {
        execution_id = "entry-2";
        node_id = "train";
        status = NodeStatus.failed;
        started_at = 3;
        finished_at = some 4;
        input_metadata = [];
        output_metadata = [];
        error_type = some error_type;
        error_message = some message;
        checkpoint_id = none;
      }
          ∷ []);
  started_at = 0;
  finished_at = some 5;
}
