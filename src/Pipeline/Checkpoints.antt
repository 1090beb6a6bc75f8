-- ===== src/Pipeline/Checkpoints.antt =====
-- `CheckpointManager` of app/engine/core/pipeline/checkpoints/manager.py.
use crucible_ai.Prelude.{
  Bool, List, Option, String, [], find?, get_or, if◌then◌else◌, keep, ltb, none, some, ◌&&◌, ◌++◌,
  ◌==◌, ◌∷◌,
}
use crucible_ai.Pipeline.Model.{Metadata, Checkpoint, get_key}
use crucible_ai.Pipeline.Runtime.{
  Exception, Result, ok, raise, Runtime, State, Exec, pure, ◌>>=◌, ◌>>◌, read_clock, draw_uuid,
  artifact_file, metadata_file,
}

-- `max(candidates, key=created_at)`: the first of those with the greatest time.
unfoldable pub newest_from : Checkpoint → List Checkpoint → Checkpoint
newest_from best [] = best
newest_from best (c ∷ cs) = newest_from (if ltb best.created_at c.created_at then c else best) cs

unfoldable pub newest : List Checkpoint → Option Checkpoint
unfolding newest_from
newest [] = none
newest (c ∷ cs) = some (newest_from c cs)

unfoldable pub is_candidate : Option String → Checkpoint → Bool
is_candidate none c = c.validation_status == "passed"
is_candidate (some eid) c = c.validation_status == "passed" && c.execution_id == eid

-- `last_known_good`, over the values of the dictionary in the order of insertion.
unfoldable pub last_known_good : Option String → List Checkpoint → Option Checkpoint
unfolding newest is_candidate
last_known_good execution_id checkpoints = newest (keep (is_candidate execution_id) checkpoints)

-- `get`
unfoldable pub get : String → List Checkpoint → Option Checkpoint
get checkpoint_id checkpoints =
    find? (λ (c : Checkpoint). c.checkpoint_id == checkpoint_id) checkpoints

abbrev pub os_error : Exception
os_error = record { type_name = "OSError"; message = "cannot write" }

abbrev pub json_error : Exception
json_error = record { type_name = "JSONDecodeError"; message = "invalid JSON" }

abbrev pub key_error : Exception
key_error = record { type_name = "KeyError"; message = "Checkpoint not found" }

abbrev pub file_not_found : Exception
file_not_found = record { type_name = "FileNotFoundError"; message = "Checkpoint artifact missing" }

module _ {V W : Type 0} (rt : Runtime V W) where
  -- A branch of `_serialize` that passes on to the next where its object is absent or is refused.
  dump_or : W → Option V → String → String
  dump_or w none next = next
  dump_or w (some x) next = get_or (rt.dumps x w) next

  -- `_serialize`
  unfoldable pub serialize : V → W → String
  unfolding dump_or
  serialize x w =
      if rt.is_none x
      then "null"
      else dump_or w (if rt.is_native x then some x else none) (
          dump_or w (if rt.is_dataclass x then rt.as_dict x w else none)
            (dump_or w (rt.to_dict x w) (dump_or w (rt.object_dict x w) (rt.dumps_repr x w))))

  -- `_hash_artifact`
  unfoldable pub hash_artifact : V → W → String
  hash_artifact x w = rt.sha256 (serialize x w)

  unfoldable pub write_artifact : String → Option V → Exec (State V W) String
  write_artifact path none s = (raise json_error, s)
  write_artifact path (some parsed) s =
      if rt.writable (artifact_file path) s.world
      then (ok path, record s { artifacts = (path, parsed) ∷ s.artifacts })
      else (raise os_error, s)

  -- `_store_artifact`; the path is named by the checkpoint's identifier.
  unfoldable pub store_artifact : String → V → Exec (State V W) String
  unfolding write_artifact
  store_artifact checkpoint_id x s = write_artifact checkpoint_id (rt.loads (serialize x s.world)) s

  -- `_persist_metadata`
  unfoldable pub persist_metadata : String → Exec (State V W) (Unit {0})
  persist_metadata checkpoint_id s =
      if rt.writable (metadata_file checkpoint_id) s.world
      then (ok tt, record s { metadata_files = checkpoint_id ∷ s.metadata_files })
      else (raise os_error, s)

  unfoldable pub store_if_present : String → V → Exec (State V W) (Option String)
  unfolding store_artifact
  store_if_present checkpoint_id x s =
      if rt.is_none x
      then (ok none, s)
      else (do path ← store_artifact checkpoint_id x; pure (some path)) s

  -- `self._checkpoints[checkpoint_id] = checkpoint`, for an identifier just drawn.
  unfoldable pub register : Checkpoint → Exec (State V W) (Unit {0})
  register c s = (ok tt, record s { checkpoints = s.checkpoints ++ c ∷ [] })

  abbrev pub hash_now : V → Exec (State V W) String
  hash_now x s = (ok (hash_artifact x s.world), s)

  -- `create`
  unfoldable pub create :
      String
      → String
      → V
      → String
      → Metadata
      → Metadata
      → String
      → String
      → Exec (State V W) Checkpoint
  unfolding store_if_present register persist_metadata read_clock draw_uuid
  create execution_id node_id artifact node_version input_schema output_schema status node_type = do
    checkpoint_id ← draw_uuid rt
    data_hash ← hash_now artifact
    path ← store_if_present checkpoint_id artifact
    created_at ← read_clock rt
    let checkpoint : Checkpoint = record {
      checkpoint_id = checkpoint_id;
      execution_id = execution_id;
      node_id = node_id;
      created_at = created_at;
      node_version = node_version;
      data_hash = data_hash;
      input_schema = input_schema;
      output_schema = output_schema;
      artifact_path = path;
      validation_status = status;
      node_type = node_type;
    }
    register checkpoint
    persist_metadata checkpoint_id
    pure checkpoint

  -- `path.exists()`, then the opening and the parsing of the file, either of which may raise
  unfoldable pub read_artifact : Option Exception → Option V → Result V
  read_artifact trouble none = raise file_not_found
  read_artifact none (some x) = ok x
  read_artifact (some e) (some x) = raise e

  unfoldable pub restore_path : Option String → State V W → Result V
  unfolding read_artifact get_key
  restore_path none s = ok rt.none_value
  restore_path (some path) s =
      read_artifact (rt.load_error (artifact_file path) s.world) (get_key path s.artifacts)

  unfoldable pub restore_from : Option Checkpoint → State V W → Result V
  unfolding restore_path
  restore_from none s = raise key_error
  restore_from (some c) s = restore_path c.artifact_path s

  -- `restore`
  unfoldable pub restore : String → State V W → Result V
  unfolding restore_from get
  restore checkpoint_id s = restore_from (get checkpoint_id s.checkpoints) s
