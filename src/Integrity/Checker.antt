-- ===== src/Integrity/Checker.antt =====
-- `ArtifactIntegrityChecker` of app/engine/core/integrity/checker.py, with models.py and errors.py
-- beside it. SHA-256, json, the clock and the reading and writing of files are parameters; the sidecar
-- file of an artifact is kept under the path of the artifact. The time of a check and the reasons are
-- left out.
use crucible_ai.Pipeline.Model.{Checkpoint, get_key}
use crucible_ai.Cache.Codec.{and_then}
use crucible_ai.Cache.Dicts.{has_key, put_key}
use crucible_ai.Recovery.Validator.{IntegrityStatus, passed, failed, no_manifest, artifact_missing}
use crucible_ai.Security.Events.{Item, other, text}
use crucible_ai.Pipeline.Checkpoints.{newest}
use crucible_ai.Prelude.{
  Bool, List, Option, String, [], false, get_or, if◌then◌else◌, is_some, keep, none, not, some,
  true, ◌&&◌, ◌==◌, ◌∷◌,
}

-- The fields hold what a JSON file holds there: a text, or another value.
pub record IntegrityManifest (J : Type 0) : Type 0 where
  pub algorithm : Item J
  pub checksum : Item J
  pub artifact_id : Item J
  pub artifact_version : Item J
  pub created_at : Item J
  pub execution_id : Item J
  pub dataset_fingerprint : Item J
  pub checkpoint_id : Item J

pub record IntegrityResult (J : Type 0) : Type 0 where
  pub valid : Bool
  pub status : IntegrityStatus
  pub expected_checksum : Option (Item J)
  pub actual_checksum : Option String

-- Files by the path of the artifact: its bytes, or `none` where they cannot be read; the text of its
-- sidecar file, or `none` where it cannot be read.
pub record Disk (B : Type 0) : Type 0 where
  pub artifacts : List (String × Option B)
  pub manifests : List (String × Option String)

-- What the caller of `verify` gets with `raise_on_failure`.
pub data Verification (J : Type 0) : Type 0 where
  accepted : IntegrityResult J → Verification J
  integrity_error checksum_mismatch missing_metadata : Verification J

-- json, and whether the sidecar file of an artifact can be written; `none` where the former raises, and
-- for a text that is no dictionary. `null` is None.
pub record Sidecar (J : Type 0) : Type 0 where
  pub null : J
  pub dumps : List (String × Item J) → Option String
  pub loads : String → Option (List (String × Item J))
  pub writes : String → Bool

module _ {J : Type 0} where
  -- `to_dict`
  unfoldable pub manifest_dict : IntegrityManifest J → List (String × Item J)
  manifest_dict m =
      ("algorithm", m.algorithm)
      ∷ ("checksum", m.checksum)
      ∷ ("artifact_id", m.artifact_id)
      ∷ ("artifact_version", m.artifact_version)
      ∷ ("created_at", m.created_at)
      ∷ ("execution_id", m.execution_id)
      ∷ ("dataset_fingerprint", m.dataset_fingerprint)
      ∷ ("checkpoint_id", m.checkpoint_id)
      ∷ []

  -- `from_dict`; `none` where a key is missing
  unfoldable pub manifest_from_dict : J → List (String × Item J) → Option (IntegrityManifest J)
  unfolding get_key
  manifest_from_dict null d = and_then (get_key "algorithm" d) (λ algorithm.
      and_then (get_key "checksum" d) (λ checksum.
        and_then (get_key "artifact_id" d) (λ artifact_id.
          and_then (get_key "created_at" d) (λ created_at.
            and_then (get_key "execution_id" d) (λ execution_id. some (record {
              algorithm = algorithm;
              checksum = checksum;
              artifact_id = artifact_id;
              artifact_version = get_or (get_key "artifact_version" d) (text "1.0");
              created_at = created_at;
              execution_id = execution_id;
              dataset_fingerprint = get_or (get_key "dataset_fingerprint" d) (text "");
              checkpoint_id = get_or (get_key "checkpoint_id" d) (other null);
            }))))))

  abbrev pub result : IntegrityStatus → Option (Item J) → Option String → IntegrityResult J
  result status expected actual = record {
    valid = false;
    status = status;
    expected_checksum = expected;
    actual_checksum = actual;
  }

  abbrev pub nullable : J → Option String → Item J
  nullable null none = other null
  nullable null (some s) = text s

  -- The manifest that `create_manifest` makes; `f"{model_name}:{execution_id}"` and the time are
  -- parameters.
  unfoldable pub manifest_of :
      J
      → (String → String → String)
      → String
      → String
      → String
      → String
      → Option String
      → String
      → IntegrityManifest J
  manifest_of null join now execution_id dataset_fingerprint model_name checkpoint_id checksum =
      record {
        algorithm = text "sha256";
        checksum = text checksum;
        artifact_id =
            text (if model_name == "" then execution_id else join model_name execution_id);
        artifact_version = text "1.0";
        created_at = text now;
        execution_id = text execution_id;
        dataset_fingerprint = text dataset_fingerprint;
        checkpoint_id = nullable null checkpoint_id;
      }

  abbrev pub is_checksum : String → Item J → Bool
  is_checksum actual (text s) = actual == s
  is_checksum actual (other j) = false

  unfoldable pub compare_checksum : IntegrityManifest J → Option String → IntegrityResult J
  compare_checksum manifest none = result failed (some manifest.checksum) none
  compare_checksum manifest (some actual) =
      if is_checksum actual manifest.checksum
      then record (result passed (some manifest.checksum) (some actual)) { valid = true }
      else result failed (some manifest.checksum) (some actual)

  unfoldable pub verify_with :
      Option (Option (IntegrityManifest J)) → Option String → IntegrityResult J
  unfolding compare_checksum
  verify_with none checksum = result no_manifest none none
  verify_with (some none) checksum = result failed none none
  verify_with (some (some manifest)) checksum = compare_checksum manifest checksum

  abbrev verdict_of : IntegrityStatus → IntegrityResult J → Verification J
  verdict_of passed r = accepted r
  verdict_of no_manifest r = missing_metadata
  verdict_of artifact_missing r = integrity_error
  verdict_of failed r =
      if is_some r.expected_checksum && is_some r.actual_checksum
      then checksum_mismatch
      else integrity_error

  -- `verify(..., raise_on_failure=True)`
  unfoldable pub verify_or_raise : IntegrityResult J → Verification J
  verify_or_raise r = verdict_of r.status r

module _ {B J : Type 0} (sha256 : B → String) (js : Sidecar J) where
  -- `compute_checksum`; `none` where it raises
  unfoldable pub compute_checksum : String → Disk B → Option String
  unfolding get_key
  compute_checksum path disk =
      and_then (get_key path disk.artifacts) (λ file. and_then file (λ bytes. some (sha256 bytes)))

  -- `_write_json_atomic`; `none` where it raises, which leaves the old file
  unfoldable pub write_json_atomic : String → List (String × Item J) → Disk B → Option (Disk B)
  unfolding put_key
  write_json_atomic path d disk =
      if js.writes path
      then and_then (js.dumps d)
          (λ t. some (record disk { manifests = put_key path (some t) disk.manifests }))
      else none

  -- `create_manifest`, from the manifest that it makes of a checksum; `none` where it raises
  unfoldable pub create_manifest :
      (String → IntegrityManifest J) → String → Disk B → Option (IntegrityManifest J × Disk B)
  unfolding compute_checksum write_json_atomic manifest_dict
  create_manifest make path disk = and_then (compute_checksum path disk) (λ checksum.
      and_then (write_json_atomic path (manifest_dict (make checksum)) disk)
        (λ after. some (make checksum, after)))

  -- Step 3 of `verify`: `some none` where the sidecar file cannot be read or parsed
  unfoldable pub load_manifest : String → Disk B → Option (Option (IntegrityManifest J))
  unfolding get_key manifest_from_dict
  load_manifest path disk =
      and_then (get_key path disk.manifests)
        (λ file. some (and_then file (λ t. and_then (js.loads t) (manifest_from_dict js.null))))

  -- `verify`
  unfoldable pub verify : String → Disk B → IntegrityResult J
  unfolding verify_with compute_checksum load_manifest has_key
  verify path disk =
      if has_key path disk.artifacts
      then verify_with (load_manifest path disk) (compute_checksum path disk)
      else result artifact_missing none none

-- `assess_checkpoint_trust`, its `trusted`
unfoldable pub is_trusted : Checkpoint → Bool
is_trusted c =
    (not (c.checkpoint_id == "")
      && (not (c.validation_status == "")
          && (not (c.node_id == "") && c.validation_status == "passed")))
    && not (c.data_hash == "")

-- `select_trusted_checkpoint`
unfoldable pub select_trusted_checkpoint : List Checkpoint → Option Checkpoint
unfolding is_trusted newest
select_trusted_checkpoint candidates = newest (keep is_trusted candidates)
