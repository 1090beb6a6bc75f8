-- ===== src/Recovery/Validator.antt =====
-- app/engine/core/recovery/validator.py and the validation records of models.py. The messages of
-- checks are left out. `exists` tells whether a path exists on the disk.
use crucible_ai.Prelude.{
  Bool, List, Option, String, [], any, false, is_some, keep, map, none, not, some, true, ◌&&◌, ◌++◌,
  ◌==◌, ◌||◌, ◌∷◌,
}
use crucible_ai.Pipeline.Model.{Meta, names, get_key, NodeExecution, Checkpoint, is_success}

pub record ValidationCheck : Type 0 where
  pub name : String
  pub passed : Bool

pub record ValidationResult : Type 0 where
  pub passed : Bool
  pub checks : List ValidationCheck
  pub failures : List String

abbrev check : String → Bool → ValidationCheck
check name passed = record { name = name; passed = passed }

abbrev is_empty {ℓ} : {A : Type ℓ} → List A → Bool
is_empty [] = true
is_empty (_ ∷ _) = false

abbrev pub failed_names : List ValidationCheck → List String
failed_names checks =
    map (λ (c : ValidationCheck). c.name) (keep (λ (c : ValidationCheck). not c.passed) checks)

-- `_build_result`
unfoldable pub build_result : List ValidationCheck → ValidationResult
build_result checks =
    let failures = failed_names checks in
    record { passed = is_empty failures; checks = checks; failures = failures }

-- `c in columns`
abbrev member : String → List String → Bool
member c columns = any (λ d. c == d) columns

-- `columns` as the dictionary has it; the pipeline stores a list of names there.
unfoldable pub columns_match : List String → Option Meta → Bool
columns_match expected (some (names actual)) = is_empty (keep (λ c. not (member c actual)) expected)
columns_match expected _ = false

schema_checks : Option (List String) → NodeExecution → List ValidationCheck
schema_checks none n = []
schema_checks (some expected) n =
    check "schema_columns_match" (columns_match expected (get_key "columns" n.output_metadata)) ∷ []

-- The list `checks` of `validate_node_execution`.
unfoldable pub node_checks : NodeExecution → Option (List String) → List ValidationCheck
unfolding schema_checks columns_match get_key
node_checks n expected =
    check "node_status_success" (is_success n.status)
    ∷ (check "no_unresolved_error"
          (not (is_some n.error_type) && not (is_some n.error_message) || not (is_success n.status))
        ∷ (check "output_metadata_present" (not (is_empty n.output_metadata))
            ∷ schema_checks expected n))

-- `validate_node_execution`
unfoldable pub validate_node_execution : NodeExecution → Option (List String) → ValidationResult
unfolding node_checks build_result
validate_node_execution n expected = build_result (node_checks n expected)

path_ok : (String → Bool) → Option String → Bool
path_ok exists none = true
path_ok exists (some path) = exists path

-- The list `checks` of `validate_checkpoint`.
unfoldable pub checkpoint_checks : (String → Bool) → Checkpoint → List ValidationCheck
unfolding path_ok
checkpoint_checks exists c =
    check "checkpoint_id_present" (not (c.checkpoint_id == ""))
    ∷ (check "validation_status_passed" (c.validation_status == "passed")
        ∷ (check "data_hash_present" (not (c.data_hash == ""))
            ∷ (check "artifact_path_exists" (path_ok exists c.artifact_path) ∷ [])))

-- `validate_checkpoint`
unfoldable pub validate_checkpoint : (String → Bool) → Checkpoint → ValidationResult
unfolding checkpoint_checks build_result
validate_checkpoint exists c = build_result (checkpoint_checks exists c)

optional_checks : (String → Bool) → Option Checkpoint → List ValidationCheck
optional_checks exists none = []
optional_checks exists (some c) = (validate_checkpoint exists c).checks

-- `validate_full`
unfoldable pub validate_full :
    (String → Bool) → NodeExecution → Option Checkpoint → Option (List String) → ValidationResult
unfolding optional_checks validate_node_execution validate_checkpoint
validate_full exists n checkpoint expected =
    build_result ((validate_node_execution n expected).checks ++ optional_checks exists checkpoint)

-- app/engine/core/integrity/models.py
pub data IntegrityStatus : Type 0 where
  passed failed no_manifest artifact_missing : IntegrityStatus

abbrev acceptable : Option IntegrityStatus → Bool
acceptable (some passed) = true
acceptable (some no_manifest) = true
acceptable _ = false

exists_on_disk : (String → Bool) → Option String → Bool
exists_on_disk exists none = false
exists_on_disk exists (some path) = exists path

-- `validate_artifact_integrity`, given the status of the integrity result, if there is one.
unfoldable pub validate_artifact_integrity :
    (String → Bool) → Option String → Option IntegrityStatus → ValidationResult
unfolding exists_on_disk build_result
validate_artifact_integrity exists path status = build_result (
    check "artifact_path_provided" (is_some path)
    ∷ (check "artifact_exists_on_disk" (exists_on_disk exists path)
        ∷ (check "integrity_check_was_performed" (is_some status)
            ∷ (check "integrity_check_passed" (acceptable status) ∷ []))))
