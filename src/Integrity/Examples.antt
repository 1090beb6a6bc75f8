-- ===== src/Integrity/Examples.antt =====
-- The theorems on integrity at concrete data: the bytes are texts, and a table gives their hashes.
use crucible_ai.Integrity.Checker.{
  Disk, IntegrityManifest, Sidecar, create_manifest, load_manifest, manifest_dict, manifest_of,
  verify,
}
use crucible_ai.Integrity.Tampering.{overwrite, verify-create_manifest}
use crucible_ai.Security.Events.{text}
use crucible_ai.Prelude.{String, [], if◌then◌else◌, none, refl, some, true, ◌==◌, ◌≡◌}

abbrev digest : String → String
digest s = if s == "weights" then "a1" else "b2"

abbrev join : String → String → String
join model run = "model:run"

abbrev manifest : IntegrityManifest String
manifest = manifest_of "null" join "now" "run" "" "model" none "a1"

-- json with one text, which stands for the manifest.
abbrev json : Sidecar String
json = record {
  null = "null";
  dumps = λ d. some "file";
  loads = λ t. some (manifest_dict manifest);
  writes = λ path. true;
}

abbrev blank : Disk String
blank = record { artifacts = []; manifests = [] }

verify-create_manifest_example :
    (d : Disk String) × (create_manifest digest json
        (manifest_of "null" join "now" "run" "" "model" none)
        "model.joblib"
        (overwrite "model.joblib" "weights" blank)
      ≡ some (manifest_of "null" join "now" "run" "" "model" none (digest "weights"), d))
    × (load_manifest digest json "model.joblib" d
        ≡ some (some (manifest_of "null" join "now" "run" "" "model" none (digest "weights"))))
    × ((verify digest json "model.joblib" (overwrite "model.joblib" "other" d)).valid
        ≡ (digest "other" == digest "weights"))
    × ((verify digest json "model.joblib" (overwrite "model.joblib" "other" d)).expected_checksum
        ≡ some (text (digest "weights")))
    × ((verify digest json "model.joblib" (overwrite "model.joblib" "other" d)).actual_checksum
        ≡ some (digest "other"))
verify-create_manifest_example =
    verify-create_manifest digest json join "now" "run" "" "model" none "model.joblib" "file"
      "weights" "other" blank refl refl (manifest_dict manifest, refl, λ k. refl)
