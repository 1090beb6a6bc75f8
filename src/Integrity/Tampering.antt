-- ===== src/Integrity/Tampering.antt =====
-- What a verification after a manifest was written tells of the artifact.
use crucible_ai.Integrity.Checker.{
  Disk, IntegrityManifest, Sidecar, compare_checksum, compute_checksum, create_manifest,
  load_manifest, manifest_dict, manifest_from_dict, manifest_of, verify_with, verify,
  write_json_atomic, IntegrityResult,
}
use crucible_ai.Security.Events.{Item, text}
use crucible_ai.Pipeline.Model.{get_key}
use crucible_ai.Cache.Codec.{and_then}
use crucible_ai.Cache.Dicts.{has_key, put_key}
use crucible_ai.Prelude.{
  Bool-cases, List, Option, String, [], ap, eq_self, inl, inr, refl, some, true, ◌==◌, ◌∙◌, ◌∷◌,
  ◌≡◌,
}

-- The artifact is written anew, with some bytes.
abbrev pub overwrite : {B : Type 0} → String → B → Disk B → Disk B
overwrite path bytes disk = record disk { artifacts = put_key path (some bytes) disk.artifacts }

module _ {B J : Type 0} (sha256 : B → String) (js : Sidecar J) where
  get-put :
      {A : Type 0} (k : String) (x : A) (m : List (String × A))
      → (get_key k (put_key k x m) ≡ some x) × (has_key k (put_key k x m) ≡ true)
  unfolding put_key get_key has_key
  get-put k x [] = (rw (eq_self k) refl, rw (eq_self k) refl)
  get-put k x ((j, a) ∷ m) = elim (Bool-cases (j == k)) [
    | inl q ↦ (rw (q, eq_self k) refl, rw (q, eq_self k) refl)
    | inr q ↦ (rw (q, q) (get-put k x m).0, rw (q, q) (get-put k x m).1)
  ]

  checksum-overwrite :
      (path : String) (bytes : B) (disk : Disk B)
      → compute_checksum sha256 js path (overwrite path bytes disk) ≡ some (sha256 bytes)
  unfolding compute_checksum
  checksum-overwrite path bytes disk = rw (get-put path (some bytes) disk.artifacts).0 refl

  compared :
      (m : IntegrityManifest J) (expected actual : String)
      → m.checksum ≡ text expected
      → ((compare_checksum m (some actual)).valid ≡ (actual == expected))
        × ((compare_checksum m (some actual)).expected_checksum ≡ some (text expected))
        × ((compare_checksum m (some actual)).actual_checksum ≡ some actual)
  unfolding compare_checksum
  compared m expected actual h = elim (Bool-cases (actual == expected)) [
    | inl q ↦ rw (compare_checksum, h, q) (refl, refl, refl)
    | inr q ↦ rw (compare_checksum, h, q) (refl, refl, refl)
  ]

  -- json reads a text as a dictionary with the same values under all keys, in whatever order.
  abbrev pub ReadsBack : List (String × Item J) → String → Type 0
  ReadsBack d t =
      (d' : List (String × Item J)) × (js.loads t ≡ some d')
      × ((k : String) → get_key k d' ≡ get_key k d)

  from_dict-ReadsBack :
      (m : IntegrityManifest J) (t : String)
      → ReadsBack (manifest_dict m) t
      → and_then (js.loads t) (manifest_from_dict js.null) ≡ some m
  unfolding manifest_from_dict manifest_dict get_key
  from_dict-ReadsBack m t (d', e, h) =
      rw
        (
          e,
          manifest_from_dict,
          h "algorithm",
          h "checksum",
          h "artifact_id",
          h "created_at",
          h "execution_id",
          h "artifact_version",
          h "dataset_fingerprint",
          h "checkpoint_id",
        )
        refl

  verify-overwrite :
      (path t : String) (m : IntegrityManifest J) (after : B) (disk : Disk B)
      → get_key path disk.manifests ≡ some (some t)
      → and_then (js.loads t) (manifest_from_dict js.null) ≡ some m
      → verify sha256 js path (overwrite path after disk) ≡ compare_checksum m (some (sha256 after))
  unfolding verify verify_with load_manifest
  verify-overwrite path t m after disk e l =
      rw ((get-put path (some after) disk.artifacts).1, e, l, checksum-overwrite path after disk)
        refl

  -- Where the sidecar file can be written and json reads back the dictionary of the manifest: creating
  -- a manifest for an artifact ends with a manifest, which is read back as it was. A verification of
  -- what is in the file later is valid exactly where it has the hash that the artifact had then, and
  -- says which two hashes it has compared: an artifact that is left alone passes, one that is replaced
  -- by bytes with another hash fails.
  pub verify-create_manifest :
      (join : String → String → String) (now execution fingerprint model : String)
      (checkpoint : Option String) (path t : String) (before after : B) (disk : Disk B)
      → js.writes path ≡ true
      → js.dumps (
          manifest_dict
            (manifest_of js.null join now execution fingerprint model checkpoint (sha256 before)))
        ≡ some t
      → ReadsBack
          (manifest_dict
            (manifest_of js.null join now execution fingerprint model checkpoint (sha256 before)))
          t
      → (d : Disk B) × (create_manifest sha256 js
            (manifest_of js.null join now execution fingerprint model checkpoint)
            path
            (overwrite path before disk)
          ≡ some (
            manifest_of js.null join now execution fingerprint model checkpoint (sha256 before),
            d,
          ))
        × (load_manifest sha256 js path d
            ≡ some (
                some (
                  manifest_of js.null join now execution fingerprint model checkpoint
                    (sha256 before))))
        × ((verify sha256 js path (overwrite path after d)).valid ≡ (sha256 after == sha256 before))
        × ((verify sha256 js path (overwrite path after d)).expected_checksum
            ≡ some (text (sha256 before)))
        × ((verify sha256 js path (overwrite path after d)).actual_checksum ≡ some (sha256 after))
  unfolding create_manifest write_json_atomic load_manifest manifest_of
  verify-create_manifest join now execution fingerprint model checkpoint path t before after disk w
        u b =
      let m = manifest_of js.null join now execution fingerprint model checkpoint (sha256 before) in
      let d : Disk B = record (overwrite path before disk) {
        manifests = put_key path (some t) disk.manifests;
      } in
      let l = from_dict-ReadsBack m t b in
      let g = (get-put path (some t) disk.manifests).0 in
      let v = verify-overwrite path t m after d g l in
      let (x, y, z) = compared m (sha256 before) (sha256 after) manifest_checksum in
      (
        d,
        rw (checksum-overwrite path before disk, w, u) refl,
        rw (g, l) refl,
        ap (λ (r : IntegrityResult J). r.valid) v ∙ x,
        ap (λ (r : IntegrityResult J). r.expected_checksum) v ∙ y,
        ap (λ (r : IntegrityResult J). r.actual_checksum) v ∙ z,
      )
    where
      manifest_checksum :
          (manifest_of js.null join now execution fingerprint model checkpoint
            (sha256 before)).checksum
          ≡ text (sha256 before)
      manifest_checksum = refl
