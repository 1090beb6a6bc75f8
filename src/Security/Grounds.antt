-- ===== src/Security/Grounds.antt =====
-- When a decision proposes a rollback, and to what.
use crucible_ai.Integrity.Checker.{select_trusted_checkpoint}
use crucible_ai.Integrity.Trust.{Selected, select_trusted_checkpoint-Selected}
use crucible_ai.Pipeline.Model.{Checkpoint}
use crucible_ai.Recovery.Validator.{IntegrityStatus, artifact_missing, failed, no_manifest, passed}
use crucible_ai.Security.Policy.{
  candidates_of, choose_action, find_trusted_checkpoint, has_text, id_of, trusted_of,
}
use crucible_ai.Prelude.{
  Bool, Bool-cases, List, Option, String, false, inl, inr, none, refl, some, true, ◌&&◌, ◌==◌, ◌||◌,
  ◌≡◌,
}

abbrev pub proposes_rollback : String → Bool
proposes_rollback a = a == "quarantine_and_rollback" || a == "rollback_to_trusted"

-- The artifact is there, but not what its manifest says or without one.
abbrev pub is_unverified : IntegrityStatus → Bool
is_unverified failed = true
is_unverified no_manifest = true
is_unverified artifact_missing = false
is_unverified passed = false

pub choose_action-proposes :
    (t : IntegrityStatus) (o : Option String)
    → proposes_rollback (choose_action t o) ≡ is_unverified t && has_text o
unfolding choose_action
choose_action-proposes failed o = elim (Bool-cases (has_text o)) [
  | inl e ↦ rw e refl
  | inr e ↦ rw e refl
]
choose_action-proposes no_manifest o = elim (Bool-cases (has_text o)) [
  | inl e ↦ rw e refl
  | inr e ↦ rw e refl
]
choose_action-proposes artifact_missing o = refl
choose_action-proposes passed o = refl

-- The checkpoint that is named is the newest trusted one of the candidates, which are those of the
-- execution where it has any.
abbrev pub IsGrounded : Option (List Checkpoint) → String → Option String → Type 0
IsGrounded none execution o = o ≡ none
IsGrounded (some known) execution o =
    (c : Option Checkpoint) × Selected (candidates_of known execution) c × (o ≡ id_of c)

pub trusted_of-IsGrounded :
    (cs : Option (List Checkpoint)) (execution : String)
    → IsGrounded cs execution (trusted_of cs execution)
unfolding find_trusted_checkpoint
trusted_of-IsGrounded none execution = refl
trusted_of-IsGrounded (some known) execution = (
  select_trusted_checkpoint (candidates_of known execution),
  select_trusted_checkpoint-Selected (candidates_of known execution),
  refl,
)
