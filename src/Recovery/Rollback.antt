-- ===== src/Recovery/Rollback.antt =====
-- When a rollback succeeds.
use mathlib.Core.Bool.{false≢true}
use crucible_ai.Prelude.{
  Bool, Option, String, ap, arith, false, is_some, none, not, refl, some, true, ◌&&◌, ◌==◌, ◌∙◌,
  ◌≡◌,
}
use crucible_ai.Pipeline.Model.{Checkpoint, get_key}
use mathlib.Core.Path.{subst}
use crucible_ai.Pipeline.Runtime.{
  Exception, Runtime, State, Delivers, ok, Result, raise, artifact_file,
}
use crucible_ai.Pipeline.Checkpoints.{get, read_artifact, restore, restore_from, restore_path}
use crucible_ai.Recovery.Decision.{RecoveryDecision, rollback, RecoveryActionType}
use crucible_ai.Recovery.Report.{
  not_found, RecoveryState, RecoveryResult, recovery_checkpoint_restored, target_or, emit,
}
use crucible_ai.Recovery.Validator.{validate_checkpoint}
use crucible_ai.Recovery.Actions.{exists_in, restored, rollback_to, accept_rollback}
use crucible_ai.Recovery.Executor.{Request, execute, handle, dispatch}

module _ {V W : Type 0} where
  abbrev pub artifact_there : State V W → Option String → Bool
  artifact_there s none = true
  artifact_there s (some path) = is_some (get_key path s.artifacts)

  -- A checkpoint that may be rolled back to: an identifier, the status "passed", a hash, and the file
  -- of its artifact, if it has one.
  unfoldable pub is_sound : State V W → Checkpoint → Bool
  is_sound s c =
      not (c.checkpoint_id == "")
      && (c.validation_status == "passed"
          && (not (c.data_hash == "") && artifact_there s c.artifact_path))

  pub validate-is_sound :
      (s : State V W) (c : Checkpoint) → (validate_checkpoint (exists_in s) c).passed ≡ is_sound s c
  unfolding validate_checkpoint get_key is_sound
  validate-is_sound s c = ground arith

module _ {V W : Type 0} (rt : Runtime V W) where
  -- The file of the artifact, if there is one, can be opened and holds JSON.
  abbrev pub is_readable : State V W → Option String → Bool
  is_readable s none = true
  is_readable s (some path) = not (is_some (rt.load_error (artifact_file path) s.world))

  abbrev pub sound_if_found : State V W → Option Checkpoint → Bool
  sound_if_found s none = false
  sound_if_found s (some c) = is_sound s c && is_readable s c.artifact_path

  abbrev pub restorable : Option String → State V W → Bool
  restorable none s = false
  restorable (some k) s = sound_if_found s (get k s.checkpoints)

  abbrev pub Exact : Bool → RecoveryState V W → RecoveryResult → RecoveryState V W → Type 0
  Exact b s r t = (r.success ≡ b) × (t.base ≡ s.base)

  -- Whether the artifact of a checkpoint whose file exists is restored.
  abbrev Yields : Bool → Result V → Type 0
  Yields true r = (x : V) × (r ≡ ok x)
  Yields false r = (e : Exception) × (r ≡ raise e)

  read-Yields :
      (o : Option Exception) (f : Option V)
      → is_some f ≡ true
      → Yields (not (is_some o)) (read_artifact rt o f)
  unfolding read_artifact
  read-Yields o none h = absurd (false≢true h)
  read-Yields none (some x) h = (x, refl)
  read-Yields (some e) (some x) h = (e, refl)

  restore_path-Yields :
      (p : Option String) (s : State V W)
      → artifact_there s p ≡ true
      → Yields (is_readable s p) (restore_path rt p s)
  unfolding restore_path
  restore_path-Yields none s h = (rt.none_value, refl)
  restore_path-Yields (some path) s h =
      read-Yields (rt.load_error (artifact_file path) s.world) (get_key path s.artifacts) h

  found_path :
      (k : String) (c : Checkpoint) (s : RecoveryState V W)
      → get k s.base.checkpoints ≡ some c
      → restore rt k s.base ≡ restore_path rt c.artifact_path s.base
  unfolding restore restore_from
  found_path k c s e = ap (λ o. restore_from rt o s.base) e

  restored-there :
      (k : String) (c : Checkpoint) (s : RecoveryState V W)
      → get k s.base.checkpoints ≡ some c
      → artifact_there s.base c.artifact_path ≡ true
      → is_readable s.base c.artifact_path ≡ true
      → (x : V) × (restored rt k s ≡ (ok x, s))
  unfolding restored
  restored-there k c s e h b =
      let (x, p) =
        subst (λ z. Yields z (restore_path rt c.artifact_path s.base)) b
          (restore_path-Yields c.artifact_path s.base h) in
      (x, rw (found_path k c s e ∙ p, restored))

  restored-unreadable :
      (k : String) (c : Checkpoint) (s : RecoveryState V W)
      → get k s.base.checkpoints ≡ some c
      → artifact_there s.base c.artifact_path ≡ true
      → is_readable s.base c.artifact_path ≡ false
      → restored rt k s ≡ (raise not_found, s)
  unfolding restored
  restored-unreadable k c s e h b =
      let (x, p) =
        subst (λ z. Yields z (restore_path rt c.artifact_path s.base)) b
          (restore_path-Yields c.artifact_path s.base h) in
      rw (found_path k c s e ∙ p, restored)

  is_sound-there :
      (s : State V W) (c : Checkpoint)
      → is_sound s c ≡ true
      → artifact_there s c.artifact_path ≡ true
  unfolding is_sound
  is_sound-there s c h = ground arith

  accept_rollback-Exact :
      (d : RecoveryDecision) (c : Checkpoint) (s : RecoveryState V W)
      → is_sound s.base c ≡ true
      → Delivers (Exact true s) (accept_rollback rt d c s)
  unfolding accept_rollback
  accept_rollback-Exact d c s h = rw (validate-is_sound s.base c ∙ h) (refl, refl)

  handle-Exact :
      (d : RecoveryDecision) (b : Bool) (s : RecoveryState V W)
      (m : Result RecoveryResult × RecoveryState V W)
      → Delivers (Exact b s) m
      → Delivers (Exact b s) (handle d m)
  unfolding handle
  handle-Exact d b s (ok r, t) h = h
  handle-Exact d b s (raise e, t) h = absurd h

  rollback_sound :
      (d : RecoveryDecision) (k : String) (c : Checkpoint) (s : RecoveryState V W)
      → get k s.base.checkpoints ≡ some c
      → is_sound s.base c ≡ true
      → is_readable s.base c.artifact_path ≡ true
      → Delivers (Exact true s) (rollback_to rt d (some k) s)
  unfolding rollback_to
  rollback_sound d k c s e h b =
      let s' = (emit (target_or "pipeline" d) recovery_checkpoint_restored s).1 in
      let (x, p) = restored-there k c s' e (is_sound-there s.base c h) b in
      rw e (rw (validate-is_sound s.base c ∙ h) (rw p (accept_rollback-Exact d c _ h)))

  rollback_unreadable :
      (d : RecoveryDecision) (k : String) (c : Checkpoint) (s : RecoveryState V W)
      → get k s.base.checkpoints ≡ some c
      → is_sound s.base c ≡ true
      → is_readable s.base c.artifact_path ≡ false
      → Delivers (Exact false s) (handle d (rollback_to rt d (some k) s))
  unfolding rollback_to handle
  rollback_unreadable d k c s e h b =
      let s' = (emit (target_or "pipeline" d) recovery_checkpoint_restored s).1 in
      rw e (
        rw (validate-is_sound s.base c ∙ h)
          (rw (restored-unreadable k c s' e (is_sound-there s.base c h) b) (refl, refl)))

  rollback_some :
      (d : RecoveryDecision) (k : String) (c : Checkpoint) (a b : Bool) (s : RecoveryState V W)
      → get k s.base.checkpoints ≡ some c
      → is_sound s.base c ≡ a
      → is_readable s.base c.artifact_path ≡ b
      → Delivers (Exact (a && b) s) (handle d (rollback_to rt d (some k) s))
  unfolding rollback_to handle
  rollback_some d k c true true s e h g = handle-Exact d true s _ (rollback_sound d k c s e h g)
  rollback_some d k c true false s e h g = rollback_unreadable d k c s e h g
  rollback_some d k c false b s e h g = rw e (rw (validate-is_sound s.base c ∙ h) (refl, refl))

  rollback_found :
      (d : RecoveryDecision) (k : String) (o : Option Checkpoint) (s : RecoveryState V W)
      → get k s.base.checkpoints ≡ o
      → Delivers (Exact (sound_if_found s.base o) s) (handle d (rollback_to rt d (some k) s))
  unfolding rollback_to handle
  rollback_found d k none s e = rw e (refl, refl)
  rollback_found d k (some c) s e =
      rollback_some d k c (is_sound s.base c) (is_readable s.base c.artifact_path) s e refl refl

  rollback_to-Exact :
      (d : RecoveryDecision) (k : Option String) (s : RecoveryState V W)
      → Delivers (Exact (restorable k s.base) s) (handle d (rollback_to rt d k s))
  unfolding handle rollback_to
  rollback_to-Exact d none s = (refl, refl)
  rollback_to-Exact d (some k) s = rollback_found d k (get k s.base.checkpoints) s refl

  dispatch-Exact :
      (a : RecoveryActionType) (d : RecoveryDecision) (q : Request V W) (s : RecoveryState V W)
      → a ≡ rollback
      → Delivers (Exact (restorable d.checkpoint_id s.base) s) (handle d (dispatch rt a d q s))
  unfolding dispatch
  dispatch-Exact rollback d q s e = rollback_to-Exact d d.checkpoint_id s
  dispatch-Exact _ d q s e = absurd (ground arith)

  -- A rollback succeeds exactly when the manager holds a checkpoint under the decision's identifier
  -- that is sound and whose artifact, if it has one, can be opened and parsed; and whether it succeeds
  -- or not, nothing but the list of events changes.
  pub rollback-Exact :
      (d : RecoveryDecision) (q : Request V W) (s : RecoveryState V W)
      → d.action ≡ rollback
      → Delivers (Exact (restorable d.checkpoint_id s.base) s) (execute rt d q s)
  unfolding execute
  rollback-Exact d q s a = dispatch-Exact d.action d q _ a
