-- ===== src/Security/Audit.antt =====
-- app/engine/core/security/audit.py: the in-memory and the JSONL backend and `SecurityAuditLogger`,
-- with `to_dict` of models.py beside it. A file is a list of code points. json and the isoformat of
-- datetime are parameters, and each write to the file may fail. The locks, the creation of the folder
-- and an error while the file is read are left out; spaces are those of ASCII.
use crucible_ai.Pipeline.Model.{get_key}
use crucible_ai.Cache.Codec.{and_then}
use crucible_ai.Security.Events.{
  Item, SecurityAuditEvent, SecurityEventType, SecuritySeverity, artifact_load_blocked,
  artifact_loaded_unverified, artifact_quarantined, critical, high, info, integrity_check_failed,
  integrity_check_passed, integrity_check_started, other, recovery_blocked_integrity,
  security_audit_recorded, security_review_required, severity_value, text,
  trusted_checkpoint_selected, type_value, untrusted_checkpoint_rejected, warning,
}
use crucible_ai.Prelude.{
  Bool, List, Option, String, [], codes, contains, false, if◌then◌else◌, keep, leb, length, none,
  reverse, some, suc, zero, ℕ, ◌&&◌, ◌++◌, ◌==◌, ◌||◌, ◌∷◌,
}

-- A value of the dictionary of an event.
pub data Value (J : Type 0) : Type 0 where
  item : Item J → Value J
  dict : List (String × Item J) → Value J

-- `json.dumps`, `json.loads`, `datetime.isoformat` and `datetime.fromisoformat`; `none` where they
-- raise, and for a text that cannot be encoded.
pub record Json (J : Type 0) : Type 0 where
  pub dumps : List (String × Value J) → Option (List ℕ)
  pub loads : List ℕ → Option (List (String × Value J))
  pub isoformat : ℕ → String
  pub fromisoformat : String → Option ℕ

all_types : List SecurityEventType
all_types =
    integrity_check_started ∷ integrity_check_passed ∷ integrity_check_failed ∷ artifact_quarantined
    ∷ security_review_required ∷ trusted_checkpoint_selected ∷ untrusted_checkpoint_rejected
    ∷ recovery_blocked_integrity ∷ security_audit_recorded ∷ artifact_loaded_unverified
    ∷ artifact_load_blocked ∷ []

all_severities : List SecuritySeverity
all_severities = info ∷ warning ∷ high ∷ critical ∷ []

abbrev pub of_value : {A : Type 0} → (A → String) → List A → String → Option A
of_value f [] s = none
of_value f (x ∷ xs) s = let rest = of_value f xs s in if f x == s then some x else rest

-- `SecurityEventType(value)` and `SecuritySeverity(value)`
unfoldable pub type_of_value : String → Option SecurityEventType
unfolding all_types
type_of_value = of_value type_value all_types

unfoldable pub severity_of_value : String → Option SecuritySeverity
unfolding all_severities
severity_of_value = of_value severity_value all_severities

abbrev pub is_space : ℕ → Bool
is_space c = leb c 32 && (leb 32 c || leb 28 c || (leb 9 c && leb c 13))

abbrev pub drop_spaces : List ℕ → List ℕ
drop_spaces [] = []
drop_spaces (c ∷ cs) = let rest = drop_spaces cs in if is_space c then rest else c ∷ cs

-- `line.strip()`
unfoldable pub strip : List ℕ → List ℕ
strip cs = reverse (drop_spaces (reverse (drop_spaces cs)))

abbrev pub is_break : ℕ → Bool
is_break c = leb c 10 && leb 10 c || leb c 13 && leb 13 c

abbrev pub prepend : ℕ → List (List ℕ) → List (List ℕ)
prepend c [] = (c ∷ []) ∷ []
prepend c (l ∷ ls) = (c ∷ l) ∷ ls

-- The lines of a file that is iterated, without their ends.
abbrev pub lines_of : List ℕ → List (List ℕ)
lines_of [] = []
lines_of (c ∷ cs) = let rest = lines_of cs in if is_break c then [] ∷ rest else prepend c rest

abbrev pub first_of : ℕ → List ℕ → List ℕ
first_of zero cs = []
first_of (suc k) [] = []
first_of (suc k) (c ∷ cs) = c ∷ first_of k cs

module _ {J : Type 0} (json : Json J) where
  unfoldable pub to_dict : SecurityAuditEvent J → List (String × Value J)
  to_dict e =
      ("event_id", item (text e.event_id))
      ∷ ("event_type", item (text (type_value e.event_type)))
      ∷ ("execution_id", item (text e.execution_id))
      ∷ ("component", item (text e.component))
      ∷ ("severity", item (text (severity_value e.severity)))
      ∷ ("timestamp", item (text (json.isoformat e.timestamp)))
      ∷ ("action", item (text e.action))
      ∷ ("reason", item (text e.reason))
      ∷ ("metadata", dict e.metadata)
      ∷ []

  abbrev pub text_of : Value J → Option String
  text_of (item (text s)) = some s
  text_of (item (other j)) = none
  text_of (dict m) = none

  abbrev pub dict_of : Option (Value J) → Option (List (String × Item J))
  dict_of none = some []
  dict_of (some (item i)) = none
  dict_of (some (dict m)) = some m

  abbrev pub text_at : String → List (String × Value J) → Option String
  text_at k d = and_then (get_key k d) text_of

  -- `_event_from_dict`, for a dictionary whose texts are texts and whose metadata is a dictionary
  unfoldable pub event_from_dict : List (String × Value J) → Option (SecurityAuditEvent J)
  event_from_dict d = and_then (text_at "event_id" d) (λ event_id.
      and_then (text_at "event_type" d) (λ v. and_then (type_of_value v) (λ event_type.
        and_then (text_at "execution_id" d) (λ execution_id.
          and_then (text_at "component" d) (λ component. and_then (text_at "severity" d) (λ u.
            and_then (severity_of_value u) (λ severity. and_then (text_at "timestamp" d) (λ t.
              and_then (json.fromisoformat t) (λ timestamp. and_then (text_at "action" d) (λ action.
                and_then (text_at "reason" d) (λ reason.
                  and_then (dict_of (get_key "metadata" d)) (λ metadata. some (record {
                    event_type = event_type;
                    execution_id = execution_id;
                    component = component;
                    severity = severity;
                    action = action;
                    reason = reason;
                    event_id = event_id;
                    timestamp = timestamp;
                    metadata = metadata;
                  })))))))))))))

  -- What a line of the file adds to the memory.
  abbrev pub restored_event : List ℕ → List (SecurityAuditEvent J)
  restored_event [] = []
  restored_event (c ∷ cs) = elim (and_then (json.loads (c ∷ cs)) event_from_dict) [
    | none ↦ []
    | some e ↦ e ∷ []
  ]

  abbrev pub replay_lines : List (List ℕ) → List (SecurityAuditEvent J)
  replay_lines [] = []
  replay_lines (l ∷ ls) = restored_event (strip l) ++ replay_lines ls

  -- The memory of a backend, and its file if it has one; a missing file is an empty one.
  pub record AuditLog : Type 0 where
    pub memory : List (SecurityAuditEvent J)
    pub log_file : Option (List ℕ)

  -- `SecurityAuditLogger(log_path)` with `_replay`
  unfoldable pub open_log : Option (List ℕ) → AuditLog
  open_log none = record { memory = []; log_file = none }
  open_log (some file) = record { memory = replay_lines (lines_of file); log_file = some file }

  -- How a write to the file ends: an OSError comes from `open`, or after so many characters, or it
  -- succeeds.
  pub data Write : Type 0 where
    not_opened written : Write
    failed_after : ℕ → Write

  -- What the caller of `record` sees.
  pub data Recording : Type 0 where
    quiet runtime_warning type_error value_error : Recording

  unfoldable pub append_text : Write → Option (List ℕ) → List ℕ → AuditLog → Recording × AuditLog
  append_text not_opened line file log = (runtime_warning, log)
  append_text written none file log = (type_error, log)
  append_text (failed_after k) none file log = (type_error, log)
  append_text written (some line) file log =
      (quiet, record log { log_file = some (file ++ line ++ 10 ∷ []) })
  append_text (failed_after k) (some line) file log =
      (runtime_warning, record log { log_file = some (file ++ first_of k (line ++ 10 ∷ [])) })

  -- `append` of the backend
  unfoldable pub append_event : Write → SecurityAuditEvent J → AuditLog → Recording × AuditLog
  unfolding append_text
  append_event w e log =
      let kept = record log { memory = log.memory ++ e ∷ [] } in
      elim log.log_file [
        | none ↦ (quiet, kept)
        | some file ↦ append_text w (json.dumps (to_dict e)) file kept
      ]

  -- `record`, with `none` for an object that is no event
  unfoldable pub record_event :
      Write → Option (SecurityAuditEvent J) → AuditLog → Recording × AuditLog
  record_event w none log = (value_error, log)
  record_event w (some e) log = append_event w e log

  unfoldable pub find_by_execution : String → AuditLog → List (SecurityAuditEvent J)
  find_by_execution id log = keep (λ (e : SecurityAuditEvent J). e.execution_id == id) log.memory

  is_text : String → Option (Item J) → Bool
  is_text s none = false
  is_text s (some (text t)) = t == s
  is_text s (some (other j)) = false

  unfoldable pub find_by_artifact : String → AuditLog → List (SecurityAuditEvent J)
  unfolding is_text
  find_by_artifact id log =
      keep
        (λ (e : SecurityAuditEvent J).
          is_text id (get_key "artifact_id" e.metadata)
          || (contains id (codes e.action) || contains id (codes e.reason)))
        log.memory

  -- The members of the enumeration are texts, and are compared as such.
  unfoldable pub find_by_type : SecurityEventType → AuditLog → List (SecurityAuditEvent J)
  find_by_type t log =
      keep (λ (e : SecurityAuditEvent J). type_value e.event_type == type_value t) log.memory

  unfoldable pub count_events : AuditLog → ℕ
  count_events log = length log.memory
