-- ===== src/Security/Replay.antt =====
-- What a logger that is opened on the file of another one holds.
use mathlib.Core.List.{reverse-reverse, append_assoc, append-nil}
use mathlib.Core.Path.{subst}
use crucible_ai.Pipeline.Model.{get_key}
use crucible_ai.Security.Audit.{
  Json, Value, drop_spaces, event_from_dict, is_break, lines_of, prepend, severity_of_value, strip,
  to_dict, type_of_value, replay_lines, restored_event, Write, AuditLog, written, record_event,
  not_opened, append_event, append_text, open_log,
}
use crucible_ai.Security.Events.{
  SecurityAuditEvent, SecurityEventType, SecuritySeverity, artifact_load_blocked,
  artifact_loaded_unverified, artifact_quarantined, critical, high, info, integrity_check_failed,
  integrity_check_passed, integrity_check_started, recovery_blocked_integrity,
  security_audit_recorded, security_review_required, severity_value, trusted_checkpoint_selected,
  type_value, untrusted_checkpoint_rejected, warning,
}
use crucible_ai.Prelude.{
  All, Bool, Bool-cases, List, Option-cases, String, [], ap, false, if◌then◌else◌, inl, inr,
  is_some, keep, map, refl, reverse, reverse-append, some, sym, true, ℕ, ◌&&◌, ◌++◌, ◌∙◌, ◌∷◌, ◌≡◌,
}

-- What json and datetime promise: a text that was dumped is loaded as what it was, stands in braces and
-- on one line, and a time is read back.
pub record IsFaithful {J : Type 0} (json : Json J) : Type 0 where
  pub restores_dict :
      (d : List (String × Value J)) (t : List ℕ) → json.dumps d ≡ some t → json.loads t ≡ some d
  pub braced :
      (d : List (String × Value J)) (t : List ℕ)
      → json.dumps d ≡ some t
      → (b : List ℕ) × (t ≡ 123 ∷ (b ++ 125 ∷ []))
  pub one_line :
      (d : List (String × Value J)) (t : List ℕ)
      → json.dumps d ≡ some t
      → All (λ c. is_break c ≡ false) t
  pub restores_time : (t : ℕ) → json.fromisoformat (json.isoformat t) ≡ some t

pub lines-append :
    (t rest : List ℕ)
    → All (λ c. is_break c ≡ false) t
    → lines_of (t ++ 10 ∷ rest) ≡ t ∷ lines_of rest
lines-append [] rest a = refl
lines-append (c ∷ t) rest a = rw (a.0) (ap (prepend c) (lines-append t rest a.1))

strip_braced : (b : List ℕ) → strip (123 ∷ (b ++ 125 ∷ [])) ≡ 123 ∷ (b ++ 125 ∷ [])
unfolding strip
strip_braced b =
    ap (λ x. reverse (drop_spaces x)) (reverse-append (123 ∷ b) (125 ∷ []))
    ∙ ap reverse (sym (reverse-append (123 ∷ b) (125 ∷ [])))
    ∙ reverse-reverse (123 ∷ (b ++ 125 ∷ []))

type_round : (t : SecurityEventType) → type_of_value (type_value t) ≡ some t
unfolding type_of_value type_value
type_round integrity_check_started = refl
type_round integrity_check_passed = refl
type_round integrity_check_failed = refl
type_round artifact_quarantined = refl
type_round security_review_required = refl
type_round trusted_checkpoint_selected = refl
type_round untrusted_checkpoint_rejected = refl
type_round recovery_blocked_integrity = refl
type_round security_audit_recorded = refl
type_round artifact_loaded_unverified = refl
type_round artifact_load_blocked = refl

severity_round : (t : SecuritySeverity) → severity_of_value (severity_value t) ≡ some t
unfolding severity_of_value severity_value
severity_round info = refl
severity_round warning = refl
severity_round high = refl
severity_round critical = refl

module _ {J : Type 0} (json : Json J) (fs : IsFaithful json) where
  from_dict-to_dict : (e : SecurityAuditEvent J) → event_from_dict json (to_dict json e) ≡ some e
  unfolding event_from_dict to_dict get_key
  from_dict-to_dict e =
      rw (type_round e.event_type, severity_round e.severity, fs.restores_time e.timestamp) refl

  -- The file that holds these events, each in its line.
  pub data Stored : List (SecurityAuditEvent J) → List ℕ → Type 0 where
    no_lines : Stored [] []
    one_more :
        {e : SecurityAuditEvent J} {es : List (SecurityAuditEvent J)} {t file : List ℕ}
        → json.dumps (to_dict json e) ≡ some t
        → Stored es file
        → Stored (e ∷ es) (t ++ 10 ∷ file)

  pub restored_line :
      (e : SecurityAuditEvent J) (t : List ℕ)
      → json.dumps (to_dict json e) ≡ some t
      → restored_event json (strip t) ≡ e ∷ []
  restored_line e t p =
      let (b, z) = fs.braced (to_dict json e) t p in
      rw (z, strip_braced b)
        (rw
          (
            ap json.loads (sym z) ∙ fs.restores_dict (to_dict json e) t p,
            from_dict-to_dict e,
            restored_event,
          )
          refl)

  replay-Stored :
      {es : List (SecurityAuditEvent J)} {file : List ℕ}
      → Stored es file
      → replay_lines json (lines_of file) ≡ es
  replay-Stored no_lines = refl
  replay-Stored (one_more {e} {es} {t} {file} p s) =
      rw (lines-append t file (fs.one_line (to_dict json e) t p)) (
        ap (λ x. x ++ replay_lines json (lines_of file)) (restored_line e t p)
        ∙ ap (λ x. e ∷ x) (replay-Stored s))

  Stored-append :
      {es : List (SecurityAuditEvent J)} {file : List ℕ} (e : SecurityAuditEvent J) (t : List ℕ)
      → Stored es file
      → json.dumps (to_dict json e) ≡ some t
      → Stored (es ++ e ∷ []) (file ++ t ++ 10 ∷ [])
  Stored-append e t no_lines p = one_more p no_lines
  Stored-append e t (one_more {e = e'} {es = es} {t = t'} {file = file} p' s) p =
      subst (Stored (e' ∷ (es ++ e ∷ [])))
        (sym (append_assoc t' (10 ∷ (file ++ t)) (10 ∷ []))
          ∙ ap (λ x. x ++ 10 ∷ []) (sym (append_assoc t' (10 ∷ file) t)))
        (one_more p' (Stored-append e t s p))

  -- A history of records: whether the file can be opened and takes the line, and the event.
  abbrev Entry : Type 0
  Entry = Bool × SecurityAuditEvent J

  abbrev pub write_of : Bool → Write json
  write_of true = written
  write_of false = not_opened

  abbrev pub record_all : List (Bool × SecurityAuditEvent J) → AuditLog json → AuditLog json
  record_all [] log = log
  record_all ((b, e) ∷ hs) log = record_all hs (record_event json (write_of b) (some e) log).1

  -- The events whose line json can write and the disk takes.
  abbrev pub kept_on_disk : Bool × SecurityAuditEvent J → Bool
  kept_on_disk p = p.0 && is_some (json.dumps (to_dict json p.1))

  abbrev own_line : Bool × SecurityAuditEvent J → List (SecurityAuditEvent J)
  own_line p = if kept_on_disk p then p.1 ∷ [] else []

  -- What one record does: the memory gains the event, and the file its line if it can be written.
  abbrev Recorded :
      Bool × SecurityAuditEvent J
      → AuditLog json
      → List (SecurityAuditEvent J)
      → AuditLog json
      → Type 0
  Recorded p log es out =
      (out.memory ≡ log.memory ++ p.1 ∷ [])
      × (file : List ℕ) × (out.log_file ≡ some file)
      × Stored (es ++ own_line p) file

  unchanged :
      {es : List (SecurityAuditEvent J)} {file : List ℕ} → Stored es file → Stored (es ++ []) file
  unchanged {es} {file} s = subst (λ x. Stored x file) (sym (append-nil es)) s

  record-Recorded :
      (b : Bool) (e : SecurityAuditEvent J) (m es : List (SecurityAuditEvent J)) (file : List ℕ)
      → Stored es file
      → Recorded
          (b, e)
          (record { memory = m; log_file = some file })
          es
          (record_event json (write_of b) (some e) (record { memory = m; log_file = some file })).1
  unfolding record_event append_event append_text
  record-Recorded true e m es file s = elim (Option-cases (json.dumps (to_dict json e))) [
    | inl z ↦ rw (z) (refl, file, refl, unchanged s)
    | inr (t, z) ↦ rw (z) (refl, file ++ t ++ 10 ∷ [], refl, Stored-append e t s z)
  ]
  record-Recorded false e m es file s = (refl, file, refl, unchanged s)

  own_line-keep :
      (p : Bool × SecurityAuditEvent J) (hs : List (Bool × SecurityAuditEvent J))
      → own_line p ++ map (λ x. x.1) (keep kept_on_disk hs)
        ≡ map (λ x. x.1) (keep kept_on_disk (p ∷ hs))
  own_line-keep p hs = elim (Bool-cases (kept_on_disk p)) [ inl e ↦ rw e refl | inr e ↦ rw e refl ]

  record_on :
      (b : Bool) (e : SecurityAuditEvent J) (log : AuditLog json) (es : List (SecurityAuditEvent J))
      (file : List ℕ)
      → log.log_file ≡ some file
      → Stored es file
      → Recorded (b, e) log es (record_event json (write_of b) (some e) log).1
  record_on b e log es file l s =
      subst
        (λ f.
          Recorded (b, e) (record { memory = log.memory; log_file = f }) es
            (record_event json (write_of b) (some e)
              (record { memory = log.memory; log_file = f })).1)
        (sym l) (record-Recorded b e log.memory es file s)

  pub record_all-Stored :
      (hs : List (Bool × SecurityAuditEvent J)) (log : AuditLog json)
      (es : List (SecurityAuditEvent J)) (file : List ℕ)
      → log.log_file ≡ some file
      → Stored es file
      → ((record_all hs log).memory ≡ log.memory ++ map (λ p. p.1) hs)
        × (out : List ℕ) × ((record_all hs log).log_file ≡ some out)
        × Stored (es ++ map (λ p. p.1) (keep kept_on_disk hs)) out
  record_all-Stored [] log es file l s = (sym (append-nil log.memory), file, l, unchanged s)
  record_all-Stored ((b, e) ∷ hs) log es file l s =
      let (mm, file', l', s') = record_on b e log es file l s in
      let next = (record_event json (write_of b) (some e) log).1 in
      let (m, out, k, z) = record_all-Stored hs next (es ++ own_line (b, e)) file' l' s' in
      (
        m
            ∙ ap (λ x. x ++ map (λ p. p.1) hs) mm
            ∙ append_assoc log.memory (e ∷ []) (map (λ p. p.1) hs),
        out,
        k,
        subst (λ x. Stored x out)
            (append_assoc es (own_line (b, e)) (map (λ p. p.1) (keep kept_on_disk hs))
              ∙ ap (λ x. es ++ x) (own_line-keep (b, e) hs))
            z,
      )

  -- Where json keeps its promises, the memory of a logger that started on an empty file has all
  -- events that were recorded, and a logger that is opened on its file has, in their order, those
  -- whose line json could write while the file could be opened and took the whole line.
  pub open_log-record_all :
      (hs : List (Bool × SecurityAuditEvent J))
      → ((record_all hs (open_log json (some []))).memory ≡ map (λ p. p.1) hs)
        × ((open_log json (record_all hs (open_log json (some []))).log_file).memory
            ≡ map (λ p. p.1) (keep kept_on_disk hs))
  unfolding open_log
  open_log-record_all hs =
      let (m, out, k, z) =
        record_all-Stored hs (record { memory = []; log_file = some [] }) [] [] refl no_lines in
      (m, ap (λ f. (open_log json f).memory) k ∙ replay-Stored z)
