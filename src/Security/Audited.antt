-- ===== src/Security/Audited.antt =====
-- What recording an event does to the manager.
use mathlib.Core.Path.{subst}
use crucible_ai.Security.Audit.{
  not_opened, written, Write, append_event, append_text, record_event, to_dict, failed_after,
}
use crucible_ai.Security.Events.{SecurityAuditEvent}
use crucible_ai.Security.Manager.{Manager, audit}
use crucible_ai.Security.Policy.{QuarantineRecord, Deployment}
use crucible_ai.Prelude.{
  List, Option, Option-cases, [], inl, inr, is_some, none, refl, some, suc, sym, true, ℕ, ◌++◌, ◌∷◌,
  ◌≡◌,
}

not_none : {A : Type 0} {o : Option A} → is_some o ≡ true → o ≡ none → ⊥
not_none h n = cc (h, n)

some-injective : {A : Type 0} {a b : A} → some a ≡ some b → a ≡ b
some-injective e = cc e

module _ {J : Type 0} (s : Deployment J)
    (total : (e : SecurityAuditEvent J) → is_some (s.json.dumps (to_dict s.json e)) ≡ true) where
  -- The event is returned and added to the log, and nothing else changes.
  abbrev pub Audited :
      SecurityAuditEvent J → Manager s → Option (SecurityAuditEvent J) × Manager s → Type 0
  Audited e m (o, out) =
      (o ≡ some e)
      × (out.audit_logger.memory ≡ m.audit_logger.memory ++ e ∷ [])
      × (out.quarantine_records ≡ m.quarantine_records)
      × (out.drawn ≡ suc m.drawn)

  audit_parts-Audited :
      (e : SecurityAuditEvent J) (mem : List (SecurityAuditEvent J)) (file : Option (List ℕ))
      (qs : List QuarantineRecord) (k : ℕ) (w : Write s.json)
      → s.disk k ≡ w
      → Audited e
          (record {
            audit_logger = record { memory = mem; log_file = file };
            quarantine_records = qs;
            drawn = k;
          })
          (audit s e (record {
            audit_logger = record { memory = mem; log_file = file };
            quarantine_records = qs;
            drawn = k;
          }))
  unfolding audit record_event append_event append_text
  audit_parts-Audited e mem none qs k w z = (refl, refl, refl, refl)
  audit_parts-Audited e mem (some file) qs k not_opened z = rw z (refl, refl, refl, refl)
  audit_parts-Audited e mem (some file) qs k written z =
      elim (Option-cases (s.json.dumps (to_dict s.json e))) [
        | inl n ↦ absurd (not_none (total e) n)
        | inr (t, n) ↦ rw (n, z) (refl, refl, refl, refl)
      ]
  audit_parts-Audited e mem (some file) qs k (failed_after i) z =
      elim (Option-cases (s.json.dumps (to_dict s.json e))) [
        | inl n ↦ absurd (not_none (total e) n)
        | inr (t, n) ↦ rw (n, z) (refl, refl, refl, refl)
      ]

  pub audit-Audited : (e : SecurityAuditEvent J) (m : Manager s) → Audited e m (audit s e m)
  audit-Audited e m =
      audit_parts-Audited e m.audit_logger.memory m.audit_logger.log_file m.quarantine_records
        m.drawn (s.disk m.drawn) refl

  -- What holds after the event was recorded holds of what goes on from there.
  pub go_on :
      {B : Type 0} (P : B → Type 0) (e : SecurityAuditEvent J) (m : Manager s)
      (pr : Option (SecurityAuditEvent J) × Manager s) (stop : Manager s → B)
      (k : SecurityAuditEvent J → Manager s → B)
      → Audited e m pr
      → ((out : Manager s) → Audited e m (some e, out) → P (k e out))
      → P (elim pr.0 [ none ↦ stop pr.1 | some x ↦ k x pr.1 ])
  go_on P e m (none, out) stop k a f = absurd (cc (a.0))
  go_on P e m (some x, out) stop k a f =
      let z : e ≡ x = some-injective (sym a.0) in
      subst (λ y. P (k y out)) z (f out (refl, a.1, a.2, a.3))
