-- ===== src/Security/Torn.antt =====
-- What is lost from the file of a logger where a write stopped inside a line.
use mathlib.Core.List.{append_assoc, append-nil}
use mathlib.Core.Path.{subst}
use crucible_ai.Security.Audit.{
  AuditLog, Json, append_event, append_text, failed_after, first_of, is_break, lines_of, open_log,
  quiet, record_event, replay_lines, restored_event, runtime_warning, strip, to_dict, written,
}
use crucible_ai.Security.Events.{SecurityAuditEvent}
use crucible_ai.Security.Replay.{
  IsFaithful, Stored, kept_on_disk, lines-append, no_lines, one_more, record_all, record_all-Stored,
  restored_line,
}
use crucible_ai.Prelude.{
  All, Bool, List, [], ap, arith, false, keep, length, map, none, refl, some, suc, sym, zero, ℕ,
  ◌++◌, ◌∙◌, ◌∷◌, ◌≡◌, ◌≤◌,
}

first_of-append : (k : ℕ) (t rest : List ℕ) → k ≤ length t → first_of k (t ++ rest) ≡ first_of k t
first_of-append zero t rest h = refl
first_of-append (suc k) [] rest h = absurd (omega arith)
first_of-append (suc k) (c ∷ t) rest h = ap (λ x. c ∷ x) (first_of-append k t rest (omega arith))

first_of-All : (P : ℕ → Type 0) (k : ℕ) (t : List ℕ) → All P t → All P (first_of k t)
first_of-All P zero t a = tt
first_of-All P (suc k) [] a = tt
first_of-All P (suc k) (c ∷ t) a = (a.0, first_of-All P k t a.1)

All-append : (P : ℕ → Type 0) (s t : List ℕ) → All P s → All P t → All P (s ++ t)
All-append P [] t a b = b
All-append P (c ∷ s) t a b = (a.0, All-append P s t a.1 b)

module _ {J : Type 0} (json : Json J) where
  refused_line : (l : List ℕ) → json.loads l ≡ none → restored_event json l ≡ []
  refused_line [] h = refl
  refused_line (c ∷ l) h = rw (h, restored_event) refl

  module _ (fs : IsFaithful json) where
    replay-Stored-append :
        {es : List (SecurityAuditEvent J)} {file : List ℕ} (rest : List ℕ)
        → Stored json fs es file
        → replay_lines json (lines_of (file ++ rest)) ≡ es ++ replay_lines json (lines_of rest)
    replay-Stored-append rest no_lines = refl
    replay-Stored-append rest (one_more {e} {es} {t} {file} p s) =
        rw
          (
            append_assoc t (10 ∷ file) rest,
            lines-append t (file ++ rest) (fs.one_line (to_dict json e) t p),
            replay_lines,
          )
          (ap (λ x. x ++ replay_lines json (lines_of (file ++ rest))) (restored_line json fs e t p)
            ∙ ap (λ x. e ∷ x) (replay-Stored-append rest s))

    -- The two records on a log with this file.
    abbrev pub Loses :
        ℕ
        → SecurityAuditEvent J
        → SecurityAuditEvent J
        → AuditLog json
        → List (SecurityAuditEvent J)
        → Type 0
    Loses k e e' log es =
        let (r, torn) = record_event json (failed_after (suc k)) (some e) log in
        let (r', out) = record_event json written (some e') torn in
        (r ≡ runtime_warning)
        × (r' ≡ quiet)
        × (out.memory ≡ log.memory ++ e ∷ e' ∷ [])
        × ((open_log json out.log_file).memory ≡ es)

    module _ (k : ℕ) (e e' : SecurityAuditEvent J) (t t' : List ℕ)
        (d : json.dumps (to_dict json e) ≡ some t) (d' : json.dumps (to_dict json e') ≡ some t')
        (inside : suc k ≤ length t)
        (refused : json.loads (strip (first_of (suc k) t ++ t')) ≡ none) where
      replay-glued : replay_lines json (lines_of ((first_of (suc k) t ++ t') ++ 10 ∷ [])) ≡ []
      replay-glued =
          ap (replay_lines json) (
            lines-append (first_of (suc k) t ++ t') [] (
              All-append (λ c. is_break c ≡ false) (first_of (suc k) t) t'
                (first_of-All (λ c. is_break c ≡ false) (suc k) t
                  (fs.one_line (to_dict json e) t d))
                (fs.one_line (to_dict json e') t' d')))
          ∙ append-nil (restored_event json (strip (first_of (suc k) t ++ t')))
          ∙ refused_line (strip (first_of (suc k) t ++ t')) refused

      glued_file :
          (file : List ℕ)
          → (file ++ first_of (suc k) (t ++ 10 ∷ [])) ++ t' ++ 10 ∷ []
            ≡ file ++ ((first_of (suc k) t ++ t') ++ 10 ∷ [])
      glued_file file = rw (first_of-append (suc k) t (10 ∷ []) inside) (simp append_assoc)

      record_event-Loses :
          (mem es : List (SecurityAuditEvent J)) (file : List ℕ)
          → Stored json fs es file
          → Loses k e e' (record { memory = mem; log_file = some file }) es
      unfolding record_event append_event append_text open_log
      record_event-Loses mem es file s =
          rw (d, d')
            (
              refl,
              refl,
              append_assoc mem (e ∷ []) (e' ∷ []),
              ap (λ f. replay_lines json (lines_of f)) (glued_file file)
                  ∙ replay-Stored-append ((first_of (suc k) t ++ t') ++ 10 ∷ []) s
                  ∙ ap (λ x. es ++ x) replay-glued
                  ∙ append-nil es,
            )

      -- An audited event is lost without an error. Where json keeps its promises and can write both
      -- events: after any history of records on an empty file, let the write of an event stop inside
      -- its line, with a warning, after at least one character. The next event is recorded in silence
      -- and both stand in the memory; but its line is glued to the rest, so where json refuses the
      -- glued line, a logger that is opened on the file has neither.
      pub record_all-Loses :
          (hs : List (Bool × SecurityAuditEvent J))
          → Loses k e e'
              (record_all json fs hs (open_log json (some [])))
              (map (λ p. p.1) (keep (kept_on_disk json fs) hs))
      unfolding open_log
      record_all-Loses hs =
          let start : AuditLog json = record { memory = []; log_file = some [] } in
          let log = record_all json fs hs start in
          let es = map (λ p. p.1) (keep (kept_on_disk json fs) hs) in
          let (m, file, l, s) = record_all-Stored json fs hs start [] [] refl no_lines in
          subst (λ f. Loses k e e' (record { memory = log.memory; log_file = f }) es) (sym l)
            (record_event-Loses log.memory es file s)
