-- ===== src/Security/Examples.antt =====
-- The theorems on security at concrete data. A time is written as so many strokes, and json writes the
-- dictionary of one event only.
use mathlib.Core.Path.{subst}
use native.Mathlib.Decide.{ℕ_discrete}
use crucible_ai.Recovery.Validator.{IntegrityStatus}
use crucible_ai.Samples.{saved}
use crucible_ai.Security.Audit.{
  Json, Value, Write, is_break, open_log, strip, to_dict, AuditLog, find_by_artifact, find_by_type,
  find_by_execution, count_events,
}
use crucible_ai.Security.Events.{
  SecurityAuditEvent, integrity_check_failed, critical, text, artifact_quarantined, type_value,
}
use crucible_ai.Security.Manager.{Manager, handle_integrity_failure}
use crucible_ai.Security.Policy.{Failure, Deployment, Wording}
use crucible_ai.Security.Replay.{IsFaithful, kept_on_disk, open_log-record_all, record_all}
use crucible_ai.Security.Torn.{Loses, record_all-Loses}
use crucible_ai.Security.Response.{Responds, handle_integrity_failure-Responds}
use crucible_ai.Prelude.{
  All, arith, if◌then◌else◌, leb, ◌&&◌, Bool, sym, Bool-cases, List, Option, String, [], ap, codes,
  eq_iff, false, inl, inr, is_some, keep, length, map, none, refl, some, suc, true, zero, ℕ, ◌==◌,
  ◌∷◌, ◌≡◌, ◌≢◌, contains,
}
use crucible_ai.Security.Selection.{Selects, select_and_log-Selects}
use crucible_ai.Security.Manager.{select_and_log}
use crucible_ai.Pipeline.Model.{get_key}

String-discrete : Discrete String
String-discrete s t = elim (Bool-cases (s == t)) [
  | inl e ↦ yes ((eq_iff s t).0 e)
  | inr e ↦ no (λ p. cc ((eq_iff s t).1 p, e))
]

Dict-discrete : Discrete (List (String × Value ℕ))
Dict-discrete = hlevel (ℕ_discrete, String-discrete)

strokes : ℕ → String
strokes zero = String.[]
strokes (suc n) = String.◌∷◌ "|" (strokes n)

strokes_round : (n : ℕ) → ◌≡◌ {A = Option ℕ} (some (length (codes (strokes n)))) (some n)
unfolding strokes
strokes_round zero = refl
strokes_round (suc n) = cc (strokes_round n)

abbrev silent : Json ℕ
silent = record {
  dumps = λ _. none;
  loads = λ _. none;
  isoformat = strokes;
  fromisoformat = λ s. some (length (codes s));
}

event : String → SecurityAuditEvent ℕ
event id = record {
  event_type = integrity_check_failed;
  execution_id = "run";
  component = "SecurityRecoveryManager";
  severity = critical;
  action = "check";
  reason = "mismatch";
  event_id = id;
  timestamp = 3;
  metadata = ("artifact_id", text "model:run") ∷ [];
}

sample : List (String × Value ℕ)
sample = to_dict silent (event "e1")

abbrev dumped : {d : List (String × Value ℕ)} → Dec (d ≡ sample) → Option (List ℕ)
dumped (yes p) = some (codes "{7}")
dumped (no p) = none

abbrev load : List ℕ → Option (List (String × Value ℕ))
load [] = none
load (c ∷ []) = none
load (c ∷ d ∷ cs) = if leb d 55 && leb 55 d then some sample else none

abbrev json : Json ℕ
json = record silent { dumps = λ d. dumped (Dict-discrete d sample); loads = load }

module _ {d : List (String × Value ℕ)} {t : List ℕ} where
  dumped-sample : (e : Dec (d ≡ sample)) → dumped e ≡ some t → (d ≡ sample) × (codes "{7}" ≡ t)
  dumped-sample (yes p) q = (p, cc q)
  dumped-sample (no p) q = absurd (cc q)

  dumped_here : json.dumps d ≡ some t → (d ≡ sample) × (codes "{7}" ≡ t)
  dumped_here q = dumped-sample (Dict-discrete d sample) q

json-IsFaithful : IsFaithful json
json-IsFaithful = record {
  restores_dict =
      λ d t q. subst (λ s. load s ≡ some d) (dumped_here q).1 (ap some (sym (dumped_here q).0));
  braced = λ d t q. (55 ∷ [], sym (dumped_here q).1);
  one_line =
      λ d t q. subst (All (λ c. is_break c ≡ false)) (dumped_here q).1 (refl, (refl, (refl, tt)));
  restores_time = strokes_round;
}

-- The first event is written, the file is not opened for the second, and json refuses the third.
abbrev records : List (Bool × SecurityAuditEvent ℕ)
records = (true, event "e1") ∷ (false, event "e1") ∷ (true, event "e12") ∷ []

open_log-record_all_example :
    ((record_all json json-IsFaithful records (open_log json (some []))).memory
      ≡ map (λ p. p.1) records)
    × ((open_log json
          (record_all json json-IsFaithful records (open_log json (some []))).log_file).memory
        ≡ map (λ p. p.1) (keep (kept_on_disk json json-IsFaithful) records))
open_log-record_all_example = open_log-record_all json json-IsFaithful records

is_dumped :
    {d : List (String × Value ℕ)} (e : Dec (d ≡ sample))
    → d ≡ sample
    → dumped e ≡ some (codes "{7}")
is_dumped (yes p) q = refl
is_dumped (no p) q = absurd (p q)

not_dumped :
    {d : List (String × Value ℕ)} (e : Dec (d ≡ sample)) → d ≢ sample → is_some (dumped e) ≡ false
not_dumped (yes p) q = absurd (q p)
not_dumped (no p) q = refl

first-eq-sample : to_dict json (event "e1") ≡ sample
unfolding sample to_dict
first-eq-sample = refl

second-ne-sample : to_dict json (event "e12") ≢ sample
unfolding sample to_dict event
second-ne-sample h = cc h

first_dumped : json.dumps (to_dict json (event "e1")) ≡ some (codes "{7}")
first_dumped = is_dumped (Dict-discrete (to_dict json (event "e1")) sample) first-eq-sample

kept_first : map (λ p. p.1) (keep (kept_on_disk json json-IsFaithful) records) ≡ event "e1" ∷ []
kept_first =
    rw
      (
        first_dumped,
        not_dumped (Dict-discrete (to_dict json (event "e12")) sample) second-ne-sample,
      )
      refl

-- The write of the event stops after the brace.
record_all-Loses_example :
    Loses json json-IsFaithful 0
      (event "e1")
      (event "e1")
      (record_all json json-IsFaithful records (open_log json (some [])))
      (map (λ p. p.1) (keep (kept_on_disk json json-IsFaithful) records))
unfolding strip
record_all-Loses_example =
    record_all-Loses json json-IsFaithful 0 (event "e1") (event "e1") (codes "{7}") (codes "{7}")
      first_dumped first_dumped (omega arith) refl records

abbrev wording : Wording
wording = record {
  failed_action = λ a. a;
  quarantined_action = λ a. a;
  quarantined_reason = "review";
  decided_action = λ a. a;
  rationale_of = λ s a t. a;
  selected_action = λ c. c;
  selected_reason = "sound";
  rejected_action = "none";
  rejected_reason = "none";
}

abbrev writer : Json ℕ
writer = record silent { dumps = λ _. some (codes "{7}") }

-- The file cannot be opened for the first event, and the write of the second stops after one character.
abbrev disk : ℕ → Write writer
disk zero = Write.not_opened
disk (suc zero) = Write.failed_after 1
disk (suc (suc k)) = Write.written

abbrev deployment : Deployment ℕ
deployment = record {
  json = writer;
  wording = wording;
  stamp = λ k. (strokes k, k);
  disk = disk;
  null = 0;
  of_bool = λ _. 1;
  of_number = λ n. n;
}

abbrev writes :
    (e : SecurityAuditEvent ℕ) → is_some (deployment.json.dumps (to_dict deployment.json e)) ≡ true
writes e = refl

abbrev tampered : Failure
tampered = record {
  status = IntegrityStatus.failed;
  reason = "checksum mismatch";
  artifact_path = "model.joblib";
  expected_checksum = some "a1";
  actual_checksum = some "b2";
}

abbrev manager : Manager deployment
manager = record { audit_logger = open_log writer (some []); quarantine_records = []; drawn = 0 }

handle_integrity_failure-Responds_example :
    Responds deployment writes tampered "run" "model:run"
      (some (saved ∷ []))
      manager
      (handle_integrity_failure deployment tampered "run" "model:run" (some (saved ∷ [])) manager)
handle_integrity_failure-Responds_example =
    handle_integrity_failure-Responds deployment writes tampered "run" "model:run"
      (some (saved ∷ [])) manager

select_and_log-Selects_example :
    Selects deployment writes
      (saved ∷ [])
      "run"
      manager
      (select_and_log deployment (saved ∷ []) "run" manager)
select_and_log-Selects_example = select_and_log-Selects deployment writes (saved ∷ []) "run" manager

-- A search for the artifact "mod" finds the event of "model:run", whose action names it.
abbrev named_log : AuditLog silent
named_log = record {
  memory = record (event "e1") { action = "check of model:run" } ∷ [];
  log_file = none;
}

found_by_part : length (find_by_artifact silent "mod" named_log) ≡ 1
unfolding find_by_artifact event get_key contains
found_by_part = refl

found_by_kind :
    (length (find_by_type silent integrity_check_failed named_log) ≡ 1)
    × (length (find_by_type silent artifact_quarantined named_log) ≡ 0)
    × (length (find_by_execution silent "run" named_log) ≡ 1)
    × (count_events silent named_log ≡ 1)
unfolding find_by_type find_by_execution event type_value count_events
found_by_kind = (refl, refl, refl, refl)
