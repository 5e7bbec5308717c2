-- ===== src/Ledger/Grievances.antt =====
-- The grievance operations: file, acknowledge, resolve, escalate.
use Prim.Native.String.{◌∷◌, String, ◌++◌ as append}
use toomoki_cdac_pds.TextOrder.{text_le}
use toomoki_cdac_pds.Prelude.Text.{js_length}
use toomoki_cdac_pds.Prelude.{
  none, some, ◌∷◌, ◌&&◌, if◌then◌else◌, ltb, some, Bool, not, Option, List, [],
}
use toomoki_cdac_pds.Prelude.Int.{◌+ℤ◌, pos}
use toomoki_cdac_pds.StringMap.{values, has, set}
use toomoki_cdac_pds.SharedTypes.{
  Value, grievance_pending, grievance_open, AuditAlert, grievance_resolved, Grievance, EntityType,
  AlertType, GrievanceType, GrievanceStatus,
}
use toomoki_cdac_pds.SharedTypes.Events.{Body}
use toomoki_cdac_pds.Ledger.State.{
  PdsLedger, Dates, already_exists, description_too_long, grievance_not_open,
  grievance_already_resolved, invalid_timestamp,
}
use toomoki_cdac_pds.Ledger.Exec.{
  Result, ok, err, Exec, pure, check, gets, throw_if, modify, ◌>>=◌, ◌>>◌,
}
use toomoki_cdac_pds.Ledger.Checks.{validate_hash_format, must_get_grievance}
use toomoki_cdac_pds.Ledger.Record.{raise_audit_flag, timestamp_or, record_event}

abbrev pub set_grievance : Grievance → PdsLedger → PdsLedger
set_grievance g s = record s { grievances = set s.grievances g.grievance_id g }

pub record FileInput : Type 0 where
  pub grievance_id : String
  pub ration_card_hash : String
  pub fps_id : String
  pub grievance_type : GrievanceType
  pub description : String
  pub filed_at : Option String

-- `new Date(new Date(filedAt).getTime() + 7 * 24 * 60 * 60 * 1000).toISOString()`, which throws on
-- an invalid date.
unfoldable pub sla_deadline : Dates → String → Result String
sla_deadline dates filed_at = elim (dates.parse filed_at) [
  | none ↦ err (invalid_timestamp filed_at)
  | some time ↦ ok (dates.to_iso_string (time +ℤ pos 604800000))
]

unfoldable pub file_grievance : FileInput → Exec Grievance
unfolding sla_deadline
file_grievance input = do
  known ← gets (λ s. has s.grievances input.grievance_id)
  throw_if known (already_exists "Grievance" input.grievance_id)
  throw_if (ltb 500 (js_length input.description)) description_too_long
  check (validate_hash_format input.ration_card_hash "rationCardHash")
  filed_at ← timestamp_or input.filed_at
  dates ← gets (λ s. s.runtime.dates)
  deadline ← check (sla_deadline dates filed_at)
  let grievance : Grievance = record {
    grievance_id = input.grievance_id;
    ration_card_hash = input.ration_card_hash;
    fps_id = input.fps_id;
    grievance_type = input.grievance_type;
    description = input.description;
    status = GrievanceStatus.open_;
    filed_at = filed_at;
    sla_deadline_at = deadline;
    acknowledged_at = none;
    escalated_at = none;
    resolved_at = none;
    resolved_by = none;
    resolution_note = none;
  }
  modify (set_grievance grievance)
  record_event EntityType.grievance grievance.grievance_id (Body.file_grievance grievance)
  pure grievance

unfoldable pub acknowledge_grievance : String → Option String → Exec Grievance
acknowledge_grievance grievance_id acknowledged_at = do
  grievance ← must_get_grievance grievance_id
  throw_if (not (grievance_open grievance.status)) (grievance_not_open grievance_id)
  at ← timestamp_or acknowledged_at
  let updated : Grievance = record grievance {
    status = GrievanceStatus.acknowledged;
    acknowledged_at = some at;
  }
  modify (set_grievance updated)
  record_event EntityType.grievance updated.grievance_id (Body.acknowledge_grievance updated)
  pure updated

pub record ResolveInput : Type 0 where
  pub grievance_id : String
  pub resolved_by : String
  pub resolution_note : String
  pub resolved_at : Option String

unfoldable pub resolve_grievance : ResolveInput → Exec Grievance
resolve_grievance input = do
  grievance ← must_get_grievance input.grievance_id
  throw_if (grievance_resolved grievance.status) (grievance_already_resolved input.grievance_id)
  at ← timestamp_or input.resolved_at
  let updated : Grievance = record grievance {
    status = GrievanceStatus.resolved;
    resolved_at = some at;
    resolved_by = some input.resolved_by;
    resolution_note = some input.resolution_note;
  }
  modify (set_grievance updated)
  record_event EntityType.grievance updated.grievance_id (Body.resolve_grievance updated)
  pure updated

-- `a >= b` on texts.
abbrev pub text_ge : String → String → Bool
text_ge a b = text_le b a

-- `OPEN` or `ACKNOWLEDGED`, and past its deadline.
abbrev pub overdue : String → Grievance → Bool
overdue now g = grievance_pending g.status && text_ge now g.sla_deadline_at

abbrev pub escalated_at_time : String → Grievance → Grievance
escalated_at_time now g = record g { status = GrievanceStatus.escalated; escalated_at = some now }

-- One overdue grievance: the write and the flag.
unfoldable pub escalate : String → Grievance → Exec (Grievance × AuditAlert)
escalate now grievance = do
  let updated = escalated_at_time now grievance
  modify (set_grievance updated)
  alert ←
      raise_audit_flag AlertType.grievance_sla_breach grievance.grievance_id
        (append "Grievance " (append grievance.grievance_id " breached 7-day SLA"))
        (("fpsId", Value.text grievance.fps_id)
          ∷ ("filedAt", Value.text grievance.filed_at)
          ∷ ("slaDeadlineAt", Value.text grievance.sla_deadline_at)
          ∷ [])
  pure (updated, alert)

-- The loop. It writes only to the key of the grievance that it visits, so it reads the values
-- that the map held at the start.
unfoldable pub escalate_all : String → List Grievance → Exec (List Grievance × List AuditAlert)
unfolding escalate
escalate_all now [] = pure ([], [])
escalate_all now (g ∷ gs) =
    let rest = escalate_all now gs in
    if overdue now g
    then (do
      (updated, alert) ← escalate now g
      (escalated, alerts) ← rest
      pure (updated ∷ escalated, alert ∷ alerts))
    else rest

abbrev grievance_ids : List Grievance → List String
grievance_ids [] = []
grievance_ids (g ∷ gs) = g.grievance_id ∷ grievance_ids gs

-- One event for the batch, if there was any.
unfoldable pub record_escalation : String → List Grievance → Exec (Unit {0})
record_escalation now [] = pure tt
record_escalation now (g ∷ gs) = do
  record_event EntityType.grievance "batch"
      (Body.escalate_overdue_grievances (grievance_ids (g ∷ gs)) now)
  pure tt

unfoldable pub escalate_overdue_grievances : Option String → Exec (List Grievance × List AuditAlert)
unfolding escalate_all record_escalation
escalate_overdue_grievances current_timestamp = do
  now ← timestamp_or current_timestamp
  all ← gets (λ s. values s.grievances)
  (escalated, alerts) ← escalate_all now all
  record_escalation now escalated
  pure (escalated, alerts)
