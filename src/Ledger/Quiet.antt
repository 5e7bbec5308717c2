-- ===== src/Ledger/Quiet.antt =====
-- Predicates that only the business records decide: the clock, the log and the alerts, which
-- every method writes, leave them as they are.
pub mod Checks
pub mod Registers
use toomoki_cdac_pds.Prelude.{String, ℕ, List, Option, none, some}
use toomoki_cdac_pds.StringMap.{set}
use toomoki_cdac_pds.SharedTypes.{AuditAlert, AlertType, EntityType, Value}
use toomoki_cdac_pds.SharedTypes.Events.{Body, LedgerEvent}
use toomoki_cdac_pds.Ledger.State.{PdsLedger}
use toomoki_cdac_pds.Ledger.Exec.{◌>>=◌}
use toomoki_cdac_pds.Ledger.Exec.Keeps.{Keeps, keeps_rules}
use toomoki_cdac_pds.Ledger.Exec.Runs.{Runs, runs_rules}
use toomoki_cdac_pds.Ledger.Record.{
  set_alert, push_event, draw_timestamp, draw_identifier, timestamp_or, record_event,
  record_event_with, raise_audit_flag,
}

abbrev clocked : ℕ → ℕ → PdsLedger → PdsLedger
clocked t i s = record s { timestamps_drawn = t; identifiers_drawn = i }

pub record IsQuiet (P : PdsLedger → Type 0) : Type 0 where
  pub clock : (t i : ℕ) (s : PdsLedger) → P s → P (clocked t i s)
  pub log : (e : LedgerEvent) (s : PdsLedger) → P s → P (push_event e s)
  pub alert : (a : AuditAlert) (s : PdsLedger) → P s → P (set_alert a s)

module _ {P : PdsLedger → Type 0} (quiet : IsQuiet P) where
  pub draw_timestamp-Keeps : Keeps P draw_timestamp
  unfolding draw_timestamp
  draw_timestamp-Keeps = record { after = λ s h. quiet.clock _ _ s h }

  pub draw_timestamp-Runs : Runs P draw_timestamp
  unfolding draw_timestamp
  draw_timestamp-Runs = record { at = λ s h. quiet.clock _ _ s h }

  pub timestamp_or-Keeps : (t : Option String) → Keeps P (timestamp_or t)
  unfolding timestamp_or
  timestamp_or-Keeps none = draw_timestamp-Keeps
  timestamp_or-Keeps (some t) = search keeps_rules

  pub timestamp_or-Runs : (t : Option String) → Runs P (timestamp_or t)
  unfolding timestamp_or
  timestamp_or-Runs none = draw_timestamp-Runs
  timestamp_or-Runs (some t) = search runs_rules

  logged :
      (t : EntityType) (id : String) (body : String → Body) (s : PdsLedger)
      → P s
      → P (record_event_with t id body s).1
  unfolding record_event_with ◌>>=◌ draw_timestamp draw_identifier
  logged t id body s h = quiet.log _ _ (quiet.clock _ _ s h)

  pub record_event_with-Keeps :
      (t : EntityType) (id : String) (body : String → Body) → Keeps P (record_event_with t id body)
  record_event_with-Keeps t id body = record { after = logged t id body }

  pub record_event_with-Runs :
      (t : EntityType) (id : String) (body : String → Body) → Runs P (record_event_with t id body)
  unfolding record_event_with ◌>>=◌ draw_timestamp draw_identifier
  record_event_with-Runs t id body = record { at = λ s h. quiet.log _ _ (quiet.clock _ _ s h) }

  pub record_event-Keeps :
      (t : EntityType) (id : String) (body : Body) → Keeps P (record_event t id body)
  unfolding record_event
  record_event-Keeps t id body = record_event_with-Keeps t id (λ _. body)

  pub record_event-Runs :
      (t : EntityType) (id : String) (body : Body) → Runs P (record_event t id body)
  unfolding record_event
  record_event-Runs t id body = record_event_with-Runs t id (λ _. body)

  flagged :
      (t : AlertType) (id message : String) (evidence : List (String × Value)) (s : PdsLedger)
      → P s
      → P (raise_audit_flag t id message evidence s).1
  unfolding raise_audit_flag record_event record_event_with ◌>>=◌ draw_timestamp draw_identifier
  flagged t id message evidence s h = quiet.log _ _ (quiet.clock _ _ _ (quiet.alert _ s h))

  pub raise_audit_flag-Keeps :
      (t : AlertType) (id message : String) (evidence : List (String × Value))
      → Keeps P (raise_audit_flag t id message evidence)
  raise_audit_flag-Keeps t id message evidence = record { after = flagged t id message evidence }

  pub raise_audit_flag-Runs :
      (t : AlertType) (id message : String) (evidence : List (String × Value))
      → Runs P (raise_audit_flag t id message evidence)
  unfolding raise_audit_flag record_event record_event_with ◌>>=◌ draw_timestamp draw_identifier
  raise_audit_flag-Runs t id message evidence = record {
    at = λ s h. quiet.log _ _ (quiet.clock _ _ _ (quiet.alert _ s h));
  }

pub ruleset log_rules = (
  keeps_rules, draw_timestamp-Keeps, timestamp_or-Keeps, record_event-Keeps,
  record_event_with-Keeps, raise_audit_flag-Keeps,
)

pub ruleset log_runs = (
  runs_rules, draw_timestamp-Runs, timestamp_or-Runs, record_event-Runs, record_event_with-Runs,
  raise_audit_flag-Runs,
)
