-- ===== src/Ledger/Record.antt =====
-- Timestamps and identifiers, `recordEvent`, `raiseAuditFlag`, and the two stock movements.
use toomoki_cdac_pds.Prelude.{String, suc, Option, none, some, List, [], ◌∷◌, ◌++◌, ◌otherwise◌}
use toomoki_cdac_pds.Prelude.Int.{ℤ, pos, ◌+ℤ◌, ◌-ℤ◌, ltb_ℤ}
use Prim.Native.String.{◌++◌ as append}
use toomoki_cdac_pds.StringMap.{get, set}
use toomoki_cdac_pds.SharedTypes.{AlertType, RiskLevel, AlertStatus, EntityType, AuditAlert, Value}
use toomoki_cdac_pds.SharedTypes.Events.{Body, LedgerEvent}
use toomoki_cdac_pds.Ledger.State.{PdsLedger, insufficient_stock}
use toomoki_cdac_pds.Ledger.Exec.{Exec, ok, pure, gets, throw_if, modify, ◌>>=◌, ◌>>◌}
use toomoki_cdac_pds.Ledger.Checks.{key_for}

-- `this.timestamp()`
unfoldable pub draw_timestamp : Exec String
draw_timestamp s = (
  ok (s.runtime.timestamp s.timestamps_drawn),
  record s { timestamps_drawn = suc s.timestamps_drawn },
)

-- `this.identifier()`
unfoldable pub draw_identifier : Exec String
draw_identifier s = (
  ok (s.runtime.identifier s.identifiers_drawn),
  record s { identifiers_drawn = suc s.identifiers_drawn },
)

-- `given ?? this.timestamp()`
unfoldable pub timestamp_or : Option String → Exec String
unfolding draw_timestamp
timestamp_or none = draw_timestamp
timestamp_or (some t) = pure t

-- `this.events.push(event)`
abbrev pub push_event : LedgerEvent → PdsLedger → PdsLedger
push_event event s = record s { events = s.events ++ event ∷ [] }

-- `recordEvent`, which returns the event's `ledgerTxId`. The payload may name that id: an object
-- that is changed after it was recorded shows the change in the event.
unfoldable pub record_event_with : EntityType → String → (String → Body) → Exec String
unfolding draw_timestamp draw_identifier
record_event_with entity_type entity_id body = do
  id ← draw_identifier
  let ledger_tx_id = append "TX-" id
  timestamp ← draw_timestamp
  modify (
      push_event (record {
        ledger_tx_id = ledger_tx_id;
        entity_type = entity_type;
        entity_id = entity_id;
        body = body ledger_tx_id;
        extras = [];
        timestamp = timestamp;
      }))
  pure ledger_tx_id

unfoldable pub record_event : EntityType → String → Body → Exec String
unfolding record_event_with
record_event entity_type entity_id body = record_event_with entity_type entity_id (λ _. body)

-- The risk level that `raiseAuditFlag` gives an alert.
abbrev pub risk_of : AlertType → RiskLevel
risk_of AlertType.db_ledger_mismatch = RiskLevel.high
risk_of AlertType.unauthorized_transaction = RiskLevel.high
risk_of _ = RiskLevel.medium

abbrev pub set_alert : AuditAlert → PdsLedger → PdsLedger
set_alert a s = record s { alerts = set s.alerts a.alert_id a }

unfoldable pub raise_audit_flag :
    AlertType → String → String → List (String × Value) → Exec AuditAlert
unfolding draw_timestamp draw_identifier record_event
raise_audit_flag alert_type entity_id message evidence = do
  id ← draw_identifier
  created_at ← draw_timestamp
  let alert : AuditAlert = record {
    alert_id = append "ALERT-" id;
    alert_type = alert_type;
    entity_id = entity_id;
    risk_level = risk_of alert_type;
    message = message;
    status = AlertStatus.open_;
    evidence = evidence;
    created_at = created_at;
    resolved_at = none;
    resolved_by = none;
    resolution_note = none;
  }
  modify (set_alert alert)
  record_event EntityType.audit alert.alert_id (Body.raise_audit_flag alert)
  pure alert

-- The stock position of an owner in a commodity.
abbrev pub stock_at : String → String → PdsLedger → ℤ
stock_at entity_id commodity s = get s.stock (key_for entity_id commodity) otherwise pos 0

unfoldable pub consume_stock : String → String → ℤ → Exec (Unit {0})
consume_stock entity_id commodity qty = do
  current ← gets (stock_at entity_id commodity)
  throw_if (ltb_ℤ current qty) (insufficient_stock entity_id commodity)
  modify (λ s. record s { stock = set s.stock (key_for entity_id commodity) (current -ℤ qty) })

unfoldable pub add_stock : String → String → ℤ → Exec (Unit {0})
add_stock entity_id commodity qty = do
  current ← gets (stock_at entity_id commodity)
  modify (λ s. record s { stock = set s.stock (key_for entity_id commodity) (current +ℤ qty) })
