-- ===== src/Contract/Claims.antt =====
-- `PdsDataContract` of blockchain/chaincode/pds-chaincode/src/contract.ts: authentications,
-- entitlements, distributions, audit flags and grievances.
use toomoki_cdac_pds.SharedTypes.Events.{LedgerEvent}
use toomoki_cdac_pds.Ledger.Queries
use toomoki_cdac_pds.Ledger.Alerts.{resolve_audit_alert}
use toomoki_cdac_pds.Contract.Control.{named_alert}
use toomoki_cdac_pds.Ledger.Distribute.{create_or_update_entitlement, simulate_authentication}
use toomoki_cdac_pds.Ledger.Exec.{Result}
use toomoki_cdac_pds.Prelude.Int.{ℤ}
use toomoki_cdac_pds.Ledger.Reset.{take_chars}
use toomoki_cdac_pds.Ledger.Grievances.{ResolveInput, FileInput}
use toomoki_cdac_pds.Ledger.Persist.{PdsLedgerState}
use toomoki_cdac_pds.SharedTypes.{
  AuditAlert, Grievance, Value, DistributionTransaction, MonthlyEntitlement, AuthTransaction,
  AlertType,
}
use toomoki_cdac_pds.Contract.Stub.{tx_timestamp, Operation, Transaction, World, Stub}
use toomoki_cdac_pds.Contract.Collections.{
  load_stock, save_distributions, save_entitlements, entitlement_attributes,
  entitlement_composite_key, save_auth_transactions, id_key, save_stock, read_each, save_grievances,
  save_alerts, read_ids, save_events, empty_state, Submitted, load_collection, read_stock,
  query_state, build_engine, transact,
}
use Prim.Native.String.{String}
use toomoki_cdac_pds.Prelude.{true, Bool, Option, some, List, [], ◌∷◌, str_eq}
use toomoki_cdac_pds.StringMap.{set}
use toomoki_cdac_pds.Contract.Authorization.{authorized}
use toomoki_cdac_pds.Ledger.Distribute
use toomoki_cdac_pds.Ledger.Grievances
use toomoki_cdac_pds.Ledger.Record

unfoldable pub register_beneficiary_hash_transaction :
    Stub → AuthTransaction → Transaction (Submitted AuthTransaction)
unfolding transact
register_beneficiary_hash_transaction stub payload =
    authorized Operation.register_beneficiary_hash stub (λ world.
      transact stub
        (record empty_state {
          auth_transactions = read_ids stub world.auth_transactions (payload.auth_txn_id ∷ []);
        })
        (simulate_authentication payload)
        (λ _ s w. save_events stub s (save_auth_transactions stub s w)) world)

unfoldable pub create_monthly_entitlement_transaction :
    Stub → MonthlyEntitlement → Transaction (Submitted MonthlyEntitlement)
unfolding transact query_state
create_monthly_entitlement_transaction stub payload =
    authorized Operation.create_monthly_entitlement stub (λ world.
      transact stub
        (record empty_state {
          entitlements = read_each world.entitlements (entitlement_composite_key stub payload ∷ []);
          entitlement_rules = some (query_state stub (λ _. true) world.entitlement_rules);
        })
        (create_or_update_entitlement payload)
        (λ _ s w. save_events stub s (save_entitlements stub s w)) world)

-- The month of the transaction is the first seven characters of its timestamp.
abbrev pub load_claim : Stub → DistributionTransaction → World → PdsLedgerState
load_claim stub d world = record empty_state {
  distributions = read_ids stub world.distributions (d.distribution_id ∷ []);
  entitlements = read_each world.entitlements (
      stub.composite_key
        (entitlement_attributes d.ration_card_hash d.commodity (take_chars 7 (tx_timestamp stub)))
      ∷ []);
  stock = read_stock stub world ((d.fps_id, d.commodity) ∷ []);
  ration_cards = some (read_ids stub world.ration_cards (d.ration_card_hash ∷ []));
}

abbrev pub save_claim : Stub → PdsLedgerState → World → World
save_claim stub s w = save_events stub s (
    save_alerts stub s (save_stock stub s (save_entitlements stub s (save_distributions stub s w))))

unfoldable pub record_distribution_transaction :
    Stub → DistributionTransaction → Transaction (Submitted DistributionTransaction)
unfolding transact read_stock take_chars
record_distribution_transaction stub payload =
    authorized Operation.record_distribution stub (λ world.
      transact stub (load_claim stub payload world)
        (Distribute.record_distribution
          (record { distribution = payload; timestamp = some (tx_timestamp stub) }))
        (λ _ s w. save_claim stub s w) world)

pub record FlagPayload : Type 0 where
  pub alert_type : AlertType
  pub entity_id : String
  pub message : String
  pub evidence : List (String × Value)
  pub alert_id : Option String

abbrev pub load_alerts : Stub → List String → World → PdsLedgerState
load_alerts stub ids world = record empty_state { alerts = read_ids stub world.alerts ids }

abbrev pub save_flag : Stub → PdsLedgerState → World → World
save_flag stub s w = save_events stub s (save_alerts stub s w)

unfoldable pub raise_audit_flag_transaction :
    Stub → FlagPayload → Transaction (Submitted AuditAlert)
unfolding transact
raise_audit_flag_transaction stub payload = authorized Operation.raise_audit_flag stub (λ world.
    transact stub (load_alerts stub (named_alert payload.alert_id) world)
      (Record.raise_audit_flag payload.alert_type payload.entity_id payload.message
        payload.evidence)
      (λ _ s w. save_flag stub s w) world)

unfoldable pub resolve_audit_flag_transaction :
    Stub → String → String → String → Transaction (Submitted AuditAlert)
unfolding transact
resolve_audit_flag_transaction stub alert_id resolved_by note =
    authorized Operation.resolve_audit_flag stub (λ world.
      transact stub (load_alerts stub (alert_id ∷ []) world)
        (resolve_audit_alert alert_id resolved_by note) (λ _ s w. save_flag stub s w) world)

abbrev pub load_grievance : Stub → String → World → PdsLedgerState
load_grievance stub id world = record empty_state {
  grievances = some (read_ids stub world.grievances (id ∷ []));
}

-- The collections that `saveCollection` writes, and the grievance written once more.
abbrev pub save_grievance : Stub → Grievance → PdsLedgerState → World → World
save_grievance stub g s w =
    let saved = save_events stub s (save_grievances stub s w) in
    record saved { grievances = set saved.grievances (id_key stub g.grievance_id) g }

-- Any authenticated MSP may file a grievance.
unfoldable pub file_grievance_transaction : Stub → FileInput → Transaction (Submitted Grievance)
unfolding transact
file_grievance_transaction stub payload world =
    transact stub (load_grievance stub payload.grievance_id world)
      (Grievances.file_grievance (record payload { filed_at = some (tx_timestamp stub) }))
      (save_grievance stub) world

unfoldable pub acknowledge_grievance_transaction : Stub → String → Transaction (Submitted Grievance)
unfolding transact
acknowledge_grievance_transaction stub grievance_id =
    authorized Operation.acknowledge_grievance stub (λ world.
      transact stub (load_grievance stub grievance_id world)
        (Grievances.acknowledge_grievance grievance_id (some (tx_timestamp stub)))
        (save_grievance stub) world)

unfoldable pub resolve_grievance_transaction :
    Stub → ResolveInput → Transaction (Submitted Grievance)
unfolding transact
resolve_grievance_transaction stub payload = authorized Operation.resolve_grievance stub (λ world.
    transact stub (load_grievance stub payload.grievance_id world)
      (Grievances.resolve_grievance (record payload { resolved_at = some (tx_timestamp stub) }))
      (save_grievance stub) world)

unfoldable pub escalate_overdue_grievances_transaction :
    Stub → Transaction (Submitted (List Grievance × List AuditAlert))
unfolding transact load_collection
escalate_overdue_grievances_transaction stub =
    authorized Operation.escalate_overdue_grievances stub (λ world.
      transact stub
        (record empty_state {
          grievances = some (load_collection stub world.grievances);
          alerts = load_collection stub world.alerts;
          events = load_collection stub world.events;
        })
        (Grievances.escalate_overdue_grievances (some (tx_timestamp stub)))
        (λ _ s w. save_events stub s (save_alerts stub s (save_grievances stub s w))) world)

-- `CheckDuplicateClaim`, a query.
unfoldable pub query_duplicate_claim :
    Stub → String → String → String → ℤ → World → Result (Bool × ℤ)
unfolding build_engine load_collection
query_duplicate_claim stub card commodity month requested world =
    (Distribute.check_duplicate_claim card commodity month requested (
      build_engine stub
        (record empty_state { entitlements = load_collection stub world.entitlements }))).0

-- `GetDistributionsByFPS`
unfoldable pub query_distributions_by_fps : Stub → String → World → List DistributionTransaction
unfolding query_state
query_distributions_by_fps stub fps_id world =
    query_state stub (λ d. str_eq d.fps_id fps_id) world.distributions

-- `GetCurrentStock`
unfoldable pub query_current_stock : Stub → World → List (String × ℤ)
unfolding load_stock
query_current_stock stub world = load_stock stub world

-- `VerifyDatabaseHash`, with `JSON.stringify` as a parameter.
unfoldable pub query_database_hash :
    Stub → (List LedgerEvent → String) → String → World → Bool × String
unfolding build_engine load_collection Queries.verify_database_hash
query_database_hash stub stringify digest world =
    Queries.verify_database_hash stringify digest
      (build_engine stub (record empty_state { events = load_collection stub world.events }))
