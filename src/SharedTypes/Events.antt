-- ===== src/SharedTypes/Events.antt =====
-- `LedgerEvent` of packages/shared-types/src/index.ts. The event type and the payload, a string
-- and an untyped record in the source, are one value here: a constructor for each event type
-- with the payload that the engine writes under it.
use toomoki_cdac_pds.Prelude.{String, Option, List, ℕ}
use toomoki_cdac_pds.Prelude.Int.{ℤ}
use toomoki_cdac_pds.SharedTypes.Enums.{EntityType}
use toomoki_cdac_pds.SharedTypes.Records.{
  Stakeholder, CommodityLot, TransferOrder, FpsAllocation, MonthlyEntitlement, AuthTransaction,
  DistributionTransaction, AuditAlert, RationCard, Grievance, EntitlementRule, Value,
}

-- The approval that `authorizeMovement` records.
pub record Approval : Type 0 where
  pub transfer_id : String
  pub authorized_by : String
  pub authorized_at : String
  pub ro_ref : Option String
  pub remarks : Option String

-- The summary that `rolloverUnclaimedQuota` records.
pub record RolloverSummary : Type 0 where
  pub from_month : String
  pub to_month : String
  pub commodity : String
  pub rollover_pct : ℤ
  pub rolled_over_kg : ℤ
  pub beneficiaries_affected : ℕ

-- The marker that `resetTransactionalData` records.
pub record ResetMarker : Type 0 where
  pub reset_at : String
  pub series_id : Option String
  pub lots : List CommodityLot
  pub commodity : Option String

pub data Body : Type 0 where
  register_stakeholder : Stakeholder → Body
  create_commodity_lot : CommodityLot → Body
  authorize_movement : Approval → Body
  dispatch_lot receive_lot : TransferOrder → Body
  allocate_to_fps record_fps_receipt : FpsAllocation → Body
  auth_transaction : AuthTransaction → Body
  create_monthly_entitlement : MonthlyEntitlement → Body
  record_distribution : DistributionTransaction → Body
  raise_audit_flag resolve_audit_flag : AuditAlert → Body
  issue_ration_card activate_ration_card : RationCard → Body
  suspend_ration_card transfer_ration_card : RationCard → Body
  file_grievance acknowledge_grievance resolve_grievance : Grievance → Body
  escalate_overdue_grievances : List String → String → Body
  propose_entitlement_rule approve_entitlement_rule : EntitlementRule → Body
  rollover_unclaimed_quota : RolloverSummary → Body
  reset_transactional_data : ResetMarker → Body
  -- any other event type, with a payload that the engine does not look into
  other : String → Body

-- `extras` are the fields of the payload that are not among those of its type.
pub record LedgerEvent : Type 0 where
  pub ledger_tx_id : String
  pub entity_type : EntityType
  pub entity_id : String
  pub body : Body
  pub extras : List (String × Value)
  pub timestamp : String

-- `eventType`
unfoldable pub event_type : Body → String
event_type (Body.register_stakeholder _) = "RegisterStakeholder"
event_type (Body.create_commodity_lot _) = "CreateCommodityLot"
event_type (Body.authorize_movement _) = "AuthorizeMovement"
event_type (Body.dispatch_lot _) = "DispatchLot"
event_type (Body.receive_lot _) = "ReceiveLot"
event_type (Body.allocate_to_fps _) = "AllocateToFPS"
event_type (Body.record_fps_receipt _) = "RecordFPSReceipt"
event_type (Body.auth_transaction _) = "AuthTransaction"
event_type (Body.create_monthly_entitlement _) = "CreateMonthlyEntitlement"
event_type (Body.record_distribution _) = "RecordDistribution"
event_type (Body.raise_audit_flag _) = "RaiseAuditFlag"
event_type (Body.resolve_audit_flag _) = "ResolveAuditFlag"
event_type (Body.issue_ration_card _) = "IssueRationCard"
event_type (Body.activate_ration_card _) = "ActivateRationCard"
event_type (Body.suspend_ration_card _) = "SuspendRationCard"
event_type (Body.transfer_ration_card _) = "TransferRationCard"
event_type (Body.file_grievance _) = "FileGrievance"
event_type (Body.acknowledge_grievance _) = "AcknowledgeGrievance"
event_type (Body.resolve_grievance _) = "ResolveGrievance"
event_type (Body.escalate_overdue_grievances _ _) = "EscalateOverdueGrievances"
event_type (Body.propose_entitlement_rule _) = "ProposeEntitlementRule"
event_type (Body.approve_entitlement_rule _) = "ApproveEntitlementRule"
event_type (Body.rollover_unclaimed_quota _) = "RolloverUnclaimedQuota"
event_type (Body.reset_transactional_data _) = "ResetTransactionalData"
event_type (Body.other t) = t
