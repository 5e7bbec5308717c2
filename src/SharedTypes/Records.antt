-- ===== src/SharedTypes/Records.antt =====
-- The record types of packages/shared-types/src/index.ts. An optional field is an `Option`;
-- quantities are whole kilograms.
use toomoki_cdac_pds.Prelude.{String, ℕ, Bool, Option, List}
use toomoki_cdac_pds.Prelude.Int.{ℤ}
use toomoki_cdac_pds.SharedTypes.Enums.{
  SourceSystem, SourceEventStatus, Jurisdiction, StakeholderType, StakeholderStatus, LotStatus,
  TransferStatus, AllocationStatus, AuthMode, AuthResult, AlertType, RationCardType,
  RationCardStatus, GrievanceType, GrievanceStatus, EntitlementRuleStatus, RiskLevel, AlertStatus,
  Stage, ApprovalStatus,
}

pub record SourceProvenance : Type 0 where
  pub source_system : SourceSystem
  pub source_event_id : String
  pub schema_version : String
  pub occurred_at : String
  pub ingested_at : String
  pub approved_payload_hash : String
  pub operation_id : String
  pub status : SourceEventStatus

pub record Stakeholder : Type 0 where
  pub stakeholder_id : String
  pub stakeholder_type : StakeholderType
  pub name : String
  pub district : String
  pub license_no : String
  pub status : StakeholderStatus
  pub jurisdiction : Option Jurisdiction
  pub capacity_kg : Option ℤ
  pub dealer_name : Option String
  pub dealer_id : Option String
  pub shop_no : Option String
  pub block_name : Option String
  pub tehsil_name : Option String
  pub location : Option String

pub record CommodityLot : Type 0 where
  pub lot_id : String
  pub commodity : String
  pub season : String
  pub quantity_kg : ℤ
  pub quality_grade : String
  pub source : String
  pub current_owner : String
  pub current_location : String
  pub status : LotStatus
  pub transformed_from_lot_id : Option String
  pub created_at : Option String
  pub root_lot_id : Option String
  pub parent_lot_id : Option String
  pub original_quantity_kg : Option ℤ
  pub remaining_quantity_kg : Option ℤ
  pub unit : Option String
  pub version : Option ℕ

pub record TransferOrder : Type 0 where
  pub transfer_id : String
  pub lot_id : String
  pub from_org : String
  pub to_org : String
  pub dispatched_qty_kg : ℤ
  pub received_qty_kg : Option ℤ
  pub shortage_qty_kg : Option ℤ
  pub vehicle_no : String
  pub status : TransferStatus
  pub dispatch_timestamp : String
  pub receive_timestamp : Option String
  pub stage : Option Stage
  pub authorized_by : Option String
  pub authorized_at : Option String
  pub approval_status : Option ApprovalStatus
  pub ro_ref : Option String
  pub transporter_id : String
  pub transporter_name : String
  pub transformed_from_lot_id : Option String
  pub provenance : Option SourceProvenance

pub record FpsAllocation : Type 0 where
  pub allocation_id : String
  pub fps_id : String
  pub commodity : String
  pub allocated_qty_kg : ℤ
  pub received_qty_kg : Option ℤ
  pub shortage_qty_kg : Option ℤ
  pub month : String
  pub source_godown_id : String
  pub status : AllocationStatus
  pub transporter_id : String
  pub transporter_name : String
  pub vehicle_no : String
  pub dispatch_timestamp : String
  pub receive_timestamp : Option String
  pub ledger_tx_id : Option String
  pub provenance : Option SourceProvenance

pub record MonthlyEntitlement : Type 0 where
  pub ration_card_hash : String
  pub commodity : String
  pub month : String
  pub monthly_entitlement_kg : ℤ
  pub already_lifted_kg : ℤ
  pub available_balance_kg : ℤ
  pub active : Bool
  pub category : Option RationCardType
  pub ledger_tx_id : Option String
  pub provenance : Option SourceProvenance

pub record AuthTransaction : Type 0 where
  pub auth_txn_id : String
  pub fps_id : Option String
  pub operator_ref : Option String
  pub beneficiary_ref_hash : String
  pub ration_card_hash : String
  pub auth_mode : AuthMode
  pub auth_result : AuthResult
  pub auth_txn_ref_hash : String
  pub approved_by : Option String
  pub timestamp : String
  pub ledger_tx_id : Option String
  pub provenance : Option SourceProvenance

pub record DistributionTransaction : Type 0 where
  pub distribution_id : String
  pub fps_id : String
  pub ration_card_hash : String
  pub beneficiary_ref_hash : String
  pub commodity : String
  pub delivered_kg : ℤ
  pub auth_mode : AuthMode
  pub auth_result : AuthResult
  pub auth_txn_ref_hash : String
  pub dealer_id : String
  pub timestamp : String
  pub ledger_tx_id : Option String
  pub provenance : Option SourceProvenance

-- `string | number | boolean`
pub data Value : Type 0 where
  text : String → Value
  number : ℤ → Value
  flag : Bool → Value

pub record AuditAlert : Type 0 where
  pub alert_id : String
  pub alert_type : AlertType
  pub entity_id : String
  pub risk_level : RiskLevel
  pub message : String
  pub status : AlertStatus
  pub evidence : List (String × Value)
  pub created_at : String
  pub resolved_at : Option String
  pub resolved_by : Option String
  pub resolution_note : Option String

pub record CardTransfer : Type 0 where
  pub from_fps : String
  pub to_fps : String
  pub at : String
  pub authorized_by : String

pub record RationCard : Type 0 where
  pub ration_card_hash : String
  pub card_type : RationCardType
  pub assigned_fps_id : String
  pub issued_at : String
  pub status : RationCardStatus
  pub suspended_at : Option String
  pub suspend_reason : Option String
  pub cancelled_at : Option String
  pub transfer_history : List CardTransfer

pub record Grievance : Type 0 where
  pub grievance_id : String
  pub ration_card_hash : String
  pub fps_id : String
  pub grievance_type : GrievanceType
  pub description : String
  pub status : GrievanceStatus
  pub filed_at : String
  pub sla_deadline_at : String
  pub acknowledged_at : Option String
  pub escalated_at : Option String
  pub resolved_at : Option String
  pub resolved_by : Option String
  pub resolution_note : Option String

pub record EntitlementRule : Type 0 where
  pub rule_id : String
  pub category : RationCardType
  pub commodity : String
  pub monthly_kg : ℤ
  pub effective_from : String
  pub effective_to : Option String
  pub status : EntitlementRuleStatus
  pub proposed_by : String
  pub approved_by : Option String
