-- ===== src/SharedTypes/Enums.antt =====
-- The enumerations of packages/shared-types/src/index.ts, and the comparisons the engine makes.
use toomoki_cdac_pds.Prelude.{Bool, true, false}

pub data StakeholderType : Type 0 where
  fci transporter state_godown block_godown fair_price_shop : StakeholderType
  district_supply_office block_supply_office auditor : StakeholderType

pub data StakeholderStatus : Type 0 where
  active inactive : StakeholderStatus

pub data LotStatus : Type 0 where
  created dispatched received received_with_shortage : LotStatus

pub data TransferStatus : Type 0 where
  dispatched received received_with_shortage : TransferStatus

-- The string literals of `FpsAllocation.status`.
pub data AllocationStatus : Type 0 where
  allocated received received_with_shortage : AllocationStatus

pub data AuthMode : Type 0 where
  mock_otp simulated_biometric supervisor_exception : AuthMode

pub data AuthResult : Type 0 where
  success failure exception_approved : AuthResult

pub data AlertType : Type 0 where
  short_receipt duplicate_claim fps_over_distribution unauthorized_transaction : AlertType
  db_ledger_mismatch in_transit_delay fps_closing_stock_mismatch : AlertType
  distribution_tampered grievance_sla_breach : AlertType

-- APL and BPL are further names of NPH and PHH.
pub data RationCardType : Type 0 where
  aay phh nph : RationCardType

pub data RationCardStatus : Type 0 where
  issued active suspended cancelled : RationCardStatus

pub data GrievanceType : Type 0 where
  not_received quantity_short quality_poor unauthorized_charge other : GrievanceType

pub data GrievanceStatus : Type 0 where
  open_ acknowledged escalated resolved : GrievanceStatus

pub data EntitlementRuleStatus : Type 0 where
  pending_approval active superseded : EntitlementRuleStatus

pub data RiskLevel : Type 0 where
  low medium high : RiskLevel

pub data AlertStatus : Type 0 where
  open_ in_review resolved : AlertStatus

pub data Stage : Type 0 where
  stage_i stage_ii : Stage

pub data ApprovalStatus : Type 0 where
  pending approved rejected blocked : ApprovalStatus

pub data SourceSystem : Type 0 where
  smartpds_rcms state_scm aepds_epos viksitpds_demo : SourceSystem

pub data SourceEventStatus : Type 0 where
  accepted duplicate conflicted rejected quarantined processed reconciled : SourceEventStatus

-- `'CENTRAL' | 'STATE'`
pub data Jurisdiction : Type 0 where
  central state : Jurisdiction

pub data EntityType : Type 0 where
  stakeholder lot transfer allocation auth distribution audit rationcard : EntityType
  grievance entitlementrule workflow eligibility_case beneficiary_registry : EntityType

-- Which kind of lot a route leg moves.
pub data LotKind : Type 0 where
  source transformed : LotKind

abbrev pub is_active : StakeholderStatus → Bool
is_active StakeholderStatus.active = true
is_active StakeholderStatus.inactive = false

abbrev pub is_transporter : StakeholderType → Bool
is_transporter StakeholderType.transporter = true
is_transporter _ = false

abbrev pub lot_in_transit : LotStatus → Bool
lot_in_transit LotStatus.dispatched = true
lot_in_transit _ = false

abbrev pub in_transit : TransferStatus → Bool
in_transit TransferStatus.dispatched = true
in_transit _ = false

abbrev pub awaiting_receipt : AllocationStatus → Bool
awaiting_receipt AllocationStatus.allocated = true
awaiting_receipt _ = false

abbrev pub auth_failed : AuthResult → Bool
auth_failed AuthResult.failure = true
auth_failed _ = false

-- `authMode === SUPERVISOR_EXCEPTION || authResult === EXCEPTION_APPROVED`
abbrev pub needs_review : AuthMode → AuthResult → Bool
needs_review AuthMode.supervisor_exception _ = true
needs_review _ AuthResult.exception_approved = true
needs_review _ _ = false

abbrev pub card_active : RationCardStatus → Bool
card_active RationCardStatus.active = true
card_active _ = false

abbrev pub card_cancelled : RationCardStatus → Bool
card_cancelled RationCardStatus.cancelled = true
card_cancelled _ = false

abbrev pub grievance_open : GrievanceStatus → Bool
grievance_open GrievanceStatus.open_ = true
grievance_open _ = false

abbrev pub grievance_resolved : GrievanceStatus → Bool
grievance_resolved GrievanceStatus.resolved = true
grievance_resolved _ = false

-- `status === OPEN || status === ACKNOWLEDGED`
abbrev pub grievance_pending : GrievanceStatus → Bool
grievance_pending GrievanceStatus.open_ = true
grievance_pending GrievanceStatus.acknowledged = true
grievance_pending _ = false

abbrev pub rule_active : EntitlementRuleStatus → Bool
rule_active EntitlementRuleStatus.active = true
rule_active _ = false

abbrev pub rule_pending : EntitlementRuleStatus → Bool
rule_pending EntitlementRuleStatus.pending_approval = true
rule_pending _ = false

abbrev pub same_category : RationCardType → RationCardType → Bool
same_category RationCardType.aay RationCardType.aay = true
same_category RationCardType.phh RationCardType.phh = true
same_category RationCardType.nph RationCardType.nph = true
same_category _ _ = false

abbrev pub is_stage_ii : Stage → Bool
is_stage_ii Stage.stage_ii = true
is_stage_ii Stage.stage_i = false

abbrev pub same_kind : LotKind → LotKind → Bool
same_kind LotKind.source LotKind.source = true
same_kind LotKind.transformed LotKind.transformed = true
same_kind _ _ = false
