-- ===== src/Contract/Calls.antt =====
-- Every transaction of the two contracts, and what a client without the right may do: nothing.
use toomoki_cdac_pds.Contract.Outsiders.{outsider_denied, IsOutsider}
use toomoki_cdac_pds.Contract.Proofs.{record_ledger_proof_transaction}
use toomoki_cdac_pds.Ledger.Grievances.{ResolveInput, FileInput}
use toomoki_cdac_pds.Contract.Claims.{
  escalate_overdue_grievances_transaction, resolve_grievance_transaction,
  acknowledge_grievance_transaction, file_grievance_transaction, resolve_audit_flag_transaction,
  raise_audit_flag_transaction, record_distribution_transaction,
  create_monthly_entitlement_transaction, register_beneficiary_hash_transaction, FlagPayload,
}
use toomoki_cdac_pds.Contract.Data.{
  record_fps_receipt_transaction, allocate_to_fps_transaction, receive_lot_transaction,
  dispatch_lot_transaction, create_commodity_lot_transaction,
}
use toomoki_cdac_pds.Ledger.Allocate.{FpsReceiptInput, AllocateInput}
use toomoki_cdac_pds.Ledger.Receive.{ReceiveInput}
use toomoki_cdac_pds.Ledger.Dispatch.{DispatchInput}
use toomoki_cdac_pds.Ledger.Rules.{RolloverInput, ProposeInput}
use toomoki_cdac_pds.Contract.Control.{
  rollover_unclaimed_quota_transaction, approve_entitlement_rule_transaction,
  propose_entitlement_rule_transaction, transfer_ration_card_transaction,
  suspend_ration_card_transaction, activate_ration_card_transaction, TransferPayload,
  issue_ration_card_transaction, SuspendPayload, register_stakeholder_transaction,
}
use toomoki_cdac_pds.Ledger.Cards.{IssueInput}
use toomoki_cdac_pds.Contract.Authorization.{
  is_chaincode_query, operation_msp_allowlist, admits, authorized,
}
use toomoki_cdac_pds.Contract.Stub.{LedgerProof, world_after, World, Stub, Operation}
use toomoki_cdac_pds.SharedTypes.{
  DistributionTransaction, MonthlyEntitlement, AuthTransaction, CommodityLot, Stakeholder,
}
use toomoki_cdac_pds.Prelude.{inr, inl, ◌⊎◌, String, ◌≡◌, refl, false}
use mathlib.Core.Bool.{true≢false}

-- The transactions that change the world, with their payloads.
pub data Call : Type 0 where
  register_stakeholder : Stakeholder → Call
  issue_ration_card : IssueInput → Call
  activate_ration_card : String → Call
  suspend_ration_card : SuspendPayload → Call
  transfer_ration_card : TransferPayload → Call
  propose_entitlement_rule : ProposeInput → Call
  approve_entitlement_rule : String → Call
  rollover_unclaimed_quota : RolloverInput → Call
  create_commodity_lot : CommodityLot → Call
  dispatch_lot : DispatchInput → Call
  receive_lot : ReceiveInput → Call
  allocate_to_fps : AllocateInput → Call
  record_fps_receipt : FpsReceiptInput → Call
  register_beneficiary_hash : AuthTransaction → Call
  create_monthly_entitlement : MonthlyEntitlement → Call
  record_distribution : DistributionTransaction → Call
  raise_audit_flag : FlagPayload → Call
  resolve_audit_flag : String → String → String → Call
  record_ledger_proof : LedgerProof → Call
  file_grievance : FileInput → Call
  acknowledge_grievance : String → Call
  resolve_grievance : ResolveInput → Call
  escalate_overdue_grievances : Call

abbrev pub operation_of : Call → Operation
operation_of (Call.register_stakeholder _) = Operation.register_stakeholder
operation_of (Call.issue_ration_card _) = Operation.issue_ration_card
operation_of (Call.activate_ration_card _) = Operation.activate_ration_card
operation_of (Call.suspend_ration_card _) = Operation.suspend_ration_card
operation_of (Call.transfer_ration_card _) = Operation.transfer_ration_card
operation_of (Call.propose_entitlement_rule _) = Operation.propose_entitlement_rule
operation_of (Call.approve_entitlement_rule _) = Operation.approve_entitlement_rule
operation_of (Call.rollover_unclaimed_quota _) = Operation.rollover_unclaimed_quota
operation_of (Call.create_commodity_lot _) = Operation.create_commodity_lot
operation_of (Call.dispatch_lot _) = Operation.dispatch_lot
operation_of (Call.receive_lot _) = Operation.receive_lot
operation_of (Call.allocate_to_fps _) = Operation.allocate_to_fps
operation_of (Call.record_fps_receipt _) = Operation.record_fps_receipt
operation_of (Call.register_beneficiary_hash _) = Operation.register_beneficiary_hash
operation_of (Call.create_monthly_entitlement _) = Operation.create_monthly_entitlement
operation_of (Call.record_distribution _) = Operation.record_distribution
operation_of (Call.raise_audit_flag _) = Operation.raise_audit_flag
operation_of (Call.resolve_audit_flag _ _ _) = Operation.resolve_audit_flag
operation_of (Call.record_ledger_proof _) = Operation.record_ledger_proof
operation_of (Call.file_grievance _) = Operation.file_grievance
operation_of (Call.acknowledge_grievance _) = Operation.acknowledge_grievance
operation_of (Call.resolve_grievance _) = Operation.resolve_grievance
operation_of Call.escalate_overdue_grievances = Operation.escalate_overdue_grievances

-- The world that a transaction leaves.
unfoldable pub submit : Stub → Call → World → World
submit stub (Call.register_stakeholder x) w =
    world_after (register_stakeholder_transaction stub x w) w
submit stub (Call.issue_ration_card x) w = world_after (issue_ration_card_transaction stub x w) w
submit stub (Call.activate_ration_card x) w =
    world_after (activate_ration_card_transaction stub x w) w
submit stub (Call.suspend_ration_card x) w =
    world_after (suspend_ration_card_transaction stub x w) w
submit stub (Call.transfer_ration_card x) w =
    world_after (transfer_ration_card_transaction stub x w) w
submit stub (Call.propose_entitlement_rule x) w =
    world_after (propose_entitlement_rule_transaction stub x w) w
submit stub (Call.approve_entitlement_rule x) w =
    world_after (approve_entitlement_rule_transaction stub x w) w
submit stub (Call.rollover_unclaimed_quota x) w =
    world_after (rollover_unclaimed_quota_transaction stub x w) w
submit stub (Call.create_commodity_lot x) w =
    world_after (create_commodity_lot_transaction stub x w) w
submit stub (Call.dispatch_lot x) w = world_after (dispatch_lot_transaction stub x w) w
submit stub (Call.receive_lot x) w = world_after (receive_lot_transaction stub x w) w
submit stub (Call.allocate_to_fps x) w = world_after (allocate_to_fps_transaction stub x w) w
submit stub (Call.record_fps_receipt x) w = world_after (record_fps_receipt_transaction stub x w) w
submit stub (Call.register_beneficiary_hash x) w =
    world_after (register_beneficiary_hash_transaction stub x w) w
submit stub (Call.create_monthly_entitlement x) w =
    world_after (create_monthly_entitlement_transaction stub x w) w
submit stub (Call.record_distribution x) w =
    world_after (record_distribution_transaction stub x w) w
submit stub (Call.raise_audit_flag x) w = world_after (raise_audit_flag_transaction stub x w) w
submit stub (Call.resolve_audit_flag x by note) w =
    world_after (resolve_audit_flag_transaction stub x by note w) w
submit stub (Call.record_ledger_proof x) w =
    world_after (record_ledger_proof_transaction stub x w) w
submit stub (Call.file_grievance x) w = world_after (file_grievance_transaction stub x w) w
submit stub (Call.acknowledge_grievance x) w =
    world_after (acknowledge_grievance_transaction stub x w) w
submit stub (Call.resolve_grievance x) w = world_after (resolve_grievance_transaction stub x w) w
submit stub Call.escalate_overdue_grievances w =
    world_after (escalate_overdue_grievances_transaction stub w) w

-- A client whose MSP the allow list does not admit to an operation changes nothing by it.
pub submit-unauthorized :
    (stub : Stub) (call : Call) (w : World)
    → admits (operation_msp_allowlist (operation_of call)) stub.msp_id ≡ false
    → submit stub call w ≡ w
unfolding submit authorized register_stakeholder_transaction issue_ration_card_transaction
    activate_ration_card_transaction suspend_ration_card_transaction
    transfer_ration_card_transaction propose_entitlement_rule_transaction
    approve_entitlement_rule_transaction rollover_unclaimed_quota_transaction
    create_commodity_lot_transaction dispatch_lot_transaction receive_lot_transaction
    allocate_to_fps_transaction record_fps_receipt_transaction register_beneficiary_hash_transaction
    create_monthly_entitlement_transaction record_distribution_transaction
    raise_audit_flag_transaction resolve_audit_flag_transaction record_ledger_proof_transaction
    acknowledge_grievance_transaction resolve_grievance_transaction
    escalate_overdue_grievances_transaction
submit-unauthorized stub (Call.register_stakeholder x) w denied = rw denied refl
submit-unauthorized stub (Call.issue_ration_card x) w denied = rw denied refl
submit-unauthorized stub (Call.activate_ration_card x) w denied = rw denied refl
submit-unauthorized stub (Call.suspend_ration_card x) w denied = rw denied refl
submit-unauthorized stub (Call.transfer_ration_card x) w denied = rw denied refl
submit-unauthorized stub (Call.propose_entitlement_rule x) w denied = rw denied refl
submit-unauthorized stub (Call.approve_entitlement_rule x) w denied = rw denied refl
submit-unauthorized stub (Call.rollover_unclaimed_quota x) w denied = rw denied refl
submit-unauthorized stub (Call.create_commodity_lot x) w denied = rw denied refl
submit-unauthorized stub (Call.dispatch_lot x) w denied = rw denied refl
submit-unauthorized stub (Call.receive_lot x) w denied = rw denied refl
submit-unauthorized stub (Call.allocate_to_fps x) w denied = rw denied refl
submit-unauthorized stub (Call.record_fps_receipt x) w denied = rw denied refl
submit-unauthorized stub (Call.register_beneficiary_hash x) w denied = rw denied refl
submit-unauthorized stub (Call.create_monthly_entitlement x) w denied = rw denied refl
submit-unauthorized stub (Call.record_distribution x) w denied = rw denied refl
submit-unauthorized stub (Call.raise_audit_flag x) w denied = rw denied refl
submit-unauthorized stub (Call.resolve_audit_flag x by note) w denied = rw denied refl
submit-unauthorized stub (Call.record_ledger_proof x) w denied = rw denied refl
submit-unauthorized stub (Call.file_grievance x) w denied = absurd (true≢false denied)
submit-unauthorized stub (Call.acknowledge_grievance x) w denied = rw denied refl
submit-unauthorized stub (Call.resolve_grievance x) w denied = rw denied refl
submit-unauthorized stub Call.escalate_overdue_grievances w denied = rw denied refl

no_query : (call : Call) → is_chaincode_query (operation_of call) ≡ false
no_query (Call.register_stakeholder _) = refl
no_query (Call.issue_ration_card _) = refl
no_query (Call.activate_ration_card _) = refl
no_query (Call.suspend_ration_card _) = refl
no_query (Call.transfer_ration_card _) = refl
no_query (Call.propose_entitlement_rule _) = refl
no_query (Call.approve_entitlement_rule _) = refl
no_query (Call.rollover_unclaimed_quota _) = refl
no_query (Call.create_commodity_lot _) = refl
no_query (Call.dispatch_lot _) = refl
no_query (Call.receive_lot _) = refl
no_query (Call.allocate_to_fps _) = refl
no_query (Call.record_fps_receipt _) = refl
no_query (Call.register_beneficiary_hash _) = refl
no_query (Call.create_monthly_entitlement _) = refl
no_query (Call.record_distribution _) = refl
no_query (Call.raise_audit_flag _) = refl
no_query (Call.resolve_audit_flag _ _ _) = refl
no_query (Call.record_ledger_proof _) = refl
no_query (Call.file_grievance _) = refl
no_query (Call.acknowledge_grievance _) = refl
no_query (Call.resolve_grievance _) = refl
no_query Call.escalate_overdue_grievances = refl

-- Any client may file a grievance; no other transaction changes the world where the client's MSP is
-- none of the five.
pub submit-outsider :
    (stub : Stub) (call : Call) (w : World)
    → IsOutsider stub.msp_id
    → (submit stub call w ≡ w) ⊎ (operation_of call ≡ Operation.file_grievance)
submit-outsider stub call w outside =
    elim (outsider_denied outside (operation_of call) (no_query call)) [
      | inl denied ↦ inl (submit-unauthorized stub call w denied)
      | inr filing ↦ inr filing
    ]
