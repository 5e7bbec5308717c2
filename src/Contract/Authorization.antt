-- ===== src/Contract/Authorization.antt =====
-- authorization.ts and operations.ts: the operations, which of them are queries, and which MSPs
-- may submit which.
use Prim.Native.String.{String}
use toomoki_cdac_pds.Prelude.{
  Bool, true, false, List, [], ◌∷◌, Option, some, none, str_eq, any, if◌then◌else◌,
}
use toomoki_cdac_pds.Contract.Stub.{Operation, Stub, Transaction, Outcome, Refusal}

abbrev pub is_chaincode_query : Operation → Bool
is_chaincode_query Operation.get_lot_history = true
is_chaincode_query Operation.get_distribution_history = true
is_chaincode_query Operation.get_current_stock = true
is_chaincode_query Operation.verify_database_hash = true
is_chaincode_query Operation.check_duplicate_claim = true
is_chaincode_query Operation.get_ration_card_history = true
is_chaincode_query Operation.get_active_entitlement_rules = true
is_chaincode_query Operation.get_entity_history = true
is_chaincode_query Operation.get_distributions_by_fps = true
is_chaincode_query Operation.get_stakeholders_by_type = true
is_chaincode_query _ = false

abbrev pub miller : String
miller = "ProcurementMillerMSP"

abbrev pub warehouse : String
warehouse = "GodownWarehouseMSP"

abbrev pub shop : String
shop = "FairPriceShopMSP"

abbrev pub department : String
department = "FoodAndCivilSuppliesMSP"

abbrev pub auditor : String
auditor = "AuditAuthorityMSP"

-- `OPERATION_MSP_ALLOWLIST`; `none` stands for an operation that it does not name.
abbrev pub operation_msp_allowlist : Operation → Option (List String)
operation_msp_allowlist Operation.create_commodity_lot = some (miller ∷ department ∷ [])
operation_msp_allowlist Operation.dispatch_lot = some (miller ∷ warehouse ∷ department ∷ [])
operation_msp_allowlist Operation.receive_lot = some (warehouse ∷ miller ∷ department ∷ [])
operation_msp_allowlist Operation.allocate_to_fps = some (warehouse ∷ department ∷ [])
operation_msp_allowlist Operation.record_fps_receipt = some (shop ∷ department ∷ [])
operation_msp_allowlist Operation.register_beneficiary_hash = some (shop ∷ department ∷ [])
operation_msp_allowlist Operation.create_monthly_entitlement = some (department ∷ [])
operation_msp_allowlist Operation.record_distribution = some (shop ∷ department ∷ [])
operation_msp_allowlist Operation.raise_audit_flag = some (auditor ∷ department ∷ [])
operation_msp_allowlist Operation.resolve_audit_flag = some (auditor ∷ department ∷ [])
operation_msp_allowlist Operation.register_stakeholder = some (department ∷ auditor ∷ [])
operation_msp_allowlist Operation.record_ledger_proof = some (auditor ∷ department ∷ [])
operation_msp_allowlist Operation.issue_ration_card = some (department ∷ [])
operation_msp_allowlist Operation.activate_ration_card = some (department ∷ [])
operation_msp_allowlist Operation.suspend_ration_card = some (department ∷ auditor ∷ [])
operation_msp_allowlist Operation.transfer_ration_card = some (department ∷ [])
operation_msp_allowlist Operation.acknowledge_grievance = some (shop ∷ [])
operation_msp_allowlist Operation.resolve_grievance = some (shop ∷ department ∷ [])
operation_msp_allowlist Operation.escalate_overdue_grievances = some (auditor ∷ [])
operation_msp_allowlist Operation.propose_entitlement_rule = some (department ∷ [])
operation_msp_allowlist Operation.approve_entitlement_rule = some (auditor ∷ [])
operation_msp_allowlist Operation.rollover_unclaimed_quota = some (department ∷ [])
operation_msp_allowlist _ = none

abbrev pub admits : Option (List String) → String → Bool
admits none msp_id = true
admits (some allowed) msp_id = any (λ m. str_eq m msp_id) allowed

-- `assertAuthorized`, before the rest of a transaction.
unfoldable pub authorized : {A : Type 0} → Operation → Stub → Transaction A → Transaction A
authorized operation stub rest world =
    if admits (operation_msp_allowlist operation) stub.msp_id
    then rest world
    else Outcome.refused (Refusal.unauthorized operation stub.msp_id)
