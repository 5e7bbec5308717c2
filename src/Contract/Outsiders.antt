-- ===== src/Contract/Outsiders.antt =====
-- Clients of none of the five MSPs, under the allow list.
use toomoki_cdac_pds.Contract.Authorization.{
  auditor, department, shop, warehouse, miller, is_chaincode_query, operation_msp_allowlist, admits,
}
use toomoki_cdac_pds.Contract.Stub.{Operation}
use toomoki_cdac_pds.Prelude.{inr, inl, ◌⊎◌, str_eq, String, ◌≡◌, refl, false}
use mathlib.Core.Bool.{true≢false}

-- The MSP is none of the five that the network has.
pub record IsOutsider (msp_id : String) : Type 0 where
  pub miller_ : str_eq miller msp_id ≡ false
  pub warehouse_ : str_eq warehouse msp_id ≡ false
  pub shop_ : str_eq shop msp_id ≡ false
  pub department_ : str_eq department msp_id ≡ false
  pub auditor_ : str_eq auditor msp_id ≡ false

module _ {msp_id : String} (o : IsOutsider msp_id) where
  pub outsider_denied :
      (operation : Operation)
      → is_chaincode_query operation ≡ false
      → (admits (operation_msp_allowlist operation) msp_id ≡ false)
        ⊎ (operation ≡ Operation.file_grievance)
  outsider_denied Operation.register_stakeholder h = inl (rw (o.department_, o.auditor_) refl)
  outsider_denied Operation.issue_ration_card h = inl (rw (o.department_) refl)
  outsider_denied Operation.activate_ration_card h = inl (rw (o.department_) refl)
  outsider_denied Operation.suspend_ration_card h = inl (rw (o.department_, o.auditor_) refl)
  outsider_denied Operation.transfer_ration_card h = inl (rw (o.department_) refl)
  outsider_denied Operation.propose_entitlement_rule h = inl (rw (o.department_) refl)
  outsider_denied Operation.approve_entitlement_rule h = inl (rw (o.auditor_) refl)
  outsider_denied Operation.rollover_unclaimed_quota h = inl (rw (o.department_) refl)
  outsider_denied Operation.create_commodity_lot h = inl (rw (o.miller_, o.department_) refl)
  outsider_denied Operation.dispatch_lot h = inl (rw (o.miller_, o.warehouse_, o.department_) refl)
  outsider_denied Operation.receive_lot h = inl (rw (o.warehouse_, o.miller_, o.department_) refl)
  outsider_denied Operation.allocate_to_fps h = inl (rw (o.warehouse_, o.department_) refl)
  outsider_denied Operation.record_fps_receipt h = inl (rw (o.shop_, o.department_) refl)
  outsider_denied Operation.register_beneficiary_hash h = inl (rw (o.shop_, o.department_) refl)
  outsider_denied Operation.create_monthly_entitlement h = inl (rw (o.department_) refl)
  outsider_denied Operation.record_distribution h = inl (rw (o.shop_, o.department_) refl)
  outsider_denied Operation.raise_audit_flag h = inl (rw (o.auditor_, o.department_) refl)
  outsider_denied Operation.resolve_audit_flag h = inl (rw (o.auditor_, o.department_) refl)
  outsider_denied Operation.record_ledger_proof h = inl (rw (o.auditor_, o.department_) refl)
  outsider_denied Operation.file_grievance h = inr refl
  outsider_denied Operation.acknowledge_grievance h = inl (rw (o.shop_) refl)
  outsider_denied Operation.resolve_grievance h = inl (rw (o.shop_, o.department_) refl)
  outsider_denied Operation.escalate_overdue_grievances h = inl (rw (o.auditor_) refl)
  outsider_denied Operation.get_lot_history h = absurd (true≢false h)
  outsider_denied Operation.get_distribution_history h = absurd (true≢false h)
  outsider_denied Operation.get_current_stock h = absurd (true≢false h)
  outsider_denied Operation.verify_database_hash h = absurd (true≢false h)
  outsider_denied Operation.check_duplicate_claim h = absurd (true≢false h)
  outsider_denied Operation.get_ration_card_history h = absurd (true≢false h)
  outsider_denied Operation.get_active_entitlement_rules h = absurd (true≢false h)
  outsider_denied Operation.get_entity_history h = absurd (true≢false h)
  outsider_denied Operation.get_distributions_by_fps h = absurd (true≢false h)
  outsider_denied Operation.get_stakeholders_by_type h = absurd (true≢false h)
