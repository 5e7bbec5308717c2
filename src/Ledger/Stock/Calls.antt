-- ===== src/Ledger/Stock/Calls.antt =====
-- No command makes a stock position negative.
use toomoki_cdac_pds.Ledger.Stock.Movement.{
  rollover_unclaimed_quota-IsStocked, record_distribution-IsStocked, record_fps_receipt-IsStocked,
  allocate_to_fps-IsStocked, receive_lot-IsStocked, authorize_movement-IsStocked,
  dispatch_lot-IsStocked, create_commodity_lot-IsStocked,
}
use toomoki_cdac_pds.Ledger.Stock.{IsStocked-registers, IsStocked, NotNegative}
use toomoki_cdac_pds.Ledger.Session.{perform, Command}
use toomoki_cdac_pds.Ledger.Quiet.Registers.{
  register_stakeholder-Keeps, simulate_authentication-Keeps, create_or_update_entitlement-Keeps,
  issue_ration_card-Keeps, activate_ration_card-Keeps, suspend_ration_card-Keeps,
  transfer_ration_card-Keeps, file_grievance-Keeps, acknowledge_grievance-Keeps,
  resolve_grievance-Keeps, escalate_overdue_grievances-Keeps, propose_entitlement_rule-Keeps,
  approve_entitlement_rule-Keeps, resolve_audit_alert-Keeps, reconcile_alerts-Keeps,
}
use toomoki_cdac_pds.Ledger.State.{PdsLedger}

-- A lot that is created is not of a negative quantity.
abbrev pub IsSane : Command → Type 0
IsSane (Command.create_commodity_lot x) = NotNegative x.quantity_kg
IsSane _ = Unit

-- None of the 23 commands of Ledger/Session, neither the reset nor the replay of foreign events
-- among them, makes a stock position negative: a withdrawal beyond the position throws, and what
-- comes in is positive. A lot that is created must not be of a negative quantity.
pub perform-IsStocked :
    (c : Command) (s : PdsLedger) → IsSane c → IsStocked s → IsStocked (perform c s)
unfolding perform
perform-IsStocked (Command.register_stakeholder x) s sane h =
    (register_stakeholder-Keeps IsStocked-registers x).after s h
perform-IsStocked (Command.create_commodity_lot x) s sane h =
    (create_commodity_lot-IsStocked x sane).after s h
perform-IsStocked (Command.dispatch_lot x) s sane h = (dispatch_lot-IsStocked x).after s h
perform-IsStocked (Command.authorize_movement x) s sane h =
    (authorize_movement-IsStocked x).after s h
perform-IsStocked (Command.receive_lot x) s sane h = (receive_lot-IsStocked x).after s h
perform-IsStocked (Command.allocate_to_fps x) s sane h = (allocate_to_fps-IsStocked x).after s h
perform-IsStocked (Command.record_fps_receipt x) s sane h =
    (record_fps_receipt-IsStocked x).after s h
perform-IsStocked (Command.simulate_authentication x) s sane h =
    (simulate_authentication-Keeps IsStocked-registers x).after s h
perform-IsStocked (Command.create_or_update_entitlement x) s sane h =
    (create_or_update_entitlement-Keeps IsStocked-registers x).after s h
perform-IsStocked (Command.record_distribution x) s sane h =
    (record_distribution-IsStocked x).after s h
perform-IsStocked (Command.issue_ration_card x) s sane h =
    (issue_ration_card-Keeps IsStocked-registers x).after s h
perform-IsStocked (Command.activate_ration_card x) s sane h =
    (activate_ration_card-Keeps IsStocked-registers x).after s h
perform-IsStocked (Command.suspend_ration_card x reason at) s sane h =
    (suspend_ration_card-Keeps IsStocked-registers x reason at).after s h
perform-IsStocked (Command.transfer_ration_card x) s sane h =
    (transfer_ration_card-Keeps IsStocked-registers x).after s h
perform-IsStocked (Command.file_grievance x) s sane h =
    (file_grievance-Keeps IsStocked-registers x).after s h
perform-IsStocked (Command.acknowledge_grievance x at) s sane h =
    (acknowledge_grievance-Keeps IsStocked-registers x at).after s h
perform-IsStocked (Command.resolve_grievance x) s sane h =
    (resolve_grievance-Keeps IsStocked-registers x).after s h
perform-IsStocked (Command.escalate_overdue_grievances at) s sane h =
    (escalate_overdue_grievances-Keeps IsStocked-registers at).after s h
perform-IsStocked (Command.propose_entitlement_rule x) s sane h =
    (propose_entitlement_rule-Keeps IsStocked-registers x).after s h
perform-IsStocked (Command.approve_entitlement_rule x by) s sane h =
    (approve_entitlement_rule-Keeps IsStocked-registers x by).after s h
perform-IsStocked (Command.rollover_unclaimed_quota x) s sane h =
    (rollover_unclaimed_quota-IsStocked x).after s h
perform-IsStocked (Command.resolve_audit_alert x by note) s sane h =
    (resolve_audit_alert-Keeps IsStocked-registers x by note).after s h
perform-IsStocked Command.reconcile_alerts s sane h =
    (reconcile_alerts-Keeps IsStocked-registers).after s h
