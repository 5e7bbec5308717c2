-- ===== src/Ledger/Session/Keyed.antt =====
-- Whatever is called, every record stands under its own id.
use toomoki_cdac_pds.Prelude.Int.{ℤ}
use toomoki_cdac_pds.Ledger.State.{PdsLedger}
use toomoki_cdac_pds.Ledger.Session.{Command, perform, Session}
use toomoki_cdac_pds.Ledger.Quiet.Registers.{
  register_stakeholder-Keeps, simulate_authentication-Keeps, create_or_update_entitlement-Keeps,
  issue_ration_card-Keeps, activate_ration_card-Keeps, suspend_ration_card-Keeps,
  transfer_ration_card-Keeps, file_grievance-Keeps, acknowledge_grievance-Keeps,
  resolve_grievance-Keeps, escalate_overdue_grievances-Keeps, propose_entitlement_rule-Keeps,
  approve_entitlement_rule-Keeps, resolve_audit_alert-Keeps, reconcile_alerts-Keeps,
}
use toomoki_cdac_pds.Ledger.Keyed.{IsKeyed}
use toomoki_cdac_pds.Ledger.Keyed.Movement.{
  create_commodity_lot-IsKeyed, dispatch_lot-IsKeyed, authorize_movement-IsKeyed,
  receive_lot-IsKeyed, allocate_to_fps-IsKeyed, record_fps_receipt-IsKeyed,
}
use toomoki_cdac_pds.Ledger.Keyed.Distribute.{
  IsKeyed-registers, record_distribution-IsKeyed, rollover_unclaimed_quota-IsKeyed,
}

pub perform-IsKeyed : (c : Command) (s : PdsLedger) → IsKeyed s → IsKeyed (perform c s)
unfolding perform
perform-IsKeyed (Command.register_stakeholder x) s h =
    (register_stakeholder-Keeps IsKeyed-registers x).after s h
perform-IsKeyed (Command.create_commodity_lot x) s h = (create_commodity_lot-IsKeyed x).after s h
perform-IsKeyed (Command.dispatch_lot x) s h = (dispatch_lot-IsKeyed x).after s h
perform-IsKeyed (Command.authorize_movement x) s h = (authorize_movement-IsKeyed x).after s h
perform-IsKeyed (Command.receive_lot x) s h = (receive_lot-IsKeyed x).after s h
perform-IsKeyed (Command.allocate_to_fps x) s h = (allocate_to_fps-IsKeyed x).after s h
perform-IsKeyed (Command.record_fps_receipt x) s h = (record_fps_receipt-IsKeyed x).after s h
perform-IsKeyed (Command.simulate_authentication x) s h =
    (simulate_authentication-Keeps IsKeyed-registers x).after s h
perform-IsKeyed (Command.create_or_update_entitlement x) s h =
    (create_or_update_entitlement-Keeps IsKeyed-registers x).after s h
perform-IsKeyed (Command.record_distribution x) s h = (record_distribution-IsKeyed x).after s h
perform-IsKeyed (Command.issue_ration_card x) s h =
    (issue_ration_card-Keeps IsKeyed-registers x).after s h
perform-IsKeyed (Command.activate_ration_card x) s h =
    (activate_ration_card-Keeps IsKeyed-registers x).after s h
perform-IsKeyed (Command.suspend_ration_card x reason at) s h =
    (suspend_ration_card-Keeps IsKeyed-registers x reason at).after s h
perform-IsKeyed (Command.transfer_ration_card x) s h =
    (transfer_ration_card-Keeps IsKeyed-registers x).after s h
perform-IsKeyed (Command.file_grievance x) s h =
    (file_grievance-Keeps IsKeyed-registers x).after s h
perform-IsKeyed (Command.acknowledge_grievance x at) s h =
    (acknowledge_grievance-Keeps IsKeyed-registers x at).after s h
perform-IsKeyed (Command.resolve_grievance x) s h =
    (resolve_grievance-Keeps IsKeyed-registers x).after s h
perform-IsKeyed (Command.escalate_overdue_grievances at) s h =
    (escalate_overdue_grievances-Keeps IsKeyed-registers at).after s h
perform-IsKeyed (Command.propose_entitlement_rule x) s h =
    (propose_entitlement_rule-Keeps IsKeyed-registers x).after s h
perform-IsKeyed (Command.approve_entitlement_rule x by) s h =
    (approve_entitlement_rule-Keeps IsKeyed-registers x by).after s h
perform-IsKeyed (Command.rollover_unclaimed_quota x) s h =
    (rollover_unclaimed_quota-IsKeyed x).after s h
perform-IsKeyed (Command.resolve_audit_alert x by note) s h =
    (resolve_audit_alert-Keeps IsKeyed-registers x by note).after s h
perform-IsKeyed Command.reconcile_alerts s h = (reconcile_alerts-Keeps IsKeyed-registers).after s h

-- After any sequence of the 23 commands of Ledger/Session, neither the reset nor the replay of
-- foreign events among them, from a ledger whose records stand under their own ids, they do so still.
pub Session-IsKeyed : {s t : PdsLedger} {q : ℤ} → Session s q t → IsKeyed s → IsKeyed t
Session-IsKeyed (Session.start s) h = h
Session-IsKeyed (Session.call {t = t} c before) h = perform-IsKeyed c t (Session-IsKeyed before h)
