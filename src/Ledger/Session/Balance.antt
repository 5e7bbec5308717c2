-- ===== src/Ledger/Session/Balance.antt =====
-- Whatever is called, the ledger accounts for what was brought in.
use toomoki_cdac_pds.Prelude.{refl, [], ◌∷◌}
use toomoki_cdac_pds.Ledger.Balance.Distribute.{record_distribution-conserves}
use toomoki_cdac_pds.Ledger.Balance.FpsReceipt.{record_fps_receipt-conserves}
use toomoki_cdac_pds.Ledger.Balance.Allocate.{allocate_to_fps-conserves}
use toomoki_cdac_pds.StringMap.Sums.{sum_by-set_same}
use toomoki_cdac_pds.Ledger.Balance.Receive.{receive_lot-conserves}
use toomoki_cdac_pds.Ledger.Balance.Dispatch.{dispatch_lot-conserves}
use toomoki_cdac_pds.Ledger.Session.Keyed.{Session-IsKeyed}
use toomoki_cdac_pds.Ledger.Balance.Creation.{create_commodity_lot-adds}
use toomoki_cdac_pds.StringMap.{values, get}
use toomoki_cdac_pds.Ledger.Quiet.Checks.{lookup_rules}
use toomoki_cdac_pds.Ledger.Keyed.{allocations_keyed, transfers_keyed, IsKeyed}
use toomoki_cdac_pds.Ledger.Exec.Keeps.{
  Keeps-rewrite, Keeps-modify, Keeps-throw_if, Keeps-bind, Keeps,
}
use toomoki_cdac_pds.Ledger.Session.{
  MonthlyEntitlement, Command, Option, brought_by, String, pos, Session, perform,
}
use toomoki_cdac_pds.Ledger.Rules.{
  roll_one, carry_of, rolls_over, entitlements_in, RolloverInput, rollover_unclaimed_quota,
  roll_all,
}
use toomoki_cdac_pds.Ledger.Receive.{stamped, AuthorizeInput, authorize_movement, stamp_transfer}
use toomoki_cdac_pds.Ledger.Exec.{Exec}
use toomoki_cdac_pds.Prelude.{
  ◌==◌, not, ◌&&◌, inr, inl, Bool-cases, ◌∷◌, Option-cases, ◌∙◌, sym, List, ◌≡◌,
}
use toomoki_cdac_pds.Prelude.Int.{int_laws, +ℤ-zero, ◌+ℤ◌, ℤ}
use toomoki_cdac_pds.Ledger.State.{PdsLedger}
use toomoki_cdac_pds.Ledger.Quiet.{log_rules, IsQuiet}
use toomoki_cdac_pds.Ledger.Quiet.Registers.{
  reconcile_alerts-Keeps, resolve_audit_alert-Keeps, approve_entitlement_rule-Keeps,
  propose_entitlement_rule-Keeps, escalate_overdue_grievances-Keeps, resolve_grievance-Keeps,
  acknowledge_grievance-Keeps, file_grievance-Keeps, transfer_ration_card-Keeps,
  suspend_ration_card-Keeps, activate_ration_card-Keeps, issue_ration_card-Keeps,
  create_or_update_entitlement-Keeps, simulate_authentication-Keeps, register_stakeholder-Keeps,
  KeepsRegisters,
}
use toomoki_cdac_pds.Ledger.Balance.Quantities.{transfer_weight, accounted}

-- The ledger accounts for the quantity.
unfoldable pub Accounts : ℤ → PdsLedger → Type 0
Accounts x s = accounted s ≡ x

Accounts-quiet : (x : ℤ) → IsQuiet (Accounts x)
unfolding Accounts
Accounts-quiet x = record { clock = λ t i s h. h; log = λ e s h. h; alert = λ a s h. h }

Accounts-registers : (x : ℤ) → KeepsRegisters (Accounts x)
unfolding Accounts
Accounts-registers x = record {
  quiet = Accounts-quiet x;
  stakeholder = λ _ s h. h;
  authentication = λ _ s h. h;
  entitlement = λ _ s h. h;
  card = λ _ s h. h;
  grievance = λ _ s h. h;
  rule = λ _ s h. h;
}

module _ (s : PdsLedger) where
  -- A call that brings nothing in.
  nothing_in : {x : ℤ} → x ≡ accounted s → x ≡ accounted s +ℤ pos 0
  nothing_in e = e ∙ sym (+ℤ-zero (accounted s))

  quiet_call :
      {A : Type 0} (m : Exec A)
      → Keeps (Accounts (accounted s)) m
      → accounted (m s).1 ≡ accounted s +ℤ pos 0
  unfolding Accounts
  quiet_call m k = nothing_in (k.after s refl)

stamp_transfer-Accounts :
    (x : ℤ) (id by at : String) (ro_ref : Option String) (s : PdsLedger)
    → Accounts x s
    → Accounts x (stamp_transfer id by at ro_ref s)
unfolding Accounts stamp_transfer
stamp_transfer-Accounts x id by at ro_ref s h = elim (Option-cases (get s.transfers id)) [
  | inl absent ↦ rw (absent, stamp_transfer) h
  | inr (t, e) ↦
      rw (e, stamp_transfer)
        (rw (sum_by-set_same transfer_weight s.transfers id (stamped t by at ro_ref) e refl) h)
]

authorize_movement-Accounts :
    (x : ℤ) (input : AuthorizeInput) → Keeps (Accounts x) (authorize_movement input)
unfolding authorize_movement
authorize_movement-Accounts x input =
    search (log_rules, lookup_rules, Accounts-quiet, stamp_transfer-Accounts, Keeps-modify) depth 20

roll_all-Accounts :
    (x : ℤ) (input : RolloverInput) (es : List MonthlyEntitlement) (s : PdsLedger)
    → Accounts x s
    → Accounts x (roll_all input es s).0
unfolding Accounts roll_all
roll_all-Accounts x input [] s h = h
roll_all-Accounts x input (e ∷ es) s h =
    roll_all-Accounts x input es _
      (elim (Bool-cases
        (rolls_over input e && not (carry_of e.available_balance_kg input.rollover_pct == 0))) [
          | inl rolls ↦ rw (rolls, roll_one) h
          | inr stays ↦ rw (stays, roll_one) h
        ])

rollover_unclaimed_quota-Accounts :
    (x : ℤ) (input : RolloverInput) → Keeps (Accounts x) (rollover_unclaimed_quota input)
unfolding rollover_unclaimed_quota
rollover_unclaimed_quota-Accounts x input = Keeps-bind _ _ (Keeps-throw_if _ _) (λ _.
    Keeps-rewrite (λ s. (roll_all input (entitlements_in (values s.entitlements)) s).0) _
      (λ s h. roll_all-Accounts x input (entitlements_in (values s.entitlements)) s h)
      (λ s _. search (log_rules, Accounts-quiet)))

perform-accounted :
    (c : Command) (s : PdsLedger)
    → IsKeyed s
    → accounted (perform c s) ≡ accounted s +ℤ brought_by c s
unfolding perform brought_by
perform-accounted (Command.register_stakeholder x) s h =
    quiet_call s _ (register_stakeholder-Keeps (Accounts-registers (accounted s)) x)
perform-accounted (Command.create_commodity_lot x) s h = create_commodity_lot-adds x s
perform-accounted (Command.dispatch_lot x) s h = nothing_in s (dispatch_lot-conserves x s)
perform-accounted (Command.authorize_movement x) s h =
    quiet_call s _ (authorize_movement-Accounts (accounted s) x)
perform-accounted (Command.receive_lot x) s h =
    nothing_in s (receive_lot-conserves x s (transfers_keyed s h))
perform-accounted (Command.allocate_to_fps x) s h = nothing_in s (allocate_to_fps-conserves x s)
perform-accounted (Command.record_fps_receipt x) s h =
    nothing_in s (record_fps_receipt-conserves x s (allocations_keyed s h))
perform-accounted (Command.simulate_authentication x) s h =
    quiet_call s _ (simulate_authentication-Keeps (Accounts-registers (accounted s)) x)
perform-accounted (Command.create_or_update_entitlement x) s h =
    quiet_call s _ (create_or_update_entitlement-Keeps (Accounts-registers (accounted s)) x)
perform-accounted (Command.record_distribution x) s h =
    nothing_in s (record_distribution-conserves x s)
perform-accounted (Command.issue_ration_card x) s h =
    quiet_call s _ (issue_ration_card-Keeps (Accounts-registers (accounted s)) x)
perform-accounted (Command.activate_ration_card x) s h =
    quiet_call s _ (activate_ration_card-Keeps (Accounts-registers (accounted s)) x)
perform-accounted (Command.suspend_ration_card x reason at) s h =
    quiet_call s _ (suspend_ration_card-Keeps (Accounts-registers (accounted s)) x reason at)
perform-accounted (Command.transfer_ration_card x) s h =
    quiet_call s _ (transfer_ration_card-Keeps (Accounts-registers (accounted s)) x)
perform-accounted (Command.file_grievance x) s h =
    quiet_call s _ (file_grievance-Keeps (Accounts-registers (accounted s)) x)
perform-accounted (Command.acknowledge_grievance x at) s h =
    quiet_call s _ (acknowledge_grievance-Keeps (Accounts-registers (accounted s)) x at)
perform-accounted (Command.resolve_grievance x) s h =
    quiet_call s _ (resolve_grievance-Keeps (Accounts-registers (accounted s)) x)
perform-accounted (Command.escalate_overdue_grievances at) s h =
    quiet_call s _ (escalate_overdue_grievances-Keeps (Accounts-registers (accounted s)) at)
perform-accounted (Command.propose_entitlement_rule x) s h =
    quiet_call s _ (propose_entitlement_rule-Keeps (Accounts-registers (accounted s)) x)
perform-accounted (Command.approve_entitlement_rule x by) s h =
    quiet_call s _ (approve_entitlement_rule-Keeps (Accounts-registers (accounted s)) x by)
perform-accounted (Command.rollover_unclaimed_quota x) s h =
    quiet_call s _ (rollover_unclaimed_quota-Accounts (accounted s) x)
perform-accounted (Command.resolve_audit_alert x by note) s h =
    quiet_call s _ (resolve_audit_alert-Keeps (Accounts-registers (accounted s)) x by note)
perform-accounted Command.reconcile_alerts s h =
    quiet_call s _ (reconcile_alerts-Keeps (Accounts-registers (accounted s)))

-- After any sequence of the 23 commands of Ledger/Session, neither the reset nor the replay of
-- foreign events among them, from a ledger whose records stand under their own ids, stock plus goods
-- on the road or lost there plus deliveries is what it was, plus the lots that were created.
pub Session-accounted :
    {s t : PdsLedger} {q : ℤ} → Session s q t → IsKeyed s → accounted t ≡ accounted s +ℤ q
Session-accounted (Session.start s) h = sym (+ℤ-zero (accounted s))
Session-accounted (Session.call {s} {t} {q} c before) h =
    let one = perform-accounted c t (Session-IsKeyed before h) in
    let past = Session-accounted before h in grind (int_laws, one, past)
