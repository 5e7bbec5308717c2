-- ===== src/Ledger/Session.antt =====
-- Sessions: any sequence of 23 of the engine's methods, the commands, successful or not, in any
-- order. The reset and the replay of foreign events are no commands: they rewrite the ledger.
pub mod Keyed
pub mod Balance
use toomoki_cdac_pds.Prelude.{String, Option}
use toomoki_cdac_pds.Prelude.Int.{ℤ, pos, ◌+ℤ◌}
use toomoki_cdac_pds.SharedTypes.{Stakeholder, CommodityLot, AuthTransaction, MonthlyEntitlement}
use toomoki_cdac_pds.Ledger.State.{PdsLedger}
use toomoki_cdac_pds.Ledger.Exec.{Exec}
use toomoki_cdac_pds.Ledger.Lots
use toomoki_cdac_pds.Ledger.Dispatch
use toomoki_cdac_pds.Ledger.Dispatch.{DispatchInput}
use toomoki_cdac_pds.Ledger.Receive
use toomoki_cdac_pds.Ledger.Receive.{AuthorizeInput, ReceiveInput}
use toomoki_cdac_pds.Ledger.Allocate
use toomoki_cdac_pds.Ledger.Allocate.{AllocateInput, FpsReceiptInput}
use toomoki_cdac_pds.Ledger.Distribute
use toomoki_cdac_pds.Ledger.Distribute.{DistributionInput}
use toomoki_cdac_pds.Ledger.Cards
use toomoki_cdac_pds.Ledger.Cards.{IssueInput, CardTransferInput}
use toomoki_cdac_pds.Ledger.Grievances
use toomoki_cdac_pds.Ledger.Grievances.{FileInput, ResolveInput}
use toomoki_cdac_pds.Ledger.Rules
use toomoki_cdac_pds.Ledger.Rules.{ProposeInput, RolloverInput}
use toomoki_cdac_pds.Ledger.Alerts
use toomoki_cdac_pds.Ledger.Balance.Creation.{brought_in}

pub data Command : Type 0 where
  register_stakeholder : Stakeholder → Command
  create_commodity_lot : CommodityLot → Command
  dispatch_lot : DispatchInput → Command
  authorize_movement : AuthorizeInput → Command
  receive_lot : ReceiveInput → Command
  allocate_to_fps : AllocateInput → Command
  record_fps_receipt : FpsReceiptInput → Command
  simulate_authentication : AuthTransaction → Command
  create_or_update_entitlement : MonthlyEntitlement → Command
  record_distribution : DistributionInput → Command
  issue_ration_card : IssueInput → Command
  activate_ration_card : String → Command
  suspend_ration_card : String → String → Option String → Command
  transfer_ration_card : CardTransferInput → Command
  file_grievance : FileInput → Command
  acknowledge_grievance : String → Option String → Command
  resolve_grievance : ResolveInput → Command
  escalate_overdue_grievances : Option String → Command
  propose_entitlement_rule : ProposeInput → Command
  approve_entitlement_rule : String → String → Command
  rollover_unclaimed_quota : RolloverInput → Command
  resolve_audit_alert : String → String → String → Command
  reconcile_alerts : Command

-- The state that a call leaves, whether it returned or threw.
abbrev pub left_by : {A : Type 0} → Exec A → PdsLedger → PdsLedger
left_by m s = (m s).1

unfoldable pub perform : Command → PdsLedger → PdsLedger
perform (Command.register_stakeholder x) = left_by (Lots.register_stakeholder x)
perform (Command.create_commodity_lot x) = left_by (Lots.create_commodity_lot x)
perform (Command.dispatch_lot x) = left_by (Dispatch.dispatch_lot x)
perform (Command.authorize_movement x) = left_by (Receive.authorize_movement x)
perform (Command.receive_lot x) = left_by (Receive.receive_lot x)
perform (Command.allocate_to_fps x) = left_by (Allocate.allocate_to_fps x)
perform (Command.record_fps_receipt x) = left_by (Allocate.record_fps_receipt x)
perform (Command.simulate_authentication x) = left_by (Distribute.simulate_authentication x)
perform (Command.create_or_update_entitlement x) =
    left_by (Distribute.create_or_update_entitlement x)
perform (Command.record_distribution x) = left_by (Distribute.record_distribution x)
perform (Command.issue_ration_card x) = left_by (Cards.issue_ration_card x)
perform (Command.activate_ration_card x) = left_by (Cards.activate_ration_card x)
perform (Command.suspend_ration_card x reason at) = left_by (Cards.suspend_ration_card x reason at)
perform (Command.transfer_ration_card x) = left_by (Cards.transfer_ration_card x)
perform (Command.file_grievance x) = left_by (Grievances.file_grievance x)
perform (Command.acknowledge_grievance x at) = left_by (Grievances.acknowledge_grievance x at)
perform (Command.resolve_grievance x) = left_by (Grievances.resolve_grievance x)
perform (Command.escalate_overdue_grievances at) =
    left_by (Grievances.escalate_overdue_grievances at)
perform (Command.propose_entitlement_rule x) = left_by (Rules.propose_entitlement_rule x)
perform (Command.approve_entitlement_rule x by) = left_by (Rules.approve_entitlement_rule x by)
perform (Command.rollover_unclaimed_quota x) = left_by (Rules.rollover_unclaimed_quota x)
perform (Command.resolve_audit_alert x by note) = left_by (Alerts.resolve_audit_alert x by note)
perform Command.reconcile_alerts = left_by Alerts.reconcile_alerts

-- The kilograms that a call brings into the ledger: those of the lot that it creates.
unfoldable pub brought_by : Command → PdsLedger → ℤ
brought_by (Command.create_commodity_lot x) s = brought_in (Lots.create_commodity_lot x s).0
brought_by _ s = pos 0

-- `Session s q t`: some calls lead from `s` to `t` and bring in `q` kilograms.
pub data Session : PdsLedger → ℤ → PdsLedger → Type 0 where
  start : (s : PdsLedger) → Session s (pos 0) s
  call :
      {s t : PdsLedger} {q : ℤ} (c : Command)
      → Session s q t
      → Session s (q +ℤ brought_by c t) (perform c t)
