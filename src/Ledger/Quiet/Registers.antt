-- ===== src/Ledger/Quiet/Registers.antt =====
-- The methods on registers: stakeholders, authentications, entitlements, cards, grievances, rules
-- and alerts. They keep every predicate that the clock, the log and the writes to those maps keep.
use toomoki_cdac_pds.Ledger.Exec.{modify}
use toomoki_cdac_pds.SharedTypes.{
  Stakeholder, EntitlementRule, Grievance, RationCard, DistributionTransaction, MonthlyEntitlement,
  AuthTransaction, AuditAlert,
}
use toomoki_cdac_pds.Ledger.State.{PdsLedger}
use toomoki_cdac_pds.Ledger.Exec.Keeps.{Keeps, Keeps-modify}
use toomoki_cdac_pds.Ledger.Quiet.{IsQuiet}
use toomoki_cdac_pds.Ledger.Record.{set_alert}
use toomoki_cdac_pds.Ledger.Distribute.{set_auth, set_entitlement}
use toomoki_cdac_pds.Ledger.Cards.{set_card}
use toomoki_cdac_pds.Ledger.Grievances.{set_grievance}
use toomoki_cdac_pds.Ledger.Rules.{set_rule}
use toomoki_cdac_pds.Ledger.Lots.{set_stakeholder, register_stakeholder}
use toomoki_cdac_pds.Ledger.Exec.Keeps.{Keeps-pure, Keeps-bind, Keeps-if}
use toomoki_cdac_pds.Prelude.{List, [], ◌∷◌}
use toomoki_cdac_pds.Ledger.Quiet.Checks.{lookup_rules}
use toomoki_cdac_pds.Ledger.Quiet.{log_rules}
use toomoki_cdac_pds.Prelude.{inr, inl, Bool-cases, ◌∷◌, List, String, Option}
use toomoki_cdac_pds.Ledger.Alerts.{resolve_audit_alert, reconcile, reconcile_all, reconcile_alerts}
use toomoki_cdac_pds.Ledger.Rules.{
  in_force_for, supersede, ProposeInput, approve_entitlement_rule, propose_entitlement_rule,
}
use toomoki_cdac_pds.Ledger.Grievances.{
  escalate_all, escalate, ResolveInput, FileInput, file_grievance, acknowledge_grievance,
  resolve_grievance, escalate_overdue_grievances, record_escalation,
}
use toomoki_cdac_pds.Ledger.Cards.{
  CardTransferInput, activate_card, IssueInput, issue_ration_card, activate_ration_card,
  suspend_ration_card, transfer_ration_card,
}
use toomoki_cdac_pds.Ledger.Distribute.{simulate_authentication, create_or_update_entitlement}

pub record KeepsRegisters (P : PdsLedger → Type 0) : Type 0 where
  pub quiet : IsQuiet P
  pub stakeholder : (x : Stakeholder) (s : PdsLedger) → P s → P (set_stakeholder x s)
  pub authentication : (x : AuthTransaction) (s : PdsLedger) → P s → P (set_auth x s)
  pub entitlement : (x : MonthlyEntitlement) (s : PdsLedger) → P s → P (set_entitlement x s)
  pub card : (x : RationCard) (s : PdsLedger) → P s → P (set_card x s)
  pub grievance : (x : Grievance) (s : PdsLedger) → P s → P (set_grievance x s)
  pub rule : (x : EntitlementRule) (s : PdsLedger) → P s → P (set_rule x s)

module _ {P : PdsLedger → Type 0} (r : KeepsRegisters P) where
  pub quiet_of : IsQuiet P
  quiet_of = r.quiet

  stakeholder_write : (x : Stakeholder) → Keeps P (modify (set_stakeholder x))
  stakeholder_write x = Keeps-modify _ (r.stakeholder x)

  auth_write : (x : AuthTransaction) → Keeps P (modify (set_auth x))
  auth_write x = Keeps-modify _ (r.authentication x)

  entitlement_write : (x : MonthlyEntitlement) → Keeps P (modify (set_entitlement x))
  entitlement_write x = Keeps-modify _ (r.entitlement x)

  card_write : (x : RationCard) → Keeps P (modify (set_card x))
  card_write x = Keeps-modify _ (r.card x)

  grievance_write : (x : Grievance) → Keeps P (modify (set_grievance x))
  grievance_write x = Keeps-modify _ (r.grievance x)

  rule_write : (x : EntitlementRule) → Keeps P (modify (set_rule x))
  rule_write x = Keeps-modify _ (r.rule x)

  alert_write : (x : AuditAlert) → Keeps P (modify (set_alert x))
  alert_write x = Keeps-modify _ (r.quiet.alert x)

ruleset register_writes = (
  quiet_of, stakeholder_write, auth_write, entitlement_write, card_write, grievance_write,
  rule_write, alert_write, Keeps-modify,
)

module _ {P : PdsLedger → Type 0} (r : KeepsRegisters P) where
  pub register_stakeholder-Keeps : (x : Stakeholder) → Keeps P (register_stakeholder x)
  unfolding register_stakeholder
  register_stakeholder-Keeps x = search (log_rules, register_writes) depth 30

  pub simulate_authentication-Keeps :
      (input : AuthTransaction) → Keeps P (simulate_authentication input)
  unfolding simulate_authentication
  simulate_authentication-Keeps input = search (log_rules, register_writes) depth 30

  pub create_or_update_entitlement-Keeps :
      (input : MonthlyEntitlement) → Keeps P (create_or_update_entitlement input)
  unfolding create_or_update_entitlement
  create_or_update_entitlement-Keeps input = search (log_rules, register_writes) depth 30

  pub issue_ration_card-Keeps : (input : IssueInput) → Keeps P (issue_ration_card input)
  unfolding issue_ration_card
  issue_ration_card-Keeps input = search (log_rules, register_writes) depth 30

  activate_card-Keeps : (card : RationCard) → Keeps P (activate_card card)
  unfolding activate_card
  activate_card-Keeps card = search (log_rules, register_writes) depth 12

  pub activate_ration_card-Keeps : (id : String) → Keeps P (activate_ration_card id)
  unfolding activate_ration_card
  activate_ration_card-Keeps id =
      search (log_rules, lookup_rules, register_writes, activate_card-Keeps) depth 30

  pub suspend_ration_card-Keeps :
      (id reason : String) (at : Option String) → Keeps P (suspend_ration_card id reason at)
  unfolding suspend_ration_card
  suspend_ration_card-Keeps id reason at =
      search (log_rules, lookup_rules, register_writes) depth 30

  pub transfer_ration_card-Keeps :
      (input : CardTransferInput) → Keeps P (transfer_ration_card input)
  unfolding transfer_ration_card
  transfer_ration_card-Keeps input = search (log_rules, lookup_rules, register_writes) depth 30

  pub file_grievance-Keeps : (input : FileInput) → Keeps P (file_grievance input)
  unfolding file_grievance
  file_grievance-Keeps input = search (log_rules, register_writes) depth 40

  pub acknowledge_grievance-Keeps :
      (id : String) (at : Option String) → Keeps P (acknowledge_grievance id at)
  unfolding acknowledge_grievance
  acknowledge_grievance-Keeps id at = search (log_rules, lookup_rules, register_writes) depth 30

  pub resolve_grievance-Keeps : (input : ResolveInput) → Keeps P (resolve_grievance input)
  unfolding resolve_grievance
  resolve_grievance-Keeps input = search (log_rules, lookup_rules, register_writes) depth 30

  escalate-Keeps : (now : String) (g : Grievance) → Keeps P (escalate now g)
  unfolding escalate
  escalate-Keeps now g = search (log_rules, register_writes) depth 12

  escalate_all-Keeps : (now : String) (gs : List Grievance) → Keeps P (escalate_all now gs)
  unfolding escalate_all
  escalate_all-Keeps now [] = search log_rules
  escalate_all-Keeps now (g ∷ gs) =
      Keeps-if _ _ _
        (Keeps-bind _ _ (escalate-Keeps now g)
          (λ _. Keeps-bind _ _ (escalate_all-Keeps now gs) (λ _. Keeps-pure _)))
        (escalate_all-Keeps now gs)

  record_escalation-Keeps :
      (now : String) (gs : List Grievance) → Keeps P (record_escalation now gs)
  unfolding record_escalation
  record_escalation-Keeps now [] = search log_rules
  record_escalation-Keeps now (g ∷ gs) = search (log_rules, quiet_of) depth 12

  pub escalate_overdue_grievances-Keeps :
      (at : Option String) → Keeps P (escalate_overdue_grievances at)
  unfolding escalate_overdue_grievances
  escalate_overdue_grievances-Keeps at =
      search (log_rules, quiet_of, escalate_all-Keeps, record_escalation-Keeps) depth 30

  pub propose_entitlement_rule-Keeps :
      (input : ProposeInput) → Keeps P (propose_entitlement_rule input)
  unfolding propose_entitlement_rule
  propose_entitlement_rule-Keeps input = search (log_rules, register_writes) depth 30

  supersede-Keeps :
      (rule : EntitlementRule) (rules : List EntitlementRule) (s : PdsLedger)
      → P s
      → P (supersede rule rules s)
  unfolding supersede
  supersede-Keeps rule [] s h = h
  supersede-Keeps rule (old ∷ rules) s h = elim (Bool-cases (in_force_for rule old)) [
    | inl active ↦ rw active (supersede-Keeps rule rules _ (r.rule _ s h))
    | inr other ↦ rw other (supersede-Keeps rule rules s h)
  ]

  supersession :
      (rule : EntitlementRule) (rules : List EntitlementRule)
      → Keeps P (modify (supersede rule rules))
  supersession rule rules = Keeps-modify _ (supersede-Keeps rule rules)

  pub approve_entitlement_rule-Keeps : (id by : String) → Keeps P (approve_entitlement_rule id by)
  unfolding approve_entitlement_rule
  approve_entitlement_rule-Keeps id by =
      search (log_rules, lookup_rules, register_writes, supersession) depth 30

  pub resolve_audit_alert-Keeps : (id by note : String) → Keeps P (resolve_audit_alert id by note)
  unfolding resolve_audit_alert
  resolve_audit_alert-Keeps id by note = search (log_rules, register_writes) depth 30

  reconcile-Keeps : (d : DistributionTransaction) → Keeps P (reconcile d)
  unfolding reconcile
  reconcile-Keeps d = search (log_rules, lookup_rules, quiet_of) depth 30

  reconcile_all-Keeps : (ds : List DistributionTransaction) → Keeps P (reconcile_all ds)
  unfolding reconcile_all
  reconcile_all-Keeps [] = search log_rules
  reconcile_all-Keeps (d ∷ ds) = Keeps-bind _ _ (reconcile-Keeps d) (λ _. reconcile_all-Keeps ds)

  pub reconcile_alerts-Keeps : Keeps P reconcile_alerts
  unfolding reconcile_alerts
  reconcile_alerts-Keeps = search (log_rules, reconcile_all-Keeps) depth 12
