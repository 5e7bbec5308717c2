-- ===== src/Ledger/Tests/Registers.antt =====
-- The final states of cards and grievances and the escalation at the demo ledger.
use toomoki_cdac_pds.Ledger.Dashboard.{get_dashboard_summary-high_risk, HasHighRisk}
use mathlib.Core.List.{Memᴰ, Nodup}
use toomoki_cdac_pds.Prelude.{◌↔◌}
use toomoki_cdac_pds.Ledger.Alerts.{get_dashboard_summary}
use toomoki_cdac_pds.Ledger.GrievanceStates.{resolved_grievance-stays}
use toomoki_cdac_pds.Prelude.Hash.{fnv1a, to_hex, pad_start}
use toomoki_cdac_pds.Prelude.{String, refl}
use toomoki_cdac_pds.Ledger.CardStates.{cancelled_card-stays}
use toomoki_cdac_pds.Ledger.Grievances.{
  resolve_grievance, acknowledge_grievance, file_grievance, ResolveInput, FileInput,
  escalate_overdue_grievances,
}
use toomoki_cdac_pds.Ledger.Checks.{entitlement_key}
use toomoki_cdac_pds.Ledger.Escalation.{escalate_overdue_grievances-none_left, found_overdue}
use toomoki_cdac_pds.Prelude.{false, ◌≡◌, [], ◌∷◌, none, some}
use toomoki_cdac_pds.Ledger.Cards.{
  transfer_ration_card, suspend_ration_card, activate_ration_card, issue_ration_card,
  CardTransferInput, IssueInput,
}
use toomoki_cdac_pds.Ledger.Keyed.{IsKeyed}
use toomoki_cdac_pds.Ledger.State.{PdsLedger}
use toomoki_cdac_pds.SharedTypes.{
  AlertStatus, AlertType, AuditAlert, RiskLevel, GrievanceStatus, RationCardStatus, GrievanceType,
  RationCardType, Grievance, RationCard,
}
use toomoki_cdac_pds.StringMap.{get}
use toomoki_cdac_pds.Ledger.Demo.{demo}

abbrev lost_card : RationCard
lost_card = record {
  ration_card_hash = "card-hash-1";
  card_type = RationCardType.phh;
  assigned_fps_id = "FPS-101";
  issued_at = "2026-06-01T00:00:00.000Z";
  status = RationCardStatus.cancelled;
  suspended_at = none;
  suspend_reason = none;
  cancelled_at = some "2026-06-20T00:00:00.000Z";
  transfer_history = [];
}

abbrev late_grievance : Grievance
late_grievance = record {
  grievance_id = "GRV-1";
  ration_card_hash = "card-hash-1";
  fps_id = "FPS-101";
  grievance_type = GrievanceType.quantity_short;
  description = "Two kilograms short";
  status = GrievanceStatus.open_;
  filed_at = "2026-06-01T00:00:00.000Z";
  sla_deadline_at = "2026-06-08T00:00:00.000Z";
  acknowledged_at = none;
  escalated_at = none;
  resolved_at = none;
  resolved_by = none;
  resolution_note = none;
}

-- One card is cancelled, and one grievance is past its deadline.
abbrev demo_registers : PdsLedger
demo_registers = record demo {
  ration_cards = ("card-hash-1", lost_card) ∷ [];
  grievances = ("GRV-1", late_grievance) ∷ [];
}

demo_registers-IsKeyed : IsKeyed demo_registers
unfolding IsKeyed entitlement_key
demo_registers-IsKeyed = (
  ((refl, tt), tt, tt, tt, (refl, tt)),
  ((refl, tt), (refl, tt), tt),
  ((refl, (refl, (refl, (refl, (refl, tt))))), tt, tt),
)

abbrev again : IssueInput
again = record {
  ration_card_hash = "card-hash-1";
  card_type = RationCardType.phh;
  assigned_fps_id = "FPS-101";
  issued_at = none;
}

abbrev elsewhere : CardTransferInput
elsewhere = record {
  ration_card_hash = "card-hash-1";
  to_fps_id = "FPS-101";
  authorized_by = "DSO-1";
  transferred_at = none;
}

cancelled_card-stays_example :
    let kept = some lost_card in
    let s = demo_registers in
    (get (issue_ration_card again s).1.ration_cards "card-hash-1" ≡ kept)
    × (get (activate_ration_card "card-hash-1" s).1.ration_cards "card-hash-1" ≡ kept)
    × (get (suspend_ration_card "card-hash-1" "lost" none s).1.ration_cards "card-hash-1" ≡ kept)
    × (get (transfer_ration_card elsewhere s).1.ration_cards "card-hash-1" ≡ kept)
unfolding get
cancelled_card-stays_example =
    cancelled_card-stays "card-hash-1" lost_card demo_registers demo_registers-IsKeyed refl refl
      again "card-hash-1" "lost" none elsewhere

escalate_overdue_grievances-none_left_example :
    found_overdue "2026-07-01T00:00:00.000Z" (
      get
        (escalate_overdue_grievances (some "2026-07-01T00:00:00.000Z") demo_registers).1.grievances
        "GRV-1")
    ≡ false
escalate_overdue_grievances-none_left_example =
    escalate_overdue_grievances-none_left "2026-07-01T00:00:00.000Z" "GRV-1" demo_registers
      demo_registers-IsKeyed

abbrev closed_grievance : Grievance
closed_grievance = record late_grievance {
  status = GrievanceStatus.resolved;
  resolved_at = some "2026-06-05T00:00:00.000Z";
  resolved_by = some "DSO-1";
  resolution_note = some "The shortage was made good";
}

abbrev demo_closed : PdsLedger
demo_closed = record demo { grievances = ("GRV-1", closed_grievance) ∷ [] }

demo_closed-IsKeyed : IsKeyed demo_closed
unfolding IsKeyed entitlement_key
demo_closed-IsKeyed = (
  ((refl, tt), tt, tt, tt, (refl, tt)),
  (tt, (refl, tt), tt),
  ((refl, (refl, (refl, (refl, (refl, tt))))), tt, tt),
)

abbrev filed_again : FileInput
filed_again = record {
  grievance_id = "GRV-1";
  ration_card_hash = "card-hash-1";
  fps_id = "FPS-101";
  grievance_type = GrievanceType.other;
  description = "Nothing was delivered";
  filed_at = none;
}

abbrev settled_again : ResolveInput
settled_again = record {
  grievance_id = "GRV-1";
  resolved_by = "DSO-2";
  resolution_note = "Another note";
  resolved_at = none;
}

resolved_grievance-stays_example :
    let kept = some closed_grievance in
    let s = demo_closed in
    (get (file_grievance filed_again s).1.grievances "GRV-1" ≡ kept)
    × (get (acknowledge_grievance "GRV-1" none s).1.grievances "GRV-1" ≡ kept)
    × (get (resolve_grievance settled_again s).1.grievances "GRV-1" ≡ kept)
    × (get (escalate_overdue_grievances none s).1.grievances "GRV-1" ≡ kept)
unfolding get
resolved_grievance-stays_example =
    resolved_grievance-stays "GRV-1" closed_grievance demo_closed demo_closed-IsKeyed (refl, tt)
      refl refl filed_again "GRV-1" none settled_again

-- The FNV-1a test vectors of the empty text and of `a`, and a reference with its padding.
fnv1a_run : (fnv1a "" 0x811c9dc5 ≡ 0x811c9dc5) × (fnv1a "a" 0x811c9dc5 ≡ 0xe40c292c)
unfolding fnv1a
fnv1a_run = (refl, refl)

pad_run : pad_start (to_hex 0xbeef) ≡ "0000beef"
unfolding to_hex pad_start
pad_run = refl

abbrev flag : String → String → RiskLevel → AuditAlert
flag id shop level = record {
  alert_id = id;
  alert_type = AlertType.db_ledger_mismatch;
  entity_id = shop;
  risk_level = level;
  message = "stock differs";
  status = AlertStatus.open_;
  evidence = [];
  created_at = "2026-06-01T00:00:00.000Z";
  resolved_at = none;
  resolved_by = none;
  resolution_note = none;
}

-- One shop is named by two alerts of high risk, another by one of medium risk.
abbrev flagged : PdsLedger
flagged = record demo {
  alerts =
      ("ALERT-1", flag "ALERT-1" "FPS-101" RiskLevel.high)
      ∷ ("ALERT-2", flag "ALERT-2" "FPS-102" RiskLevel.medium)
      ∷ ("ALERT-3", flag "ALERT-3" "FPS-101" RiskLevel.high)
      ∷ [];
}

flagged_shops : (get_dashboard_summary flagged).high_risk_fps ≡ "FPS-101" ∷ []
unfolding get_dashboard_summary
flagged_shops = refl

get_dashboard_summary-high_risk_example :
    (Memᴰ "FPS-101" (get_dashboard_summary flagged).high_risk_fps ↔ HasHighRisk flagged "FPS-101")
    × Nodup (get_dashboard_summary flagged).high_risk_fps
get_dashboard_summary-high_risk_example = get_dashboard_summary-high_risk flagged "FPS-101"
