-- ===== src/Ledger/Alerts.antt =====
-- `resolveAuditAlert`, `reconcileAlerts` and the dashboard.
use toomoki_cdac_pds.Prelude.{
  map, not, ◌+◌, str_eq, any, some, if◌then◌else◌, false, sort_by, filter, true, ◌∷◌, length, Bool,
  ℕ, List, String, [],
}
use toomoki_cdac_pds.Prelude.Int.{ltb_ℤ, ◌+ℤ◌, ℤ, pos}
use toomoki_cdac_pds.StringMap.{values, get}
use toomoki_cdac_pds.SharedTypes.{
  Value, awaiting_receipt, in_transit, AuditAlert, DistributionTransaction, EntityType, AlertType,
  AlertStatus, RiskLevel, LotStatus,
}
use toomoki_cdac_pds.SharedTypes.Events.{Body}
use toomoki_cdac_pds.Ledger.State.{PdsLedger, not_found}
use toomoki_cdac_pds.Ledger.Exec.{Exec, pure, check, gets, or_throw, modify, ◌>>=◌, ◌>>◌}
use toomoki_cdac_pds.Ledger.Checks.{month_from_timestamp, must_get_entitlement}
use toomoki_cdac_pds.Ledger.Record.{set_alert, raise_audit_flag, draw_timestamp, record_event}

unfoldable pub resolve_audit_alert : String → String → String → Exec AuditAlert
resolve_audit_alert alert_id resolved_by resolution_note = do
  found ← gets (λ s. get s.alerts alert_id)
  alert ← or_throw found (not_found "Alert" alert_id)
  resolved_at ← draw_timestamp
  let resolved : AuditAlert = record alert {
    status = AlertStatus.resolved;
    resolved_at = some resolved_at;
    resolved_by = some resolved_by;
    resolution_note = some resolution_note;
  }
  modify (set_alert resolved)
  record_event EntityType.audit resolved.alert_id (Body.resolve_audit_flag resolved)
  pure resolved

-- A distribution beyond its month's entitlement raises a flag.
unfoldable pub reconcile : DistributionTransaction → Exec (Unit {0})
reconcile d = do
  dates ← gets (λ s. s.runtime.dates)
  month ← check (month_from_timestamp dates d.timestamp)
  expected ← must_get_entitlement d.ration_card_hash d.commodity month
  if ltb_ℤ expected.entitlement.monthly_entitlement_kg d.delivered_kg
      then (do
        raise_audit_flag AlertType.duplicate_claim d.distribution_id
            "Distribution exceeds monthly entitlement"
            (("deliveredKg", Value.number d.delivered_kg)
              ∷ ("monthlyEntitlementKg", Value.number expected.entitlement.monthly_entitlement_kg)
              ∷ [])
        pure tt)
      else pure tt

unfoldable pub reconcile_all : List DistributionTransaction → Exec (Unit {0})
unfolding reconcile
reconcile_all [] = pure tt
reconcile_all (d ∷ ds) = do reconcile d; reconcile_all ds

-- `getAlerts`: the alerts by time of creation.
unfoldable pub get_alerts : PdsLedger → List AuditAlert
get_alerts s = sort_by (λ a b. s.runtime.locale_le a.created_at b.created_at) (values s.alerts)

unfoldable pub reconcile_alerts : Exec (List AuditAlert)
unfolding reconcile_all get_alerts
reconcile_alerts = do all ← gets (λ s. values s.distributions); reconcile_all all; gets get_alerts

pub record DashboardSummary : Type 0 where
  pub tracked_stock_kg : ℤ
  pub active_lots : ℕ
  pub completed_distributions : ℕ
  pub pending_transfer_receipts : ℕ
  pub pending_fps_allocations : ℕ
  pub pending_receipts : ℕ
  pub open_alerts : ℕ
  pub high_risk_fps : List String

-- `reduce((total, qty) => total + qty, 0)`
unfoldable pub reduce_sum : ℤ → List ℤ → ℤ
reduce_sum total [] = total
reduce_sum total (qty ∷ rest) = reduce_sum (total +ℤ qty) rest

abbrev pub lot_is_active : LotStatus → Bool
lot_is_active LotStatus.created = true
lot_is_active LotStatus.dispatched = true
lot_is_active _ = false

abbrev pub alert_resolved : AlertStatus → Bool
alert_resolved AlertStatus.resolved = true
alert_resolved _ = false

abbrev pub high_risk : RiskLevel → Bool
high_risk RiskLevel.high = true
high_risk _ = false

-- The alerts' entities, in order, each once, as `[...new Set(ids)]` lists them.
unfoldable pub distinct : List String → List String → List String
distinct seen [] = []
distinct seen (id ∷ ids) =
    let once = distinct (id ∷ seen) ids in
    let skipped = distinct seen ids in if any (λ j. str_eq j id) seen then skipped else id ∷ once

unfoldable pub get_dashboard_summary : PdsLedger → DashboardSummary
unfolding reduce_sum distinct
get_dashboard_summary s =
    let pending_transfers = length (filter (λ t. in_transit t.status) (values s.transfers)) in
    let pending_allocations =
      length (filter (λ a. awaiting_receipt a.status) (values s.allocations)) in
    record {
      tracked_stock_kg = reduce_sum (pos 0) (values s.stock);
      active_lots = length (filter (λ lot. lot_is_active lot.status) (values s.lots));
      completed_distributions = length s.distributions;
      pending_transfer_receipts = pending_transfers;
      pending_fps_allocations = pending_allocations;
      pending_receipts = pending_transfers + pending_allocations;
      open_alerts = length (filter (λ a. not (alert_resolved a.status)) (values s.alerts));
      high_risk_fps =
          distinct []
            (map (λ a. a.entity_id) (filter (λ a. high_risk a.risk_level) (values s.alerts)));
    }
