-- ===== src/Ledger/Seed.antt =====
-- `seedDemoData` and `snapshot`. The fixtures of packages/fixtures are arguments.
use toomoki_cdac_pds.Ledger.Distribute.{create_or_update_entitlement}
use toomoki_cdac_pds.Ledger.Lots.{set_stakeholder}
use toomoki_cdac_pds.Ledger.Rules.{entitlements_in}
use toomoki_cdac_pds.Ledger.Reset.{create_all}
use toomoki_cdac_pds.Ledger.State.{PdsLedger}
use toomoki_cdac_pds.SharedTypes.{
  EntitlementRule, Grievance, RationCard, AuditAlert, DistributionTransaction, FpsAllocation,
  TransferOrder, CommodityLot, MonthlyEntitlement, Stakeholder,
}
use toomoki_cdac_pds.Prelude.{List, [], ◌∷◌, sort_by, is_some, if◌then◌else◌, first}
use toomoki_cdac_pds.StringMap.{values}
use toomoki_cdac_pds.Ledger.Exec.{modify, gets, pure, Exec, ◌>>=◌, ◌>>◌}

-- `DemoSnapshot`
pub record DemoSnapshot : Type 0 where
  pub stakeholders : List Stakeholder
  pub lots : List CommodityLot
  pub transfers : List TransferOrder
  pub allocations : List FpsAllocation
  pub entitlements : List MonthlyEntitlement
  pub distributions : List DistributionTransaction
  pub alerts : List AuditAlert
  pub ration_cards : List RationCard
  pub grievances : List Grievance
  pub entitlement_rules : List EntitlementRule

unfoldable pub snapshot : PdsLedger → DemoSnapshot
snapshot s = record {
  stakeholders = values s.stakeholders;
  lots = values s.lots;
  transfers = values s.transfers;
  allocations = values s.allocations;
  entitlements = entitlements_in (values s.entitlements);
  distributions = values s.distributions;
  alerts = values s.alerts;
  ration_cards = values s.ration_cards;
  grievances = values s.grievances;
  entitlement_rules = values s.entitlement_rules;
}

-- A stakeholder has neither `timestamp` nor `createdAt`, so `sortByTime` compares empty texts.
unfoldable pub list_stakeholders : PdsLedger → List Stakeholder
list_stakeholders s = sort_by (λ _ _. s.runtime.locale_le "" "") (values s.stakeholders)

abbrev set_stakeholders : List Stakeholder → PdsLedger → PdsLedger
set_stakeholders [] s = s
set_stakeholders (x ∷ xs) s = set_stakeholders xs (set_stakeholder x s)

unfoldable pub enter_entitlements : List MonthlyEntitlement → Exec (Unit {0})
enter_entitlements [] = pure tt
enter_entitlements (e ∷ es) = do create_or_update_entitlement e; enter_entitlements es

-- A ledger that knows a stakeholder is not seeded again.
unfoldable pub seed_demo_data :
    List Stakeholder → List CommodityLot → List MonthlyEntitlement → Exec DemoSnapshot
unfolding snapshot create_all enter_entitlements
seed_demo_data stakeholders lots entitlements = do
  seeded ← gets (λ s. is_some (first (values s.stakeholders)))
  if seeded then gets snapshot else (do
    modify (set_stakeholders stakeholders)
    create_all lots
    enter_entitlements entitlements
    gets snapshot)
