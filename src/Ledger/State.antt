-- ===== src/Ledger/State.antt =====
-- The fields of `PdsLedgerEngine`, its two callbacks, and the errors that its methods throw.
use toomoki_cdac_pds.Prelude.{String, ℕ, Bool, Option, List, []}
use toomoki_cdac_pds.Prelude.Int.{ℤ}
use toomoki_cdac_pds.StringMap.{StringMap}
use toomoki_cdac_pds.SharedTypes.{
  Stakeholder, CommodityLot, TransferOrder, FpsAllocation, MonthlyEntitlement, AuthTransaction,
  DistributionTransaction, AuditAlert, RationCard, Grievance, EntitlementRule,
}
use toomoki_cdac_pds.SharedTypes.Events.{LedgerEvent}
use toomoki_cdac_pds.SharedTypes.Routes.{initial_demo_series_id}

-- What the engine uses of JavaScript's `Date`: milliseconds since 1970 by `parse`, which has
-- `none` for an invalid date, the UTC fields, and `toISOString`. Months count from 0.
pub record Dates : Type 0 where
  pub parse : String → Option ℤ
  pub utc_full_year : ℤ → ℕ
  pub utc_month : ℤ → ℕ
  pub utc_date : ℤ → ℕ
  pub utc_hours : ℤ → ℕ
  pub utc_minutes : ℤ → ℕ
  pub utc_seconds : ℤ → ℕ
  pub to_iso_string : ℤ → String

-- `timestamp` and `identifier` are callbacks: the n-th call of each has the n-th value. Beside
-- them stand the platform's dates and its order of texts: `locale_le a b` is
-- `a.localeCompare(b) <= 0`.
pub record Runtime : Type 0 where
  pub timestamp : ℕ → String
  pub identifier : ℕ → String
  pub dates : Dates
  pub locale_le : String → String → Bool
  -- `Math.random().toString(36).slice(2, 6)`
  pub random_suffix : String

-- An entitlement, and the ledger event whose payload is this very object, if there is one. The
-- engine changes entitlements in place, so a change shows in that event too.
pub record EntitlementCell : Type 0 where
  pub entitlement : MonthlyEntitlement
  pub shared_with : Option String

pub record PdsLedger : Type 0 where
  pub stakeholders : StringMap Stakeholder
  pub lots : StringMap CommodityLot
  pub transfers : StringMap TransferOrder
  pub allocations : StringMap FpsAllocation
  pub entitlements : StringMap EntitlementCell
  pub auth_transactions : StringMap AuthTransaction
  pub distributions : StringMap DistributionTransaction
  pub alerts : StringMap AuditAlert
  pub events : List LedgerEvent
  pub stock : StringMap ℤ
  pub ration_cards : StringMap RationCard
  pub grievances : StringMap Grievance
  pub entitlement_rules : StringMap EntitlementRule
  pub series_id : String
  pub runtime : Runtime
  -- how many values the callbacks have given so far
  pub timestamps_drawn : ℕ
  pub identifiers_drawn : ℕ

-- `new PdsLedgerEngine(false, runtime)`
abbrev pub empty_ledger : Runtime → PdsLedger
empty_ledger runtime = record {
  stakeholders = [];
  lots = [];
  transfers = [];
  allocations = [];
  entitlements = [];
  auth_transactions = [];
  distributions = [];
  alerts = [];
  events = [];
  stock = [];
  ration_cards = [];
  grievances = [];
  entitlement_rules = [];
  series_id = initial_demo_series_id;
  runtime = runtime;
  timestamps_drawn = 0;
  identifiers_drawn = 0;
}

-- One constructor for each message, with the identifiers that the message names.
pub data Error : Type 0 where
  already_exists : String → String → Error
  not_found : String → String → Error
  stakeholder_inactive : String → Error
  not_a_transporter : String → Error
  transporter_required : Error
  must_be_positive : String → Error
  lot_owned_by_other : String → String → String → Error
  lot_in_transit : String → Error
  exceeds_remaining : String → Error
  route_not_allowed : String → String → String → Error
  stage_ii_unauthorized : Error
  already_received : String → String → Error
  exceeds_dispatched : String → Error
  exceeds_allocated : String → Error
  vehicle_required : Error
  insufficient_stock : String → String → Error
  not_a_hash : String → Error
  has_whitespace : String → Error
  raw_identifier : String → Error
  exceeds_rule_cap : String → Error
  card_inactive : String → Error
  exceeds_balance : String → Error
  auth_failed : Error
  invalid_timestamp : String → Error
  card_cancelled : String → Error
  card_not_active : String → Error
  description_too_long : Error
  grievance_not_open : String → Error
  grievance_already_resolved : String → Error
  rule_not_pending : String → Error
  rollover_out_of_range : Error
  unsupported_event : String → Error
  prohibited_field : String → Error
  cannot_project : String → Error
