-- ===== src/Ledger/Reset.antt =====
-- `resetTransactionalData` and what it shares with its replay.
use Prim.Native.String.{String, ◌++◌ as append}
use Prim.Native.Char.{code}
use toomoki_cdac_pds.Prelude.{
  ◌otherwise◌, ◌||◌, non_empty, not, ◌==◌, filter, false, truthy, str_eq, if◌then◌else◌, any, true,
  map, List, Bool, Option, [], ◌∷◌, none, some, ◌++◌, ℕ, zero, suc, ◌+◌,
}
use toomoki_cdac_pds.Prelude.Int.{ℤ, pos}
use toomoki_cdac_pds.Prelude.Text.{codes, pad2, show}
use toomoki_cdac_pds.StringMap.{keep_if, keys, drop_keys, delete, map_values, values, StringMap}
use toomoki_cdac_pds.SharedTypes.{Stakeholder, EntityType, LotStatus, CommodityLot}
use toomoki_cdac_pds.SharedTypes.Events.{Body, LedgerEvent}
use toomoki_cdac_pds.SharedTypes.Routes.{commodities, build_seed_lot_id, CommodityDefinition}
use toomoki_cdac_pds.Ledger.State.{PdsLedger, Dates, EntitlementCell, Runtime}
use toomoki_cdac_pds.Ledger.Exec.{Exec, pure, gets, modify, ◌>>=◌, ◌>>◌}
use toomoki_cdac_pds.Ledger.Record.{draw_identifier, draw_timestamp, record_event}
use toomoki_cdac_pds.Ledger.Lots.{create_commodity_lot}
use toomoki_cdac_pds.Ledger.Distribute.{show_in_event}

-- `slice(0, n)`, on texts of the basic plane.
unfoldable pub take_chars : ℕ → String → String
take_chars zero s = ""
take_chars (suc n) String.[] = ""
take_chars (suc n) (String.◌∷◌ c s) = String.◌∷◌ c (take_chars n s)

-- The stamp of `generateResetSeriesId`; the fields of an invalid date print as `NaN`.
unfoldable pub stamp : Dates → Option ℤ → String
stamp dates none = "NaNNaNNaN-NaNNaNNaN"
stamp dates (some t) = append (show (dates.utc_full_year t)) (
    append (pad2 (dates.utc_month t + 1)) (
      append (pad2 (dates.utc_date t)) (
        append "-" (
          append (pad2 (dates.utc_hours t))
            (append (pad2 (dates.utc_minutes t)) (pad2 (dates.utc_seconds t)))))))

-- `generateResetSeriesId(new Date(timestamp), entropy)`
unfoldable pub generate_reset_series_id : Runtime → String → String → String
unfolding take_chars stamp
generate_reset_series_id runtime timestamp entropy =
    let suffix = if str_eq entropy "" then runtime.random_suffix else entropy in
    append "R" (
      append (stamp runtime.dates (runtime.dates.parse timestamp))
        (append "-" (take_chars 4 suffix)))

-- `defaultSeasonForCommodity`
unfoldable pub default_season_for_commodity : String → String
default_season_for_commodity commodity =
    if str_eq commodity "Rice" || str_eq commodity "Dal"
    then "Kharif 2026"
    else if str_eq commodity "Wheat"
    then "Rabi 2026"
    else "2026"

abbrev pub seed_lot : String → CommodityDefinition → CommodityLot
seed_lot series_id definition = record {
  lot_id = build_seed_lot_id definition.slug series_id;
  commodity = definition.name;
  season = default_season_for_commodity definition.name;
  quantity_kg = definition.default_top_up_quantity_kg;
  quality_grade = definition.default_quality_grade;
  source = "FCI Central Depot";
  current_owner = "FCI-001";
  current_location = "FCI Depot";
  status = LotStatus.created;
  transformed_from_lot_id = none;
  created_at = none;
  root_lot_id = none;
  parent_lot_id = none;
  original_quantity_kg = none;
  remaining_quantity_kg = none;
  unit = none;
  version = none;
}

-- `buildSeriesSeedLots`: one lot for each commodity, or for the one that is asked for.
unfoldable pub build_series_seed_lots : String → Option String → List CommodityLot
unfolding commodities default_season_for_commodity
build_series_seed_lots series_id commodity = map (seed_lot series_id) (
    if truthy commodity
    then filter (λ d. str_eq d.name (commodity otherwise "")) commodities
    else commodities)

-- `FULL_RESET_PRESERVED_ENTITY_TYPES`, `preservesFullResetHistory`
abbrev pub preserved_entity : EntityType → Bool
preserved_entity EntityType.stakeholder = true
preserved_entity EntityType.rationcard = true
preserved_entity EntityType.grievance = true
preserved_entity EntityType.entitlementrule = true
preserved_entity _ = false

abbrev pub has_id : List String → String → Bool
has_id ids id = any (λ j. str_eq j id) ids

-- An entitlement with nothing lifted.
abbrev pub restored : EntitlementCell → EntitlementCell
restored cell = record cell {
  entitlement = record (cell.entitlement) {
    already_lifted_kg = pos 0;
    available_balance_kg = cell.entitlement.monthly_entitlement_kg;
  };
}

-- The changes of the cells, in the events that hold their objects.
unfoldable pub show_cells : StringMap EntitlementCell → List LedgerEvent → List LedgerEvent
unfolding show_in_event
show_cells [] events = events
show_cells ((_, cell) ∷ cells) events =
    show_cells cells (map (show_in_event cell.shared_with cell.entitlement) events)

-- The reset of all entitlements that a test selects, in place.
unfoldable pub restore_entitlements : (EntitlementCell → Bool) → PdsLedger → PdsLedger
unfolding show_cells
restore_entitlements select s =
    let after = map_values (λ cell. if select cell then restored cell else cell) s.entitlements in
    record s { entitlements = after; events = show_cells (keep_if select after) s.events }

abbrev pub delete_all : {V : Type 0} → List String → StringMap V → StringMap V
delete_all [] m = m
delete_all (id ∷ ids) m = delete_all ids (delete m id)

-- `key.slice(key.lastIndexOf(':') + 1)`
unfoldable pub last_segment : String → String
last_segment String.[] = ""
last_segment (String.◌∷◌ c r) =
    let later = last_segment r in
    if any (λ d. d == b':') (codes r) then later else if code c == b':' then r else String.◌∷◌ c r

-- The stock positions whose key does not end in the commodity.
abbrev pub other_stock : String → StringMap ℤ → StringMap ℤ
other_stock commodity m = drop_keys (λ key. str_eq (last_segment key) commodity) m

-- The full reset of `applyTransactionalReset`: the ids that were removed, and the state.
unfoldable pub reset_all : PdsLedger → List String × PdsLedger
unfolding restore_entitlements
reset_all s = (
  keys s.lots
      ++ (keys s.transfers ++ (keys s.allocations ++ (keys s.distributions ++ keys s.alerts))),
  restore_entitlements (λ _. true)
      (record s {
        lots = [];
        transfers = [];
        allocations = [];
        auth_transactions = [];
        distributions = [];
        alerts = [];
        stock = [];
      }),
)

-- The reset of one commodity.
unfoldable pub reset_commodity : String → PdsLedger → List String × PdsLedger
unfolding restore_entitlements last_segment
reset_commodity commodity s =
    let lot_ids =
      map (λ l. l.lot_id) (filter (λ l. str_eq l.commodity commodity) (values s.lots)) in
    let allocation_ids =
      map (λ a. a.allocation_id)
        (filter (λ a. str_eq a.commodity commodity) (values s.allocations)) in
    let distribution_ids =
      map (λ d. d.distribution_id)
        (filter (λ d. str_eq d.commodity commodity) (values s.distributions)) in
    let transfer_ids =
      map (λ t. t.transfer_id) (filter (λ t. has_id lot_ids t.lot_id) (values s.transfers)) in
    let affected = lot_ids ++ (transfer_ids ++ (allocation_ids ++ distribution_ids)) in
    (
      affected,
      restore_entitlements (λ cell. str_eq cell.entitlement.commodity commodity)
          (record s {
            lots = delete_all lot_ids s.lots;
            transfers = delete_all transfer_ids s.transfers;
            allocations = delete_all allocation_ids s.allocations;
            distributions = delete_all distribution_ids s.distributions;
            stock = other_stock commodity s.stock;
            alerts = keep_if (λ a. not (has_id affected a.entity_id)) s.alerts;
          }),
    )

unfoldable pub apply_transactional_reset : Option String → PdsLedger → List String × PdsLedger
unfolding reset_all reset_commodity
apply_transactional_reset commodity s =
    if truthy commodity then reset_commodity (commodity otherwise "") s else reset_all s

-- The stakeholders that the history registers.
unfoldable pub registered_ids : List LedgerEvent → List String
registered_ids [] = []
registered_ids (e ∷ es) = elim e.body [
  | Body.register_stakeholder _ ↦ e.entity_id ∷ registered_ids es
  | _ ↦ registered_ids es
]

-- `ensureStakeholderRegistryEvents`. Stakeholders have no time, so `sortByTime` leaves their order.
unfoldable pub register_missing : List String → List Stakeholder → Exec (Unit {0})
register_missing registered [] = pure tt
register_missing registered (x ∷ xs) =
    let rest = register_missing (x.stakeholder_id ∷ registered) xs in
    let skip = register_missing registered xs in
    if has_id registered x.stakeholder_id then skip else (do
      record_event EntityType.stakeholder x.stakeholder_id (Body.register_stakeholder x)
      rest)

unfoldable pub ensure_stakeholder_registry_events : Exec (Unit {0})
unfolding registered_ids register_missing
ensure_stakeholder_registry_events = do
  s ← gets (λ s. s)
  register_missing (registered_ids s.events) (values s.stakeholders)

-- The lots are created again, one after the other.
unfoldable pub create_all : List CommodityLot → Exec (List CommodityLot)
create_all [] = pure []
create_all (lot ∷ lots) = do
  created ← create_commodity_lot lot
  rest ← create_all lots
  pure (created ∷ rest)

-- The events that stay after a reset.
unfoldable pub history_after : Option String → List String → List LedgerEvent → List LedgerEvent
history_after commodity affected events =
    if truthy commodity
    then filter (λ e. not (has_id affected e.entity_id)) events
    else filter (λ e. preserved_entity e.entity_type) events

-- The `ledgerTxId`, the series and the lots.
unfoldable pub reset_transactional_data : Option String → Exec (String × String × List CommodityLot)
unfolding generate_reset_series_id build_series_seed_lots apply_transactional_reset
    ensure_stakeholder_registry_events create_all history_after
reset_transactional_data commodity = do
  now ← draw_timestamp
  entropy ← draw_identifier
  runtime ← gets (λ s. s.runtime)
  let series_id = generate_reset_series_id runtime now (take_chars 12 entropy)
  let seed_lots = build_series_seed_lots series_id commodity
  modify (λ s. record s { series_id = series_id })
  before ← gets (λ s. s)
  let (affected, after) = apply_transactional_reset commodity before
  modify (λ _. record after { events = history_after commodity affected after.events })
  (if truthy commodity then pure tt else ensure_stakeholder_registry_events)
  reset_at ← draw_timestamp
  ledger_tx_id ← record_event EntityType.workflow "ledger" (
      Body.reset_transactional_data (record {
        reset_at = reset_at;
        series_id = some series_id;
        lots = seed_lots;
        commodity = non_empty commodity;
      }))
  created ← create_all seed_lots
  pure (ledger_tx_id, series_id, created)
