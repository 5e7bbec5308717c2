-- ===== src/Ledger/Persist.antt =====
-- `exportState` and `restoreState`: the engine's state as the document that is stored. The
-- document is read back as new objects, so no event shares an entitlement with the map.
use Prim.Native.Char.{code}
use Prim.Native.String.{String, ◌++◌ as append}
use toomoki_cdac_pds.Prelude.{
  find, is_some, leb, false, ◌&&◌, sort_by, ◌otherwise◌, Bool, ℕ, map, Option, List, [], ◌∷◌, none,
  some, ◌==◌, str_eq, if◌then◌else◌,
}
use toomoki_cdac_pds.Prelude.Text.{codes, is_digit, js_length}
use toomoki_cdac_pds.Prelude.Int.{ℤ}
use toomoki_cdac_pds.StringMap.{StringMap, set, values}
use toomoki_cdac_pds.SharedTypes.{
  Stakeholder, CommodityLot, TransferOrder, FpsAllocation, MonthlyEntitlement, AuthTransaction,
  DistributionTransaction, AuditAlert, RationCard, Grievance, EntitlementRule,
}
use toomoki_cdac_pds.SharedTypes.Events.{LedgerEvent}
use toomoki_cdac_pds.SharedTypes.Routes.{CommodityDefinition, commodities, initial_demo_series_id}
use toomoki_cdac_pds.Ledger.State.{PdsLedger, EntitlementCell}
use toomoki_cdac_pds.Ledger.Rules.{entitlements_in}
use toomoki_cdac_pds.Ledger.Distribute.{key_of}

pub record PdsLedgerState : Type 0 where
  pub stakeholders : List Stakeholder
  pub lots : List CommodityLot
  pub transfers : List TransferOrder
  pub allocations : List FpsAllocation
  pub entitlements : List MonthlyEntitlement
  pub auth_transactions : List AuthTransaction
  pub distributions : List DistributionTransaction
  pub alerts : List AuditAlert
  pub events : List LedgerEvent
  pub stock : List (String × ℤ)
  pub ration_cards : Option (List RationCard)
  pub grievances : Option (List Grievance)
  pub entitlement_rules : Option (List EntitlementRule)
  pub series_id : Option String

unfoldable pub export_state : PdsLedger → PdsLedgerState
export_state s = record {
  stakeholders = values s.stakeholders;
  lots = values s.lots;
  transfers = values s.transfers;
  allocations = values s.allocations;
  entitlements = entitlements_in (values s.entitlements);
  auth_transactions = values s.auth_transactions;
  distributions = values s.distributions;
  alerts = values s.alerts;
  events = s.events;
  stock = s.stock;
  ration_cards = some (values s.ration_cards);
  grievances = some (values s.grievances);
  entitlement_rules = some (values s.entitlement_rules);
  series_id = some s.series_id;
}

module _ {V : Type 0} where
  -- `new Map(entries)` on top of a map: later entries win.
  unfoldable pub set_each : StringMap V → List (String × V) → StringMap V
  set_each m [] = m
  set_each m ((k, v) ∷ rest) = set_each (set m k v) rest

  -- `new Map(items.map((item) => [id(item), item]))`
  abbrev pub keyed : (V → String) → List V → List (String × V)
  keyed id [] = []
  keyed id (x ∷ xs) = (id x, x) ∷ keyed id xs

  unfoldable pub map_of : (V → String) → List V → StringMap V
  unfolding set_each
  map_of id xs = set_each [] (keyed id xs)

abbrev pub fresh_cell : MonthlyEntitlement → EntitlementCell
fresh_cell e = record { entitlement = e; shared_with = none }

-- What stands behind a prefix.
unfoldable pub strip_prefix : String → String → Option String
strip_prefix String.[] s = some s
strip_prefix (String.◌∷◌ c p) String.[] = none
strip_prefix (String.◌∷◌ c p) (String.◌∷◌ d s) = if code c == code d then strip_prefix p s else none

-- `-\d{3}`, the whole of a text.
unfoldable pub is_sequence : List ℕ → Bool
is_sequence (dash ∷ a ∷ b ∷ c ∷ []) = dash == b'-' && is_digit a && is_digit b && is_digit c
is_sequence _ = false

-- What stands before a final `-\d{3}`.
unfoldable pub strip_sequence : String → Option String
unfolding is_sequence
strip_sequence String.[] = none
strip_sequence (String.◌∷◌ c s) =
    let rest = strip_sequence s in
    if is_sequence (codes (String.◌∷◌ c s))
    then some ""
    else elim rest [ none ↦ none | some t ↦ some (String.◌∷◌ c t) ]

-- The series that a lot id names, by the first commodity whose prefix it has.
unfoldable pub series_by : List CommodityDefinition → String → Option String
unfolding strip_prefix strip_sequence
series_by [] lot_id = none
series_by (d ∷ ds) lot_id =
    let next = series_by ds lot_id in
    elim (strip_prefix (append "LOT-" (append d.slug "-")) lot_id) [
      | none ↦ next
      | some rest ↦ elim (strip_sequence rest) [
        | none ↦ next
        | some series ↦
            if str_eq series ""
            then next
            else if str_eq series "2026"
            then some initial_demo_series_id
            else some series
      ]
    ]

-- `deriveSeriesIdFromLots`: by the last lot, in the order of ids, that ends in a sequence.
unfoldable pub derive_series_id_from_lots :
    (String → String → Bool) → List CommodityLot → Option String
unfolding series_by
derive_series_id_from_lots locale_le lots =
    let ordered = sort_by (λ a b. locale_le b.lot_id a.lot_id) lots in
    let by_length = sort_by (λ a b. leb (js_length b.slug) (js_length a.slug)) commodities in
    elim (find (λ lot. is_some (strip_sequence lot.lot_id)) ordered) [
      | none ↦ none
      | some lot ↦ series_by by_length lot.lot_id
    ]

abbrev pub first_some : {A : Type 0} → Option A → Option A → Option A
first_some none y = y
first_some (some x) y = some x

-- The callbacks and what they have given stay with the engine.
unfoldable pub restore_state : PdsLedgerState → PdsLedger → PdsLedger
unfolding map_of derive_series_id_from_lots
restore_state state s = record s {
  stakeholders = map_of (λ x. x.stakeholder_id) state.stakeholders;
  lots = map_of (λ x. x.lot_id) state.lots;
  transfers = map_of (λ x. x.transfer_id) state.transfers;
  allocations = map_of (λ x. x.allocation_id) state.allocations;
  entitlements = map_of (λ c. key_of c.entitlement) (map fresh_cell state.entitlements);
  auth_transactions = map_of (λ x. x.auth_txn_id) state.auth_transactions;
  distributions = map_of (λ x. x.distribution_id) state.distributions;
  alerts = map_of (λ x. x.alert_id) state.alerts;
  events = state.events;
  stock = set_each [] state.stock;
  ration_cards = map_of (λ x. x.ration_card_hash) (state.ration_cards otherwise []);
  grievances = map_of (λ x. x.grievance_id) (state.grievances otherwise []);
  entitlement_rules = map_of (λ x. x.rule_id) (state.entitlement_rules otherwise []);
  series_id =
      first_some state.series_id (derive_series_id_from_lots s.runtime.locale_le state.lots)
      otherwise initial_demo_series_id;
}
