-- ===== src/Ledger/History.antt =====
-- `getLotHistory`: the events of a lot and of every lot that it was made from or that was made from
-- it.
pub mod Visits
pub mod Answer
pub mod Fuel
pub mod Complete
pub mod Sound
use toomoki_cdac_pds.Ledger.State.{PdsLedger}
use toomoki_cdac_pds.SharedTypes.Events.{LedgerEvent, Body}
use toomoki_cdac_pds.SharedTypes.{CommodityLot, EntityType, Value}
use toomoki_cdac_pds.Prelude.{
  ◌&&◌, String, Bool, true, false, ℕ, zero, suc, List, [], ◌∷◌, ◌++◌, Option, none, some, str_eq,
  any, ◌||◌, filter, map, length, sort_by, non_empty, ◌otherwise◌,
}
use toomoki_cdac_pds.Prelude.Int.{ℤ, pos}
use toomoki_cdac_pds.StringMap.{StringMap, get, set, values}

-- A text among the further fields of a payload.
abbrev text_of : Option Value → Option String
text_of (some (Value.text t)) = some t
text_of _ = none

unfoldable pub extra_text : List (String × Value) → String → Option String
extra_text extras field = text_of (get extras field)

-- `payload?.lotId`, `payload?.parentLotId` and `payload?.transformedFromLotId`, of the payloads that
-- the engine writes.
abbrev payload_lot : Body → Option String
payload_lot (Body.create_commodity_lot l) = some l.lot_id
payload_lot (Body.dispatch_lot t) = some t.lot_id
payload_lot (Body.receive_lot t) = some t.lot_id
payload_lot _ = none

abbrev payload_parent : Body → Option String
payload_parent (Body.create_commodity_lot l) = l.parent_lot_id
payload_parent _ = none

abbrev payload_origin : Body → Option String
payload_origin (Body.create_commodity_lot l) = l.transformed_from_lot_id
payload_origin (Body.dispatch_lot t) = t.transformed_from_lot_id
payload_origin (Body.receive_lot t) = t.transformed_from_lot_id
payload_origin _ = none

-- `payload?.distributionId`
abbrev pub payload_distribution : Body → Option String
payload_distribution (Body.record_distribution d) = some d.distribution_id
payload_distribution _ = none

abbrev is_lot_entity : EntityType → Bool
is_lot_entity EntityType.lot = true
is_lot_entity _ = false

abbrev pub or_else : Option String → Option String → Option String
or_else (some t) u = some t
or_else none u = u

abbrev pub is_text : Option String → String → Bool
is_text none id = false
is_text (some t) id = str_eq t id

unfoldable pub concerns_lot : String → LedgerEvent → Bool
unfolding extra_text
concerns_lot id event =
    (is_lot_entity event.entity_type && str_eq event.entity_id id)
    || is_text (or_else (payload_lot event.body) (extra_text event.extras "lotId")) id
    || is_text (or_else (payload_parent event.body) (extra_text event.extras "parentLotId")) id
    || is_text
        (or_else (payload_origin event.body) (extra_text event.extras "transformedFromLotId")) id

-- `direct`
unfoldable pub direct_events : PdsLedger → String → List LedgerEvent
unfolding concerns_lot
direct_events s id = filter (concerns_lot id) s.events

-- `lot?.transformedFromLotId`, when it is not empty.
abbrev made_from : Option CommodityLot → List String
made_from none = []
made_from (some lot) = elim (non_empty lot.transformed_from_lot_id) [ none ↦ [] | some t ↦ t ∷ [] ]

abbrev pub parents_of : PdsLedger → String → List String
parents_of s id = made_from (get s.lots id)

abbrev pub made_from_it : String → CommodityLot → Bool
made_from_it id candidate = is_text candidate.transformed_from_lot_id id

abbrev pub children_of : PdsLedger → String → List String
children_of s id = map (λ c. c.lot_id) (filter (made_from_it id) (values s.lots))

abbrev pub is_visited : String → List String → Bool
is_visited id visited = any (λ v. str_eq v id) visited

-- What a visit gives: the events, and the ids that were visited. `none`: the fuel ran out.
abbrev pub Visit : Type 0
Visit = List String → Option (List LedgerEvent × List String)

-- `flatMap` of the visits, one after the other.
unfoldable pub visit_each : (String → Visit) → List String → Visit
visit_each visit [] visited = some ([], visited)
visit_each visit (id ∷ ids) visited = elim (visit id visited) [
  | none ↦ none
  | some (events, visited₁) ↦ elim (visit_each visit ids visited₁) [
    | none ↦ none
    | some (more, visited₂) ↦ some (events ++ more, visited₂)
  ]
]

-- `collect`
unfoldable pub collect : PdsLedger → ℕ → String → Visit
unfolding visit_each
collect s zero id visited = none
collect s (suc fuel) id visited = elim (is_visited id visited) [
  | true ↦ some ([], visited)
  | false ↦ elim (visit_each (collect s fuel) (parents_of s id) (id ∷ visited)) [
    | none ↦ none
    | some (above, visited₁) ↦ elim (visit_each (collect s fuel) (children_of s id) visited₁) [
      | none ↦ none
      | some (below, visited₂) ↦ some (above ++ (direct_events s id ++ below), visited₂)
    ]
  ]
]

-- The ids that a visit may come to: the lot's, and each lot's own and its origin's.
abbrev pub ids_of : List CommodityLot → List String
ids_of [] = []
ids_of (lot ∷ lots) = lot.lot_id ∷ (made_from (some lot) ++ ids_of lots)

abbrev pub lot_ids : PdsLedger → String → List String
lot_ids s lot_id = lot_id ∷ ids_of (values s.lots)

-- `unique`: one event for each transaction.
unfoldable pub unique_events : List LedgerEvent → StringMap LedgerEvent → StringMap LedgerEvent
unique_events [] m = m
unique_events (event ∷ events) m = unique_events events (set m event.ledger_tx_id event)

abbrev pub by_time : PdsLedger → List LedgerEvent → List LedgerEvent
by_time s events = sort_by (λ a b. s.runtime.locale_le a.timestamp b.timestamp) events

abbrev history_of : PdsLedger → Option (List LedgerEvent × List String) → Option (List LedgerEvent)
history_of s none = none
history_of s (some (events, _)) = some (by_time s (values (unique_events events [])))

-- Each visit that goes on marks an id, so the number of ids is fuel enough.
unfoldable pub get_lot_history : String → PdsLedger → Option (List LedgerEvent)
unfolding collect unique_events
get_lot_history lot_id s = history_of s (collect s (suc (length (lot_ids s lot_id))) lot_id [])
