-- ===== src/Ledger/Tests/History.antt =====
-- The history of a lot that was split, at the demo ledger.
use toomoki_cdac_pds.Ledger.History.Fuel.{collect-returns}
use toomoki_cdac_pds.Ledger.Demo.{demo, demo_lot}
use toomoki_cdac_pds.Ledger.History.Sound.{get_lot_history-OfLinked, OfLinked}
use toomoki_cdac_pds.Ledger.History.Complete.{get_lot_history_complete, itself, child, Linked}
use toomoki_cdac_pds.Ledger.History.{concerns_lot, collect, direct_events, get_lot_history}
use toomoki_cdac_pds.Ledger.State.{PdsLedger}
use toomoki_cdac_pds.SharedTypes.Events.{Body, LedgerEvent}
use toomoki_cdac_pds.SharedTypes.{EntityType, CommodityLot}
use toomoki_cdac_pds.Prelude.{arith, String, List, [], ◌∷◌, none, some, ◌≡◌, refl, true}
use toomoki_cdac_pds.StringMap.{get, set}
use mathlib.Core.List.{Memᴰ}

-- A slice of the demo lot.
abbrev slice : CommodityLot
slice = record demo_lot { lot_id = "LOT-2"; transformed_from_lot_id = some "LOT-1" }

abbrev sliced : LedgerEvent
sliced = record {
  ledger_tx_id = "tx-7";
  entity_type = EntityType.lot;
  entity_id = "LOT-2";
  body = Body.create_commodity_lot (record slice { transformed_from_lot_id = none });
  extras = [];
  timestamp = "2026-07-01T00:00:00.000Z";
}

abbrev two_lots : PdsLedger
two_lots = record demo { lots = ("LOT-1", demo_lot) ∷ ("LOT-2", slice) ∷ []; events = sliced ∷ [] }

history_run : get_lot_history "LOT-1" two_lots ≡ some (sliced ∷ [])
unfolding get_lot_history direct_events get set
history_run = refl

slice-Linked : Linked two_lots "LOT-1" "LOT-2"
slice-Linked = child itself (Memᴰ.head refl)

collect-returns_example :
    (found : List LedgerEvent) × (visited : List String) × (collect two_lots 9 "LOT-1" []
      ≡ some (found, visited))
collect-returns_example = collect-returns two_lots "LOT-1" 9 (omega arith)

get_lot_history_complete_example :
    (history : List LedgerEvent) × (get_lot_history "LOT-1" two_lots ≡ some history)
    × ((x : String) (e : LedgerEvent)
        → Linked two_lots "LOT-1" x
        → Memᴰ e two_lots.events
        → concerns_lot x e ≡ true
        → (h : LedgerEvent) × Memᴰ h history × (h.ledger_tx_id ≡ e.ledger_tx_id))
get_lot_history_complete_example = get_lot_history_complete two_lots "LOT-1"

get_lot_history-OfLinked_example : OfLinked two_lots "LOT-1" sliced
get_lot_history-OfLinked_example =
    get_lot_history-OfLinked two_lots "LOT-1" (sliced ∷ []) sliced history_run (Memᴰ.head refl)
