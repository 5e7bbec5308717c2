-- ===== src/Ledger/Lots.antt =====
-- `registerStakeholder`, `createCommodityLot` and `splitLotForPartialDispatch`.
use toomoki_cdac_pds.Prelude.{String, ◌+◌, some, ◌otherwise◌, non_empty}
use toomoki_cdac_pds.Prelude.Int.{ℤ, ◌-ℤ◌}
use toomoki_cdac_pds.StringMap.{has, set}
use toomoki_cdac_pds.SharedTypes.{Stakeholder, CommodityLot, LotStatus, EntityType}
use toomoki_cdac_pds.SharedTypes.Events.{Body}
use toomoki_cdac_pds.Ledger.State.{PdsLedger, already_exists}
use toomoki_cdac_pds.Ledger.Exec.{Exec, pure, gets, throw_if, modify, ◌>>=◌, ◌>>◌}
use toomoki_cdac_pds.Ledger.Checks.{assert_active_stakeholder}
use toomoki_cdac_pds.Ledger.Record.{draw_timestamp, timestamp_or, record_event, add_stock}

abbrev pub set_lot : CommodityLot → PdsLedger → PdsLedger
set_lot lot s = record s { lots = set s.lots lot.lot_id lot }

abbrev pub set_stakeholder : Stakeholder → PdsLedger → PdsLedger
set_stakeholder x s = record s { stakeholders = set s.stakeholders x.stakeholder_id x }

-- The stakeholder and the `ledgerTxId`.
unfoldable pub register_stakeholder : Stakeholder → Exec (Stakeholder × String)
register_stakeholder stakeholder = do
  known ← gets (λ s. has s.stakeholders stakeholder.stakeholder_id)
  throw_if known (already_exists "Stakeholder" stakeholder.stakeholder_id)
  modify (set_stakeholder stakeholder)
  ledger_tx_id ←
      record_event EntityType.stakeholder stakeholder.stakeholder_id
        (Body.register_stakeholder stakeholder)
  pure (stakeholder, ledger_tx_id)

-- The input is a lot whose status is not read.
unfoldable pub create_commodity_lot : CommodityLot → Exec CommodityLot
create_commodity_lot input = do
  assert_active_stakeholder input.current_owner
  known ← gets (λ s. has s.lots input.lot_id)
  throw_if known (already_exists "Lot" input.lot_id)
  created_at ← timestamp_or input.created_at
  let lot : CommodityLot = record input {
    status = LotStatus.created;
    created_at = some created_at;
    root_lot_id = some (input.root_lot_id otherwise input.lot_id);
    original_quantity_kg = some (input.original_quantity_kg otherwise input.quantity_kg);
    remaining_quantity_kg = some (input.remaining_quantity_kg otherwise input.quantity_kg);
  }
  modify (set_lot lot)
  add_stock lot.current_owner lot.commodity lot.quantity_kg
  record_event EntityType.lot lot.lot_id (Body.create_commodity_lot lot)
  pure lot

-- What a lot still holds: `remainingQuantityKg ?? quantityKg`.
abbrev pub available_on : CommodityLot → ℤ
available_on lot = lot.remaining_quantity_kg otherwise lot.quantity_kg

abbrev pub root_of : CommodityLot → String
root_of lot = lot.root_lot_id otherwise lot.lot_id

-- The slice that leaves on a truck of its own.
abbrev pub child_slice : CommodityLot → String → ℤ → String → CommodityLot
child_slice parent child_lot_id dispatched_qty_kg created_at = record {
  lot_id = child_lot_id;
  commodity = parent.commodity;
  season = parent.season;
  quantity_kg = dispatched_qty_kg;
  quality_grade = parent.quality_grade;
  source = parent.source;
  current_owner = parent.current_owner;
  current_location = parent.current_location;
  status = parent.status;
  transformed_from_lot_id = non_empty parent.transformed_from_lot_id;
  created_at = some created_at;
  root_lot_id = some (root_of parent);
  parent_lot_id = some parent.lot_id;
  original_quantity_kg = some dispatched_qty_kg;
  remaining_quantity_kg = some dispatched_qty_kg;
  unit = some (parent.unit otherwise "KG");
  version = some 1;
}

-- What stays at the sender.
abbrev pub parent_rest : CommodityLot → ℤ → CommodityLot
parent_rest parent dispatched_qty_kg =
    let remaining = available_on parent -ℤ dispatched_qty_kg in
    record parent {
      quantity_kg = remaining;
      remaining_quantity_kg = some remaining;
      original_quantity_kg = some (parent.original_quantity_kg otherwise available_on parent);
      root_lot_id = some (root_of parent);
      version = some ((parent.version otherwise 1) + 1);
    }

unfoldable pub split_lot_for_partial_dispatch : CommodityLot → String → ℤ → Exec CommodityLot
split_lot_for_partial_dispatch parent child_lot_id dispatched_qty_kg = do
  created_at ← draw_timestamp
  let child = child_slice parent child_lot_id dispatched_qty_kg created_at
  modify (set_lot (parent_rest parent dispatched_qty_kg))
  modify (set_lot child)
  record_event EntityType.lot child.lot_id (Body.create_commodity_lot child)
  pure child
