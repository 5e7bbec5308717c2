-- ===== src/Contract/Data.antt =====
-- `PdsDataContract` of blockchain/chaincode/pds-chaincode/src/contract.ts: the movements of grain,
-- the claims, the audit flags and the grievances.
use toomoki_cdac_pds.Ledger.Allocate.{FpsReceiptInput, AllocateInput}
use toomoki_cdac_pds.Ledger.Receive.{ReceiveInput}
use toomoki_cdac_pds.Ledger.Persist.{PdsLedgerState}
use toomoki_cdac_pds.Ledger.Dispatch.{DispatchInput}
use toomoki_cdac_pds.Contract.Stub.{
  tx_timestamp, Refusal, World, Operation, Outcome, Stub, Transaction,
}
use toomoki_cdac_pds.SharedTypes.{FpsAllocation, TransferOrder, CommodityLot}
use toomoki_cdac_pds.Contract.Collections.{
  save_lots, save_allocations, save_transfers, save_stock, save_alerts, read_ids, id_key,
  save_events, empty_state, Submitted, read_stock, query_state, transact,
}
use Prim.Native.String.{String}
use toomoki_cdac_pds.Prelude.{
  false, ◌&&◌, ◌||◌, ◌otherwise◌, Bool, Option, some, none, [], ◌∷◌, not, if◌then◌else◌, str_eq,
}
use toomoki_cdac_pds.StringMap.{get}
use toomoki_cdac_pds.Contract.Authorization.{authorized}
use toomoki_cdac_pds.Ledger.Allocate
use toomoki_cdac_pds.Ledger.Dispatch
use toomoki_cdac_pds.Ledger.Lots
use toomoki_cdac_pds.Ledger.Receive

unfoldable pub create_commodity_lot_transaction :
    Stub → CommodityLot → Transaction (Submitted CommodityLot)
unfolding transact
create_commodity_lot_transaction stub payload =
    authorized Operation.create_commodity_lot stub (λ world.
      transact stub
        (record empty_state {
          stakeholders = read_ids stub world.stakeholders (payload.current_owner ∷ []);
          lots = read_ids stub world.lots (payload.lot_id ∷ []);
          stock = read_stock stub world ((payload.current_owner, payload.commodity) ∷ []);
        })
        (Lots.create_commodity_lot payload)
        (λ _ s w. save_events stub s (save_stock stub s (save_lots stub s w))) world)

-- `given === id`
abbrev names : String → Option String → Bool
names id none = false
names id (some given) = str_eq given id

-- Lots of the lineage: those that a later dispatch may take a slice of.
unfoldable pub of_lineage : CommodityLot → CommodityLot → Bool
of_lineage lot item =
    let target_root = lot.root_lot_id otherwise lot.lot_id in
    str_eq item.lot_id lot.lot_id
    || (str_eq item.commodity lot.commodity
        && (names target_root item.root_lot_id
            || names lot.lot_id item.parent_lot_id
            || str_eq item.lot_id target_root))

-- What `DispatchLot` loads, once it has the lot.
unfoldable pub load_dispatch : Stub → DispatchInput → CommodityLot → World → PdsLedgerState
unfolding query_state read_stock of_lineage
load_dispatch stub payload lot world = record empty_state {
  stakeholders =
      read_ids stub world.stakeholders
        (payload.from_org ∷ payload.to_org ∷ payload.transporter_id ∷ []);
  lots =
      if not (str_eq lot.current_owner payload.from_org)
      then query_state stub (of_lineage lot) world.lots
      else read_ids stub world.lots (payload.lot_id ∷ []);
  transfers = read_ids stub world.transfers (payload.transfer_id ∷ []);
  stock = read_stock stub world ((payload.from_org, lot.commodity) ∷ []);
  events = query_state stub (λ e. str_eq e.entity_id payload.transfer_id) world.events;
}

-- A record that the transaction must find before it loads the rest.
abbrev pub with_record :
    {A V : Type 0} → String → String → Option V → (V → Transaction A) → Transaction A
with_record kind id none rest world = Outcome.refused (Refusal.record_missing kind id)
with_record kind id (some x) rest world = rest x world

abbrev pub save_movement : Stub → PdsLedgerState → World → World
save_movement stub s w =
    save_events stub s
      (save_alerts stub s (save_stock stub s (save_transfers stub s (save_lots stub s w))))

unfoldable pub dispatch_lot_transaction :
    Stub → DispatchInput → Transaction (Submitted TransferOrder)
unfolding transact load_dispatch
dispatch_lot_transaction stub payload = authorized Operation.dispatch_lot stub (λ world.
    with_record "Lot" payload.lot_id (get world.lots (id_key stub payload.lot_id))
      (λ lot.
        transact stub (load_dispatch stub payload lot world)
          (Dispatch.dispatch_lot (record payload { dispatch_timestamp = some (tx_timestamp stub) }))
          (λ _ s w. save_movement stub s w))
      world)

-- What `ReceiveLot` loads, once it has the transfer and its lot.
unfoldable pub load_receipt : Stub → TransferOrder → CommodityLot → String → World → PdsLedgerState
unfolding read_stock
load_receipt stub transfer lot transfer_id world = record empty_state {
  lots = read_ids stub world.lots (transfer.lot_id ∷ []);
  transfers = read_ids stub world.transfers (transfer_id ∷ []);
  stock = read_stock stub world ((transfer.to_org, lot.commodity) ∷ []);
}

unfoldable pub receive_lot_transaction : Stub → ReceiveInput → Transaction (Submitted TransferOrder)
unfolding transact load_receipt
receive_lot_transaction stub payload = authorized Operation.receive_lot stub (λ world.
    with_record "Transfer" payload.transfer_id
      (get world.transfers (id_key stub payload.transfer_id))
      (λ transfer.
        with_record "Lot" transfer.lot_id (get world.lots (id_key stub transfer.lot_id)) (λ lot.
          transact stub (load_receipt stub transfer lot payload.transfer_id world)
            (Receive.receive_lot (record payload { receive_timestamp = some (tx_timestamp stub) }))
            (λ _ s w. save_movement stub s w)))
      world)

abbrev pub load_allocation : Stub → AllocateInput → World → PdsLedgerState
load_allocation stub payload world = record empty_state {
  stakeholders =
      read_ids stub world.stakeholders
        (payload.fps_id ∷ payload.source_godown_id ∷ payload.transporter_id ∷ []);
  allocations = read_ids stub world.allocations (payload.allocation_id ∷ []);
  stock = read_stock stub world ((payload.source_godown_id, payload.commodity) ∷ []);
}

unfoldable pub allocate_to_fps_transaction :
    Stub → AllocateInput → Transaction (Submitted FpsAllocation)
unfolding transact read_stock
allocate_to_fps_transaction stub payload = authorized Operation.allocate_to_fps stub (λ world.
    transact stub (load_allocation stub payload world) (Allocate.allocate_to_fps payload)
      (λ _ s w. save_events stub s (save_stock stub s (save_allocations stub s w))) world)

abbrev pub load_fps_receipt : Stub → FpsAllocation → String → World → PdsLedgerState
load_fps_receipt stub allocation id world = record empty_state {
  allocations = read_ids stub world.allocations (id ∷ []);
  stock = read_stock stub world ((allocation.fps_id, allocation.commodity) ∷ []);
}

unfoldable pub record_fps_receipt_transaction :
    Stub → FpsReceiptInput → Transaction (Submitted FpsAllocation)
unfolding transact read_stock
record_fps_receipt_transaction stub payload = authorized Operation.record_fps_receipt stub (λ world.
    with_record "Allocation" payload.allocation_id
      (get world.allocations (id_key stub payload.allocation_id))
      (λ allocation.
        transact stub (load_fps_receipt stub allocation payload.allocation_id world)
          (Allocate.record_fps_receipt
            (record payload { receive_timestamp = some (tx_timestamp stub) }))
          (λ _ s w.
            save_events stub s
              (save_alerts stub s (save_stock stub s (save_allocations stub s w)))))
      world)
