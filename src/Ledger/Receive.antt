-- ===== src/Ledger/Receive.antt =====
-- `authorizeMovement` and `receiveLot`.
use toomoki_cdac_pds.Prelude.{
  String, not, Option, none, some, [], ◌∷◌, truthy, non_empty, ◌otherwise◌, if◌then◌else◌,
}
use toomoki_cdac_pds.Prelude.Int.{ℤ, pos, ◌-ℤ◌, max_ℤ, leb_ℤ, ltb_ℤ}
use toomoki_cdac_pds.Prelude.Text.{show_ℤ}
use Prim.Native.String.{◌++◌}
use toomoki_cdac_pds.StringMap.{get, set}
use toomoki_cdac_pds.SharedTypes.{
  CommodityLot, LotStatus, TransferOrder, TransferStatus, ApprovalStatus, AlertType, EntityType,
  Value, in_transit,
}
use toomoki_cdac_pds.SharedTypes.Events.{Approval, Body}
use toomoki_cdac_pds.Ledger.State.{
  PdsLedger, already_received, must_be_positive, exceeds_dispatched,
}
use toomoki_cdac_pds.Ledger.Exec.{Exec, pure, throw_if, modify, ◌>>=◌, ◌>>◌}
use toomoki_cdac_pds.Ledger.Checks.{must_get_lot, must_get_transfer, assert_active_stakeholder}
use toomoki_cdac_pds.Ledger.Record.{timestamp_or, record_event, raise_audit_flag, add_stock}
use toomoki_cdac_pds.Ledger.Lots.{set_lot, available_on}
use toomoki_cdac_pds.Ledger.Dispatch.{set_transfer}

pub record AuthorizeInput : Type 0 where
  pub transfer_id : String
  pub authorized_by : String
  pub authorized_at : Option String
  pub ro_ref : Option String
  pub remarks : Option String

-- The stamp that an approval leaves on a transfer.
abbrev pub stamped : TransferOrder → String → String → Option String → TransferOrder
stamped existing by at ro_ref = record existing {
  authorized_by = some by;
  authorized_at = some at;
  approval_status = some ApprovalStatus.approved;
  ro_ref = if truthy ro_ref then ro_ref else existing.ro_ref;
}

-- Stamps the transfer under the id, if there is one.
unfoldable pub stamp_transfer : String → String → String → Option String → PdsLedger → PdsLedger
stamp_transfer transfer_id by at ro_ref s = elim (get s.transfers transfer_id) [
  | none ↦ s
  | some existing ↦ record s {
    transfers = set s.transfers transfer_id (stamped existing by at ro_ref);
  }
]

-- The approval and the `ledgerTxId`.
unfoldable pub authorize_movement : AuthorizeInput → Exec (Approval × String)
unfolding stamp_transfer
authorize_movement input = do
  assert_active_stakeholder input.authorized_by
  authorized_at ← timestamp_or input.authorized_at
  let approval : Approval = record {
    transfer_id = input.transfer_id;
    authorized_by = input.authorized_by;
    authorized_at = authorized_at;
    ro_ref = non_empty input.ro_ref;
    remarks = non_empty input.remarks;
  }
  modify (stamp_transfer input.transfer_id input.authorized_by authorized_at input.ro_ref)
  ledger_tx_id ←
      record_event EntityType.workflow input.transfer_id (Body.authorize_movement approval)
  pure (approval, ledger_tx_id)

pub record ReceiveInput : Type 0 where
  pub transfer_id : String
  pub received_qty_kg : ℤ
  pub receive_timestamp : Option String

-- `Math.max(0, dispatched - received)`
abbrev pub shortage_of : ℤ → ℤ → ℤ
shortage_of dispatched received = max_ℤ (pos 0) (dispatched -ℤ received)

abbrev pub received_lot_status : ℤ → LotStatus
received_lot_status shortage =
    if ltb_ℤ (pos 0) shortage then LotStatus.received_with_shortage else LotStatus.received

abbrev pub received_transfer : TransferOrder → ℤ → ℤ → String → TransferOrder
received_transfer transfer received shortage receive_timestamp = record transfer {
  received_qty_kg = some received;
  status =
      if ltb_ℤ (pos 0) shortage
      then TransferStatus.received_with_shortage
      else TransferStatus.received;
  receive_timestamp = some receive_timestamp;
  shortage_qty_kg = if ltb_ℤ (pos 0) shortage then some shortage else transfer.shortage_qty_kg;
}

abbrev pub received_lot : CommodityLot → String → ℤ → CommodityLot
received_lot lot to_org shortage = record lot {
  status = received_lot_status shortage;
  current_owner = to_org;
  current_location = to_org;
  remaining_quantity_kg = some (available_on lot);
}

-- An emptied root lot follows its last slice to the receiver.
unfoldable pub close_root_lot : CommodityLot → String → ℤ → PdsLedger → PdsLedger
close_root_lot lot to_org shortage s =
    if truthy lot.root_lot_id
    then elim (get s.lots (lot.root_lot_id otherwise "")) [
      | none ↦ s
      | some root ↦
          if leb_ℤ (available_on root) (pos 0)
          then record s {
            lots = set s.lots root.lot_id (record root {
              status = received_lot_status shortage;
              current_owner = to_org;
              current_location = to_org;
            });
          }
          else s
    ]
    else s

-- A short receipt raises a flag.
unfoldable pub flag_short_receipt : TransferOrder → ℤ → ℤ → Exec (Unit {0})
flag_short_receipt transfer received shortage =
    if ltb_ℤ (pos 0) shortage
    then (do
      raise_audit_flag AlertType.short_receipt transfer.transfer_id
          ("Received "
            ++ (show_ℤ received
                ++ ("kg against dispatched " ++ (show_ℤ transfer.dispatched_qty_kg ++ "kg"))))
          (("dispatchedQtyKg", Value.number transfer.dispatched_qty_kg)
            ∷ ("receivedQtyKg", Value.number received)
            ∷ ("shortageQtyKg", Value.number shortage)
            ∷ [])
      pure tt)
    else pure tt

-- The tests of `receiveLot`: the transfer and its lot.
unfoldable pub check_receipt : ReceiveInput → Exec (TransferOrder × CommodityLot)
unfolding must_get_transfer must_get_lot
check_receipt input = do
  transfer ← must_get_transfer input.transfer_id
  lot ← must_get_lot transfer.lot_id
  throw_if (not (in_transit transfer.status)) (already_received "Transfer" transfer.transfer_id)
  throw_if (leb_ℤ input.received_qty_kg (pos 0)) (must_be_positive "receivedQtyKg")
  throw_if (ltb_ℤ transfer.dispatched_qty_kg input.received_qty_kg)
      (exceeds_dispatched transfer.transfer_id)
  pure (transfer, lot)

-- The writes: the transfer, the receiver's stock, the lot, its root, the event and the flag.
unfoldable pub commit_receipt : ReceiveInput → TransferOrder → CommodityLot → Exec TransferOrder
unfolding close_root_lot flag_short_receipt
commit_receipt input transfer lot = do
  let shortage = shortage_of transfer.dispatched_qty_kg input.received_qty_kg
  receive_timestamp ← timestamp_or input.receive_timestamp
  let updated = received_transfer transfer input.received_qty_kg shortage receive_timestamp
  modify (set_transfer updated)
  add_stock transfer.to_org lot.commodity input.received_qty_kg
  modify (set_lot (received_lot lot transfer.to_org shortage))
  modify (close_root_lot lot transfer.to_org shortage)
  record_event EntityType.transfer updated.transfer_id (Body.receive_lot updated)
  flag_short_receipt updated input.received_qty_kg shortage
  pure updated

unfoldable pub receive_lot : ReceiveInput → Exec TransferOrder
unfolding check_receipt commit_receipt
receive_lot input = do (transfer, lot) ← check_receipt input; commit_receipt input transfer lot
