-- ===== src/Ledger/Allocate.antt =====
-- `allocateToFps` and `recordFpsReceipt`.
use toomoki_cdac_pds.Prelude.{String, not, Option, none, some, [], ◌∷◌, if◌then◌else◌}
use toomoki_cdac_pds.Prelude.Int.{ℤ, pos, leb_ℤ, ltb_ℤ}
use toomoki_cdac_pds.Prelude.Text.{is_blank, show_ℤ}
use Prim.Native.String.{◌++◌}
use toomoki_cdac_pds.StringMap.{has, set}
use toomoki_cdac_pds.SharedTypes.{
  Stakeholder, FpsAllocation, AllocationStatus, AlertType, EntityType, Value, awaiting_receipt,
}
use toomoki_cdac_pds.SharedTypes.Events.{Body}
use toomoki_cdac_pds.Ledger.State.{
  PdsLedger, already_exists, already_received, must_be_positive, exceeds_allocated,
  vehicle_required, insufficient_stock,
}
use toomoki_cdac_pds.Ledger.Exec.{Exec, pure, throw, gets, throw_if, modify, ◌>>=◌, ◌>>◌}
use toomoki_cdac_pds.Ledger.Checks.{
  must_get_allocation, assert_active_stakeholder, resolve_active_transporter,
}
use toomoki_cdac_pds.Ledger.Record.{
  timestamp_or, record_event, raise_audit_flag, stock_at, consume_stock, add_stock,
}
use toomoki_cdac_pds.Ledger.Receive.{shortage_of}

pub record AllocateInput : Type 0 where
  pub allocation_id : String
  pub fps_id : String
  pub commodity : String
  pub allocated_qty_kg : ℤ
  pub month : String
  pub source_godown_id : String
  pub transporter_id : String
  pub vehicle_no : String
  pub dispatch_timestamp : Option String

abbrev pub set_allocation : FpsAllocation → PdsLedger → PdsLedger
set_allocation a s = record s { allocations = set s.allocations a.allocation_id a }

abbrev pub allocation_of : AllocateInput → Stakeholder → String → FpsAllocation
allocation_of input transporter dispatch_timestamp = record {
  allocation_id = input.allocation_id;
  fps_id = input.fps_id;
  commodity = input.commodity;
  allocated_qty_kg = input.allocated_qty_kg;
  received_qty_kg = none;
  shortage_qty_kg = none;
  month = input.month;
  source_godown_id = input.source_godown_id;
  status = AllocationStatus.allocated;
  transporter_id = transporter.stakeholder_id;
  transporter_name = transporter.name;
  vehicle_no = input.vehicle_no;
  dispatch_timestamp = dispatch_timestamp;
  receive_timestamp = none;
  ledger_tx_id = none;
  provenance = none;
}

-- An allocation beyond the godown's stock raises a flag, which stays, and throws.
unfoldable pub check_godown_stock : AllocateInput → Exec (Unit {0})
check_godown_stock input = do
  available ← gets (stock_at input.source_godown_id input.commodity)
  if ltb_ℤ available input.allocated_qty_kg
      then (do
        raise_audit_flag AlertType.unauthorized_transaction input.allocation_id
            ("Allocation "
              ++ (input.allocation_id
                  ++ (" blocked: insufficient stock at " ++ input.source_godown_id)))
            (("allocationId", Value.text input.allocation_id)
              ∷ ("sourceGodownId", Value.text input.source_godown_id)
              ∷ ("commodity", Value.text input.commodity)
              ∷ ("requestedQtyKg", Value.number input.allocated_qty_kg)
              ∷ ("availableQtyKg", Value.number available)
              ∷ [])
        throw (insufficient_stock input.source_godown_id input.commodity))
      else pure tt

-- The tests of `allocateToFps`.
unfoldable pub check_allocation : AllocateInput → Exec Stakeholder
unfolding check_godown_stock
check_allocation input = do
  known ← gets (λ s. has s.allocations input.allocation_id)
  throw_if known (already_exists "Allocation" input.allocation_id)
  throw_if (leb_ℤ input.allocated_qty_kg (pos 0)) (must_be_positive "allocatedQtyKg")
  throw_if (is_blank input.vehicle_no) vehicle_required
  assert_active_stakeholder input.fps_id
  assert_active_stakeholder input.source_godown_id
  transporter ← resolve_active_transporter input.transporter_id
  check_godown_stock input
  pure transporter

-- The writes: the godown's stock, the allocation, the event, the allocation with its proof.
unfoldable pub commit_allocation : AllocateInput → Stakeholder → Exec FpsAllocation
commit_allocation input transporter = do
  consume_stock input.source_godown_id input.commodity input.allocated_qty_kg
  dispatch_timestamp ← timestamp_or input.dispatch_timestamp
  let allocation = allocation_of input transporter dispatch_timestamp
  modify (set_allocation allocation)
  ledger_tx_id ←
      record_event EntityType.allocation allocation.allocation_id (Body.allocate_to_fps allocation)
  let with_proof : FpsAllocation = record allocation { ledger_tx_id = some ledger_tx_id }
  modify (set_allocation with_proof)
  pure with_proof

unfoldable pub allocate_to_fps : AllocateInput → Exec FpsAllocation
unfolding check_allocation commit_allocation
allocate_to_fps input = do transporter ← check_allocation input; commit_allocation input transporter

pub record FpsReceiptInput : Type 0 where
  pub allocation_id : String
  pub received_qty_kg : ℤ
  pub receive_timestamp : Option String

-- A receipt beyond the allocation raises a flag, which stays, and throws.
unfoldable pub check_receipt_quantity : FpsAllocation → ℤ → Exec (Unit {0})
check_receipt_quantity allocation received =
    if ltb_ℤ allocation.allocated_qty_kg received
    then (do
      raise_audit_flag AlertType.unauthorized_transaction allocation.allocation_id
          ("FPS receipt blocked: received quantity exceeds allocation for "
            ++ allocation.allocation_id)
          (("allocationId", Value.text allocation.allocation_id)
            ∷ ("allocatedQtyKg", Value.number allocation.allocated_qty_kg)
            ∷ ("receivedQtyKg", Value.number received)
            ∷ [])
      throw (exceeds_allocated allocation.allocation_id))
    else pure tt

abbrev pub received_allocation : FpsAllocation → ℤ → ℤ → String → FpsAllocation
received_allocation allocation received shortage receive_timestamp = record allocation {
  received_qty_kg = some received;
  receive_timestamp = some receive_timestamp;
  shortage_qty_kg = if ltb_ℤ (pos 0) shortage then some shortage else allocation.shortage_qty_kg;
  status =
      if ltb_ℤ (pos 0) shortage
      then AllocationStatus.received_with_shortage
      else AllocationStatus.received;
}

unfoldable pub flag_short_fps_receipt : FpsAllocation → ℤ → ℤ → Exec (Unit {0})
flag_short_fps_receipt allocation received shortage =
    if ltb_ℤ (pos 0) shortage
    then (do
      raise_audit_flag AlertType.short_receipt allocation.allocation_id
          ("FPS received "
            ++ (show_ℤ received
                ++ ("kg against allocated " ++ (show_ℤ allocation.allocated_qty_kg ++ "kg"))))
          (("allocationId", Value.text allocation.allocation_id)
            ∷ ("fpsId", Value.text allocation.fps_id)
            ∷ ("sourceGodownId", Value.text allocation.source_godown_id)
            ∷ ("commodity", Value.text allocation.commodity)
            ∷ ("allocatedQtyKg", Value.number allocation.allocated_qty_kg)
            ∷ ("receivedQtyKg", Value.number received)
            ∷ ("shortageQtyKg", Value.number shortage)
            ∷ [])
      pure tt)
    else pure tt

-- The tests of `recordFpsReceipt`.
unfoldable pub check_fps_receipt : FpsReceiptInput → Exec FpsAllocation
unfolding must_get_allocation check_receipt_quantity
check_fps_receipt input = do
  allocation ← must_get_allocation input.allocation_id
  throw_if (not (awaiting_receipt allocation.status))
      (already_received "Allocation" allocation.allocation_id)
  throw_if (leb_ℤ input.received_qty_kg (pos 0)) (must_be_positive "receivedQtyKg")
  check_receipt_quantity allocation input.received_qty_kg
  pure allocation

-- The writes: the allocation, the shop's stock, the event and the flag.
unfoldable pub commit_fps_receipt : FpsReceiptInput → FpsAllocation → Exec FpsAllocation
unfolding flag_short_fps_receipt
commit_fps_receipt input allocation = do
  let shortage = shortage_of allocation.allocated_qty_kg input.received_qty_kg
  receive_timestamp ← timestamp_or input.receive_timestamp
  let updated = received_allocation allocation input.received_qty_kg shortage receive_timestamp
  modify (set_allocation updated)
  add_stock updated.fps_id updated.commodity input.received_qty_kg
  record_event EntityType.allocation updated.allocation_id (Body.record_fps_receipt updated)
  flag_short_fps_receipt updated input.received_qty_kg shortage
  pure updated

unfoldable pub record_fps_receipt : FpsReceiptInput → Exec FpsAllocation
unfolding check_fps_receipt commit_fps_receipt
record_fps_receipt input = do
  allocation ← check_fps_receipt input
  commit_fps_receipt input allocation
