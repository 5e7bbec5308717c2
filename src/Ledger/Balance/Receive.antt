-- ===== src/Ledger/Balance/Receive.antt =====
-- `receiveLot` moves the quantity that arrives from the road into the receiver's stock.
use toomoki_cdac_pds.Ledger.Record.{timestamp_or}
use toomoki_cdac_pds.Ledger.Dispatch.{set_transfer}
use toomoki_cdac_pds.Ledger.Balance.Moves.{
  arrival_settles, Keeps-set_lot, accounted-SameQuantities, quiet_finish,
  accounted-set_transfer_old, add_stock-then, accounted-added, added,
}
use toomoki_cdac_pds.StringMap.Keys.{get-own, KeyedBy}
use toomoki_cdac_pds.Ledger.Balance.Quantities.{
  SameQuantities-refl, quiet_rules, Runs-timestamp_or, Keeps-raise_audit_flag, accounted,
  SameQuantities, transfer_weight,
}
use mathlib.Core.Path.{sym, subst}
use toomoki_cdac_pds.Prelude.{ap, String, ◌≡◌, some, true, false, arith}
use toomoki_cdac_pds.Prelude.Int.{◌-ℤ◌, ℤ, ltb_ℤ, leb_ℤ, pos}
use toomoki_cdac_pds.SharedTypes.{in_transit, TransferOrder, CommodityLot}
use toomoki_cdac_pds.StringMap.{get}
use toomoki_cdac_pds.Ledger.State.{PdsLedger}
use toomoki_cdac_pds.Ledger.Exec.{modify, ◌>>=◌}
use toomoki_cdac_pds.Ledger.Exec.Keeps.{Keeps-modify, keeps_rules, Keeps}
use toomoki_cdac_pds.Ledger.Exec.Runs.{modify-then, Runs-then}
use toomoki_cdac_pds.Ledger.Exec.Gives.{Checked-then, Checked}
use toomoki_cdac_pds.Ledger.Receive.{
  shortage_of, received_transfer, receive_lot, commit_receipt, flag_short_receipt, close_root_lot,
  ReceiveInput, check_receipt,
}

-- What the tests of a receipt have found in the ledger.
pub record ReceiptFound (input : ReceiveInput) (a : PdsLedger) (t : TransferOrder) : Type 0 where
  pub known : get a.transfers input.transfer_id ≡ some t
  pub on_the_road : in_transit t.status ≡ true
  pub positive : leb_ℤ input.received_qty_kg (pos 0) ≡ false
  pub fits : ltb_ℤ t.dispatched_qty_kg input.received_qty_kg ≡ false

check_receipt_found :
    (input : ReceiveInput) (a : PdsLedger)
    → Checked
        (λ (found : TransferOrder × CommodityLot). ReceiptFound input a found.0)
        (λ s. s ≡ a)
        (check_receipt input a)
unfolding check_receipt ◌>>=◌
check_receipt_found input a = ground arith

module _ {a : PdsLedger} where
  Keeps-close_root_lot :
      (lot : CommodityLot) (to_org : String) (shortage : ℤ)
      → Keeps (SameQuantities a) (modify (close_root_lot lot to_org shortage))
  unfolding close_root_lot
  Keeps-close_root_lot lot to_org shortage =
      Keeps-modify (close_root_lot lot to_org shortage) (λ s h. ground arith)

  Keeps-flag_short_receipt :
      (t : TransferOrder) (received shortage : ℤ)
      → Keeps (SameQuantities a) (flag_short_receipt t received shortage)
  unfolding flag_short_receipt
  Keeps-flag_short_receipt t received shortage = search (keeps_rules, Keeps-raise_audit_flag)

weight-in_transit :
    (t : TransferOrder) → in_transit t.status ≡ true → transfer_weight t ≡ t.dispatched_qty_kg
weight-in_transit t h = ground arith

weight-received_transfer :
    (t : TransferOrder) (received shortage : ℤ) (at : String)
    → transfer_weight (received_transfer t received shortage at) ≡ t.dispatched_qty_kg -ℤ received
weight-received_transfer t received shortage at = ground arith

module _ (input : ReceiveInput) (t : TransferOrder) (lot : CommodityLot) (a : PdsLedger) where
  -- What stands in the ledger after the transfer and the stock were written.
  written-conserves :
      (at : String) (s : PdsLedger)
      → get a.transfers t.transfer_id ≡ some t
      → in_transit t.status ≡ true
      → SameQuantities a s
      → accounted (
          added t.to_org lot.commodity input.received_qty_kg (
            set_transfer
              (received_transfer t input.received_qty_kg
                (shortage_of t.dispatched_qty_kg input.received_qty_kg)
                at)
              s))
        ≡ accounted a
  written-conserves at s known road h =
      let shortage = shortage_of t.dispatched_qty_kg input.received_qty_kg in
      let updated = received_transfer t input.received_qty_kg shortage at in
      arrival_settles _ _ _ _ _ _ _ _
        (accounted-added t.to_org lot.commodity input.received_qty_kg (set_transfer updated s))
        (accounted-set_transfer_old updated s {old = t} (rw (h.transfers) known))
        (weight-in_transit t road) (weight-received_transfer t input.received_qty_kg shortage at)
        (accounted-SameQuantities h)

  commit_receipt-conserves :
      get a.transfers t.transfer_id ≡ some t
      → in_transit t.status ≡ true
      → accounted (commit_receipt input t lot a).1 ≡ accounted a
  unfolding commit_receipt
  commit_receipt-conserves known road =
      let Conserved : PdsLedger → Type 0 = λ s. accounted s ≡ accounted a in
      Runs-then (SameQuantities a) Conserved (timestamp_or input.receive_timestamp) _
        (Runs-timestamp_or input.receive_timestamp)
        (λ at s h. modify-then Conserved _ _ s (
          add_stock-then Conserved t.to_org lot.commodity input.received_qty_kg _ _ (
            quiet_finish _ _ _
              (search (quiet_rules, Keeps-set_lot, Keeps-close_root_lot, Keeps-flag_short_receipt)
                depth 9)
              (written-conserves at s known road h))))
        a (SameQuantities-refl a)

-- A receipt, whether it succeeds or throws, neither makes nor loses grain, in a ledger whose
-- transfers stand under their own ids: what arrives is stock, and what does not is lost on the
-- road.
pub receive_lot-conserves :
    (input : ReceiveInput) (s : PdsLedger)
    → KeyedBy (λ t. t.transfer_id) s.transfers
    → accounted (receive_lot input s).1 ≡ accounted s
unfolding receive_lot
receive_lot-conserves input s keyed =
    Checked-then (λ found. ReceiptFound input s found.0) (λ s'. s' ≡ s)
      (λ s'. accounted s' ≡ accounted s) (check_receipt input) _ s (check_receipt_found input s)
      (λ s' same. ap accounted same)
      (λ (t, lot) s' found same.
        subst (λ z. accounted (commit_receipt input t lot z).1 ≡ accounted s) (sym same)
          (commit_receipt-conserves input t lot s
            (get-own (λ t. t.transfer_id) s.transfers input.transfer_id keyed found.known)
            found.on_the_road))
