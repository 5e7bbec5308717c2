-- ===== src/Ledger/Balance/FpsReceipt.antt =====
-- `recordFpsReceipt` moves the quantity that arrives from the road into the shop's stock.
use toomoki_cdac_pds.Ledger.Receive.{shortage_of}
use toomoki_cdac_pds.Ledger.Record.{timestamp_or}
use toomoki_cdac_pds.StringMap.Keys.{get-own, KeyedBy}
use toomoki_cdac_pds.Ledger.Balance.Moves.{
  quiet_finish, accounted-set_allocation_old, add_stock-then, accounted-added, arrival_settles,
  accounted-SameQuantities, added,
}
use toomoki_cdac_pds.Ledger.Checks.{must_get_allocation}
use toomoki_cdac_pds.Prelude.{String, ◌≡◌, some, true, arith}
use toomoki_cdac_pds.Prelude.Int.{ℤ, ◌-ℤ◌}
use toomoki_cdac_pds.StringMap.{get}
use toomoki_cdac_pds.SharedTypes.{awaiting_receipt, FpsAllocation}
use toomoki_cdac_pds.Ledger.State.{PdsLedger}
use toomoki_cdac_pds.Ledger.Exec.{◌>>=◌}
use toomoki_cdac_pds.Ledger.Exec.Keeps.{Keeps-throw_if, Keeps, keeps_rules}
use toomoki_cdac_pds.Ledger.Exec.Runs.{modify-then, Runs-then}
use toomoki_cdac_pds.Ledger.Exec.Gives.{
  Gives-pure, Gives-any, Checked-then, Gives-throw_if, Gives-bind, Gives,
}
use toomoki_cdac_pds.Ledger.Allocate.{
  set_allocation, received_allocation, record_fps_receipt, commit_fps_receipt,
  flag_short_fps_receipt, FpsReceiptInput, check_fps_receipt, check_receipt_quantity,
}
use toomoki_cdac_pds.Ledger.Balance.Quantities.{
  Runs-timestamp_or, allocation_weight, Keeps-raise_audit_flag, SameQuantities-refl, accounted,
  SameQuantities, quiet_rules,
}

-- What the tests of a receipt have found in the ledger.
pub record FpsReceiptFound (input : FpsReceiptInput) (a : PdsLedger) (t : FpsAllocation)
    : Type 0 where
  pub known : get a.allocations input.allocation_id ≡ some t
  pub on_the_road : awaiting_receipt t.status ≡ true

module _ {a : PdsLedger} where
  Gives-must_get_allocation :
      (id : String)
      → Gives (SameQuantities a) (λ t. get a.allocations id ≡ some t) (must_get_allocation id)
  unfolding must_get_allocation ◌>>=◌
  Gives-must_get_allocation id = record { at = λ s h. rw h.allocations (ground arith) }

  Keeps-check_receipt_quantity :
      (t : FpsAllocation) (received : ℤ)
      → Keeps (SameQuantities a) (check_receipt_quantity t received)
  unfolding check_receipt_quantity
  Keeps-check_receipt_quantity t received = search (keeps_rules, Keeps-raise_audit_flag)

  Keeps-flag_short_fps_receipt :
      (t : FpsAllocation) (received shortage : ℤ)
      → Keeps (SameQuantities a) (flag_short_fps_receipt t received shortage)
  unfolding flag_short_fps_receipt
  Keeps-flag_short_fps_receipt t received shortage = search (keeps_rules, Keeps-raise_audit_flag)

  check_fps_receipt_found :
      (input : FpsReceiptInput)
      → Gives (SameQuantities a) (FpsReceiptFound input a) (check_fps_receipt input)
  unfolding check_fps_receipt
  check_fps_receipt_found input =
      let Q = FpsReceiptFound input a in
      Gives-bind Q _ _ (Gives-must_get_allocation input.allocation_id) (λ t known.
        Gives-bind Q _ _ (Gives-throw_if _ _) (λ _ road.
          Gives-bind Q _ _ (Gives-any _ (Keeps-throw_if _ _)) (λ _ _.
            Gives-bind Q _ _ (Gives-any _ (Keeps-check_receipt_quantity t input.received_qty_kg))
              (λ _ _. Gives-pure Q t (record { known = known; on_the_road = ground arith })))))

weight-awaiting :
    (t : FpsAllocation)
    → awaiting_receipt t.status ≡ true
    → allocation_weight t ≡ t.allocated_qty_kg
weight-awaiting t h = ground arith

weight-received_allocation :
    (t : FpsAllocation) (received shortage : ℤ) (at : String)
    → allocation_weight (received_allocation t received shortage at)
      ≡ t.allocated_qty_kg -ℤ received
weight-received_allocation t received shortage at = ground arith

module _ (input : FpsReceiptInput) (t : FpsAllocation) (a : PdsLedger) where
  fps_written-conserves :
      (at : String) (s : PdsLedger)
      → get a.allocations t.allocation_id ≡ some t
      → awaiting_receipt t.status ≡ true
      → SameQuantities a s
      → accounted (
          added t.fps_id t.commodity input.received_qty_kg (
            set_allocation
              (received_allocation t input.received_qty_kg
                (shortage_of t.allocated_qty_kg input.received_qty_kg)
                at)
              s))
        ≡ accounted a
  fps_written-conserves at s known road h =
      let shortage = shortage_of t.allocated_qty_kg input.received_qty_kg in
      let updated = received_allocation t input.received_qty_kg shortage at in
      arrival_settles _ _ _ _ _ _ _ _
        (accounted-added t.fps_id t.commodity input.received_qty_kg (set_allocation updated s))
        (accounted-set_allocation_old updated s {old = t} (rw (h.allocations) known))
        (weight-awaiting t road) (weight-received_allocation t input.received_qty_kg shortage at)
        (accounted-SameQuantities h)

  commit_fps_receipt-conserves :
      get a.allocations t.allocation_id ≡ some t
      → awaiting_receipt t.status ≡ true
      → (s : PdsLedger) → SameQuantities a s
      → accounted (commit_fps_receipt input t s).1 ≡ accounted a
  unfolding commit_fps_receipt
  commit_fps_receipt-conserves known road s h =
      let Conserved : PdsLedger → Type 0 = λ s. accounted s ≡ accounted a in
      Runs-then (SameQuantities a) Conserved (timestamp_or input.receive_timestamp) _
        (Runs-timestamp_or input.receive_timestamp)
        (λ at s₁ h₁. modify-then Conserved _ _ s₁ (
          add_stock-then Conserved t.fps_id t.commodity input.received_qty_kg _ _ (
            quiet_finish _ _ _ (search (quiet_rules, Keeps-flag_short_fps_receipt) depth 9)
              (fps_written-conserves at s₁ known road h₁))))
        s h

-- A receipt at a shop, whether it succeeds or throws, neither makes nor loses grain, in a ledger
-- whose allocations stand under their own ids.
pub record_fps_receipt-conserves :
    (input : FpsReceiptInput) (s : PdsLedger)
    → KeyedBy (λ t. t.allocation_id) s.allocations
    → accounted (record_fps_receipt input s).1 ≡ accounted s
unfolding record_fps_receipt
record_fps_receipt-conserves input s keyed =
    Checked-then (FpsReceiptFound input s) (SameQuantities s) (λ s'. accounted s' ≡ accounted s)
      (check_fps_receipt input) _ s ((check_fps_receipt_found input).at s (SameQuantities-refl s))
      (λ s' h. accounted-SameQuantities h)
      (λ t s' found h.
        commit_fps_receipt-conserves input t s
          (get-own (λ t. t.allocation_id) s.allocations input.allocation_id keyed found.known)
          found.on_the_road s' h)
