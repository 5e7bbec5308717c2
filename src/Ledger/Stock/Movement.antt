-- ===== src/Ledger/Stock/Movement.antt =====
-- The movements of grain make no stock position negative.
use toomoki_cdac_pds.Ledger.Stock.{
  consume_stock-IsStocked, place_lot-IsStocked, add_stock-IsStocked, set_distribution-IsStocked,
  set_allocation-IsStocked, positive_NotNegative, set_transfer-IsStocked, set_lot-IsStocked,
  IsStocked-quiet, IsStocked, NotNegative,
}
use toomoki_cdac_pds.Ledger.Exec.Gives.{Keeps-bind_found}
use toomoki_cdac_pds.Prelude.{◌∙◌, List, refl, [], ◌∷◌}
use toomoki_cdac_pds.Ledger.Receive.{
  ReceiveInput, commit_receipt, close_root_lot, stamp_transfer, authorize_movement, receive_lot,
  AuthorizeInput,
}
use toomoki_cdac_pds.Ledger.Allocate.{
  FpsReceiptInput, commit_fps_receipt, AllocateInput, commit_allocation, allocate_to_fps,
  record_fps_receipt,
}
use toomoki_cdac_pds.Ledger.Distribute.{
  DistributionInput, commit_distribution, mutate_entitlement, record_distribution,
}
use toomoki_cdac_pds.Ledger.Rules.{
  entitlements_in, RolloverInput, rollover_unclaimed_quota, roll_all, roll_one,
}
use toomoki_cdac_pds.SharedTypes.Events.{Approval}
use toomoki_cdac_pds.SharedTypes.{
  MonthlyEntitlement, Stakeholder, DistributionTransaction, FpsAllocation, TransferOrder,
  CommodityLot,
}
use toomoki_cdac_pds.Prelude.{String, Option, ◌≡◌, refl, arith}
use toomoki_cdac_pds.Prelude.Int.{ℤ}
use toomoki_cdac_pds.StringMap.{values}
use toomoki_cdac_pds.Ledger.State.{EntitlementCell, PdsLedger}
use toomoki_cdac_pds.Ledger.Exec.Keeps.{
  Keeps-rewrite, Keeps-throw_if, Keeps-bind, Keeps, keeps_rules, Keeps-modify,
}
use toomoki_cdac_pds.Ledger.Quiet.{log_rules}
use toomoki_cdac_pds.Ledger.Lots.{split_lot_for_partial_dispatch, create_commodity_lot}
use toomoki_cdac_pds.Ledger.Quiet.Checks.{
  check_fps_receipt-positive, check_receipt-positive, check_distribution-Keeps,
  check_allocation-Keeps, lookup_rules, check_dispatch-Keeps,
}
use toomoki_cdac_pds.Ledger.Exec.{modify}
use toomoki_cdac_pds.Ledger.Dispatch.{DispatchInput, commit_dispatch, moving_lot, dispatch_lot}

pub create_commodity_lot-IsStocked :
    (x : CommodityLot) → NotNegative x.quantity_kg → Keeps IsStocked (create_commodity_lot x)
unfolding create_commodity_lot
create_commodity_lot-IsStocked x q =
    search (log_rules, lookup_rules, IsStocked-quiet, set_lot-IsStocked, add_stock-IsStocked) depth
      30

pub moving_lot-IsStocked :
    (lot : CommodityLot) (input : DispatchInput) → Keeps IsStocked (moving_lot lot input)
unfolding moving_lot split_lot_for_partial_dispatch
moving_lot-IsStocked lot input = search (log_rules, IsStocked-quiet, set_lot-IsStocked) depth 30

pub commit_dispatch-IsStocked :
    (input : DispatchInput) (lot : CommodityLot) (transporter : Stakeholder)
    (prior : Option Approval)
    → Keeps IsStocked (commit_dispatch input lot transporter prior)
unfolding commit_dispatch
commit_dispatch-IsStocked input lot transporter prior =
    search
      (
        log_rules, lookup_rules, IsStocked-quiet, set_transfer-IsStocked, place_lot-IsStocked,
        consume_stock-IsStocked, moving_lot-IsStocked,
      )
      depth 30

pub dispatch_lot-IsStocked : (input : DispatchInput) → Keeps IsStocked (dispatch_lot input)
unfolding dispatch_lot
dispatch_lot-IsStocked input =
    search (keeps_rules, IsStocked-quiet, check_dispatch-Keeps, commit_dispatch-IsStocked) depth 9

pub stamp_transfer-IsStocked :
    (id by at : String) (ro_ref : Option String)
    → Keeps IsStocked (modify (stamp_transfer id by at ro_ref))
unfolding IsStocked stamp_transfer
stamp_transfer-IsStocked id by at ro_ref = Keeps-modify _ (λ s h. ground arith)

pub close_root_lot-IsStocked :
    (lot : CommodityLot) (to_org : String) (shortage : ℤ)
    → Keeps IsStocked (modify (close_root_lot lot to_org shortage))
unfolding IsStocked close_root_lot
close_root_lot-IsStocked lot to_org shortage = Keeps-modify _ (λ s h. ground arith)

pub mutate-IsStocked :
    (key : String) (cell : EntitlementCell) (e : MonthlyEntitlement)
    → Keeps IsStocked (modify (mutate_entitlement key cell e))
unfolding IsStocked mutate_entitlement
mutate-IsStocked key cell e = Keeps-modify _ (λ s h. h)

pub roll_one-stock :
    (input : RolloverInput) (e : MonthlyEntitlement) (s : PdsLedger)
    → (roll_one input e s).0.stock ≡ s.stock
unfolding roll_one
roll_one-stock input e s = ground arith

pub authorize_movement-IsStocked :
    (input : AuthorizeInput) → Keeps IsStocked (authorize_movement input)
unfolding authorize_movement
authorize_movement-IsStocked input =
    search (log_rules, lookup_rules, IsStocked-quiet, stamp_transfer-IsStocked) depth 20

pub commit_receipt-IsStocked :
    (input : ReceiveInput) (t : TransferOrder) (lot : CommodityLot)
    → NotNegative input.received_qty_kg
    → Keeps IsStocked (commit_receipt input t lot)
unfolding commit_receipt
commit_receipt-IsStocked input t lot q =
    search
      (
        log_rules, IsStocked-quiet, set_lot-IsStocked, set_transfer-IsStocked,
        close_root_lot-IsStocked, add_stock-IsStocked,
      )
      depth 30

pub receive_lot-IsStocked : (input : ReceiveInput) → Keeps IsStocked (receive_lot input)
unfolding receive_lot
receive_lot-IsStocked input =
    Keeps-bind_found _ _ _ (check_receipt-positive IsStocked-quiet input) (λ found positive.
      commit_receipt-IsStocked input found.0 found.1
        (positive_NotNegative input.received_qty_kg positive))

pub commit_allocation-IsStocked :
    (input : AllocateInput) (transporter : Stakeholder)
    → Keeps IsStocked (commit_allocation input transporter)
unfolding commit_allocation
commit_allocation-IsStocked input transporter =
    search (log_rules, IsStocked-quiet, set_allocation-IsStocked, consume_stock-IsStocked) depth 30

pub allocate_to_fps-IsStocked : (input : AllocateInput) → Keeps IsStocked (allocate_to_fps input)
unfolding allocate_to_fps
allocate_to_fps-IsStocked input =
    search (keeps_rules, IsStocked-quiet, check_allocation-Keeps, commit_allocation-IsStocked) depth
      9

pub commit_fps_receipt-IsStocked :
    (input : FpsReceiptInput) (a : FpsAllocation)
    → NotNegative input.received_qty_kg
    → Keeps IsStocked (commit_fps_receipt input a)
unfolding commit_fps_receipt
commit_fps_receipt-IsStocked input a q =
    search (log_rules, IsStocked-quiet, set_allocation-IsStocked, add_stock-IsStocked) depth 30

pub record_fps_receipt-IsStocked :
    (input : FpsReceiptInput) → Keeps IsStocked (record_fps_receipt input)
unfolding record_fps_receipt
record_fps_receipt-IsStocked input =
    Keeps-bind_found _ _ _ (check_fps_receipt-positive IsStocked-quiet input) (λ a positive.
      commit_fps_receipt-IsStocked input a (positive_NotNegative input.received_qty_kg positive))

pub commit_distribution-IsStocked :
    (d : DistributionTransaction) (key : String) (cell : EntitlementCell)
    → Keeps IsStocked (commit_distribution d key cell)
unfolding commit_distribution
commit_distribution-IsStocked d key cell =
    search
      (
        log_rules, IsStocked-quiet, set_distribution-IsStocked, mutate-IsStocked,
        consume_stock-IsStocked,
      )
      depth 30

pub record_distribution-IsStocked :
    (input : DistributionInput) → Keeps IsStocked (record_distribution input)
unfolding record_distribution
record_distribution-IsStocked input =
    search (keeps_rules, IsStocked-quiet, check_distribution-Keeps, commit_distribution-IsStocked)
      depth 9

pub roll_all-stock :
    (input : RolloverInput) (es : List MonthlyEntitlement) (s : PdsLedger)
    → (roll_all input es s).0.stock ≡ s.stock
unfolding roll_all
roll_all-stock input [] s = refl
roll_all-stock input (e ∷ es) s = roll_all-stock input es _ ∙ roll_one-stock input e s

pub roll_all-IsStocked :
    (input : RolloverInput) (es : List MonthlyEntitlement) (s : PdsLedger)
    → IsStocked s
    → IsStocked (roll_all input es s).0
unfolding IsStocked
roll_all-IsStocked input es s h = rw (roll_all-stock input es s) h

pub rollover_unclaimed_quota-IsStocked :
    (input : RolloverInput) → Keeps IsStocked (rollover_unclaimed_quota input)
unfolding rollover_unclaimed_quota
rollover_unclaimed_quota-IsStocked input = Keeps-bind _ _ (Keeps-throw_if _ _) (λ _.
    Keeps-rewrite (λ s. (roll_all input (entitlements_in (values s.entitlements)) s).0) _
      (λ s h. roll_all-IsStocked input (entitlements_in (values s.entitlements)) s h)
      (λ s _. search (log_rules, IsStocked-quiet)))
