-- ===== src/Ledger/Quiet/Checks.antt =====
-- The tests that stand before the writes of a method change only the clock, the log and the
-- alerts.
use toomoki_cdac_pds.Prelude.{◌≡◌, false}
use toomoki_cdac_pds.Prelude.Int.{leb_ℤ, pos}
use toomoki_cdac_pds.Ledger.Exec.Gives.{Gives, Gives-skip, Gives-bind, Gives-pure, Gives-throw_if}
use toomoki_cdac_pds.Ledger.Exec.Keeps.{Keeps-throw_if}
use toomoki_cdac_pds.SharedTypes.{TransferOrder, FpsAllocation}
use toomoki_cdac_pds.Prelude.{String, Option}
use toomoki_cdac_pds.SharedTypes.{
  FpsAllocation, CommodityLot, MonthlyEntitlement, DistributionTransaction,
}
use toomoki_cdac_pds.SharedTypes.Events.{Approval}
use toomoki_cdac_pds.Prelude.Int.{ℤ}
use toomoki_cdac_pds.Ledger.State.{PdsLedger}
use toomoki_cdac_pds.Ledger.Exec.Keeps.{Keeps, keeps_rules}
use toomoki_cdac_pds.Ledger.Quiet.{IsQuiet, log_rules}
use toomoki_cdac_pds.Ledger.Checks.{
  must_get_lot, must_get_transfer, must_get_allocation, must_get_entitlement, must_get_ration_card,
  must_get_grievance, must_get_entitlement_rule, assert_active_stakeholder,
  resolve_active_transporter,
}
use toomoki_cdac_pds.Ledger.Dispatch.{DispatchInput, choose_lot, check_stage_ii, check_dispatch}
use toomoki_cdac_pds.Ledger.Receive.{ReceiveInput, check_receipt}
use toomoki_cdac_pds.Ledger.Allocate.{
  AllocateInput, check_godown_stock, check_allocation, FpsReceiptInput, check_receipt_quantity,
  check_fps_receipt,
}
use toomoki_cdac_pds.Ledger.Distribute.{
  DistributionInput, validate_entitlement, check_claim, check_distribution,
}

module _ {P : PdsLedger → Type 0} (quiet : IsQuiet P) where
  pub must_get_lot-Keeps : (id : String) → Keeps P (must_get_lot id)
  unfolding must_get_lot
  must_get_lot-Keeps id = search keeps_rules

  pub assert_active_stakeholder-Keeps : (id : String) → Keeps P (assert_active_stakeholder id)
  unfolding assert_active_stakeholder
  assert_active_stakeholder-Keeps id = search keeps_rules

  pub resolve_active_transporter-Keeps : (id : String) → Keeps P (resolve_active_transporter id)
  unfolding resolve_active_transporter
  resolve_active_transporter-Keeps id =
      search (keeps_rules, assert_active_stakeholder-Keeps) depth 12

  choose_lot-Keeps : (input : DispatchInput) (lot : CommodityLot) → Keeps P (choose_lot input lot)
  unfolding choose_lot
  choose_lot-Keeps input lot = search keeps_rules

  pub check_stage_ii-Keeps :
      (input : DispatchInput) (lot : CommodityLot) (prior : Option Approval)
      → Keeps P (check_stage_ii input lot prior)
  unfolding check_stage_ii
  check_stage_ii-Keeps input lot prior = search log_rules depth 9

  pub check_dispatch-Keeps : (input : DispatchInput) → Keeps P (check_dispatch input)
  unfolding check_dispatch
  check_dispatch-Keeps input =
      search
        (
          log_rules, must_get_lot-Keeps, assert_active_stakeholder-Keeps,
          resolve_active_transporter-Keeps, choose_lot-Keeps, check_stage_ii-Keeps,
        )
        depth 45

  pub must_get_transfer-Keeps : (id : String) → Keeps P (must_get_transfer id)
  unfolding must_get_transfer
  must_get_transfer-Keeps id = search keeps_rules

  pub must_get_allocation-Keeps : (id : String) → Keeps P (must_get_allocation id)
  unfolding must_get_allocation
  must_get_allocation-Keeps id = search keeps_rules

  pub must_get_entitlement-Keeps :
      (hash commodity month : String) → Keeps P (must_get_entitlement hash commodity month)
  unfolding must_get_entitlement
  must_get_entitlement-Keeps hash commodity month = search keeps_rules

  pub must_get_ration_card-Keeps : (id : String) → Keeps P (must_get_ration_card id)
  unfolding must_get_ration_card
  must_get_ration_card-Keeps id = search keeps_rules

  pub must_get_grievance-Keeps : (id : String) → Keeps P (must_get_grievance id)
  unfolding must_get_grievance
  must_get_grievance-Keeps id = search keeps_rules

  pub must_get_entitlement_rule-Keeps : (id : String) → Keeps P (must_get_entitlement_rule id)
  unfolding must_get_entitlement_rule
  must_get_entitlement_rule-Keeps id = search keeps_rules

  pub check_receipt-Keeps : (input : ReceiveInput) → Keeps P (check_receipt input)
  unfolding check_receipt
  check_receipt-Keeps input =
      search (log_rules, must_get_lot-Keeps, must_get_transfer-Keeps) depth 30

  check_godown_stock-Keeps : (input : AllocateInput) → Keeps P (check_godown_stock input)
  unfolding check_godown_stock
  check_godown_stock-Keeps input = search log_rules depth 12

  pub check_allocation-Keeps : (input : AllocateInput) → Keeps P (check_allocation input)
  unfolding check_allocation
  check_allocation-Keeps input =
      search
        (
          log_rules, assert_active_stakeholder-Keeps, resolve_active_transporter-Keeps,
          check_godown_stock-Keeps,
        )
        depth 40

  check_receipt_quantity-Keeps :
      (allocation : FpsAllocation) (received : ℤ)
      → Keeps P (check_receipt_quantity allocation received)
  unfolding check_receipt_quantity
  check_receipt_quantity-Keeps allocation received = search log_rules depth 12

  pub check_fps_receipt-Keeps : (input : FpsReceiptInput) → Keeps P (check_fps_receipt input)
  unfolding check_fps_receipt
  check_fps_receipt-Keeps input =
      search (log_rules, must_get_allocation-Keeps, check_receipt_quantity-Keeps) depth 30

  pub validate_entitlement-Keeps :
      (hash commodity month : String) (qty : ℤ)
      → Keeps P (validate_entitlement hash commodity month qty)
  unfolding validate_entitlement
  validate_entitlement-Keeps hash commodity month qty =
      search (keeps_rules, must_get_entitlement-Keeps) depth 12

  pub check_claim-Keeps :
      (d : DistributionTransaction) (month : String) (e : MonthlyEntitlement)
      → Keeps P (check_claim d month e)
  unfolding check_claim
  check_claim-Keeps d month e = search log_rules depth 12

  pub check_distribution-Keeps : (input : DistributionInput) → Keeps P (check_distribution input)
  unfolding check_distribution
  check_distribution-Keeps input =
      search (log_rules, must_get_entitlement-Keeps, check_claim-Keeps, validate_entitlement-Keeps)
        depth 45

pub ruleset lookup_rules = (
  must_get_lot-Keeps, must_get_transfer-Keeps, must_get_allocation-Keeps,
  must_get_entitlement-Keeps, must_get_ration_card-Keeps, must_get_grievance-Keeps,
  must_get_entitlement_rule-Keeps, assert_active_stakeholder-Keeps,
  resolve_active_transporter-Keeps,
)

-- What comes in is positive when the tests of a receipt pass.
module _ {P : PdsLedger → Type 0} (quiet : IsQuiet P) where
  pub check_receipt-positive :
      (input : ReceiveInput)
      → Gives P (λ _. leb_ℤ input.received_qty_kg (pos 0) ≡ false) (check_receipt input)
  unfolding check_receipt
  check_receipt-positive input =
      let Q : TransferOrder × CommodityLot → Type 0 =
        λ _. leb_ℤ input.received_qty_kg (pos 0) ≡ false in
      Gives-skip Q _ _ (must_get_transfer-Keeps quiet _) (λ _.
        Gives-skip Q _ _ (must_get_lot-Keeps quiet _) (λ _.
          Gives-skip Q _ _ (Keeps-throw_if _ _) (λ _.
            Gives-bind Q _ _ (Gives-throw_if _ _) (λ _ positive.
              Gives-skip Q _ _ (Keeps-throw_if _ _) (λ _. Gives-pure Q _ positive)))))

  pub check_fps_receipt-positive :
      (input : FpsReceiptInput)
      → Gives P (λ _. leb_ℤ input.received_qty_kg (pos 0) ≡ false) (check_fps_receipt input)
  unfolding check_fps_receipt
  check_fps_receipt-positive input =
      let Q : FpsAllocation → Type 0 = λ _. leb_ℤ input.received_qty_kg (pos 0) ≡ false in
      Gives-skip Q _ _ (must_get_allocation-Keeps quiet _) (λ a.
        Gives-skip Q _ _ (Keeps-throw_if _ _) (λ _.
          Gives-bind Q _ _ (Gives-throw_if _ _) (λ _ positive.
            Gives-skip Q _ _ (check_receipt_quantity-Keeps quiet a input.received_qty_kg)
              (λ _. Gives-pure Q _ positive))))
