-- ===== src/Ledger/Stock.antt =====
-- Stock positions that are not negative, and the writes that keep them so.
pub mod Movement
pub mod Calls
use toomoki_cdac_pds.Ledger.Exec.Gives.{Keeps-bind_found}
use toomoki_cdac_pds.Ledger.Session.{perform, Command}
use toomoki_cdac_pds.Prelude.{◌∙◌, List, refl, [], ◌∷◌}
use toomoki_cdac_pds.Ledger.Quiet.Registers.{
  register_stakeholder-Keeps, simulate_authentication-Keeps, create_or_update_entitlement-Keeps,
  issue_ration_card-Keeps, activate_ration_card-Keeps, suspend_ration_card-Keeps,
  transfer_ration_card-Keeps, file_grievance-Keeps, acknowledge_grievance-Keeps,
  resolve_grievance-Keeps, escalate_overdue_grievances-Keeps, propose_entitlement_rule-Keeps,
  approve_entitlement_rule-Keeps, resolve_audit_alert-Keeps, reconcile_alerts-Keeps,
}
use toomoki_cdac_pds.Ledger.Receive.{
  ReceiveInput, commit_receipt, close_root_lot, stamp_transfer, authorize_movement, receive_lot,
  AuthorizeInput,
}
use toomoki_cdac_pds.Ledger.Allocate.{
  FpsReceiptInput, commit_fps_receipt, AllocateInput, commit_allocation, allocate_to_fps,
  record_fps_receipt,
}
use toomoki_cdac_pds.Ledger.Distribute.{
  DistributionInput, commit_distribution, mutate_entitlement, record_distribution,
}
use toomoki_cdac_pds.Ledger.Rules.{
  entitlements_in, RolloverInput, rollover_unclaimed_quota, roll_all, roll_one,
}
use toomoki_cdac_pds.SharedTypes.Events.{Approval}
use toomoki_cdac_pds.Ledger.Distribute.{set_distribution}
use toomoki_cdac_pds.Ledger.Allocate.{set_allocation}
use toomoki_cdac_pds.SharedTypes.{
  MonthlyEntitlement, Stakeholder, DistributionTransaction, FpsAllocation, TransferOrder,
  CommodityLot,
}
use toomoki_cdac_pds.Prelude.{
  String, Option, ◌≡◌, refl, true, false, inl, inr, Bool-cases, Option-cases, arith,
}
use toomoki_cdac_pds.Prelude.Int.{ℤ, pos, ◌+ℤ◌, ◌-ℤ◌, leb_ℤ, ltb_ℤ, int_laws}
use toomoki_cdac_pds.StringMap.{values, get, set}
use toomoki_cdac_pds.StringMap.Keys.{AllValues, AllValues-get, AllValues-set}
use toomoki_cdac_pds.Ledger.State.{EntitlementCell, PdsLedger}
use toomoki_cdac_pds.Ledger.Exec.{◌>>=◌}
use toomoki_cdac_pds.Ledger.Exec.Keeps.{
  Keeps-rewrite, Keeps-throw_if, Keeps-bind, Keeps, keeps_rules, Keeps-modify,
}
use toomoki_cdac_pds.Ledger.Quiet.{IsQuiet, log_rules}
use toomoki_cdac_pds.Ledger.Quiet.Registers.{KeepsRegisters}
use toomoki_cdac_pds.Ledger.Checks.{key_for}
use toomoki_cdac_pds.Ledger.Record.{stock_at, consume_stock, add_stock}
use toomoki_cdac_pds.Ledger.Lots.{split_lot_for_partial_dispatch, set_lot, create_commodity_lot}
use toomoki_cdac_pds.Ledger.Quiet.Checks.{
  check_fps_receipt-positive, check_receipt-positive, check_distribution-Keeps,
  check_allocation-Keeps, lookup_rules, check_dispatch-Keeps,
}
use toomoki_cdac_pds.Ledger.Exec.{modify}
use toomoki_cdac_pds.Ledger.Dispatch.{
  set_transfer, DispatchInput, commit_dispatch, moving_lot, dispatch_lot,
}

abbrev pub NotNegative : ℤ → Type 0
NotNegative q = leb_ℤ (pos 0) q ≡ true

unfoldable pub IsStocked : PdsLedger → Type 0
IsStocked s = AllValues NotNegative s.stock

pub IsStocked-quiet : IsQuiet IsStocked
unfolding IsStocked
IsStocked-quiet = record { clock = λ t i s h. h; log = λ e s h. h; alert = λ a s h. h }

pub IsStocked-registers : KeepsRegisters IsStocked
unfolding IsStocked
IsStocked-registers = record {
  quiet = IsStocked-quiet;
  stakeholder = λ _ s h. h;
  authentication = λ _ s h. h;
  entitlement = λ _ s h. h;
  card = λ _ s h. h;
  grievance = λ _ s h. h;
  rule = λ _ s h. h;
}

pub sub_NotNegative : (a b : ℤ) → ltb_ℤ a b ≡ false → NotNegative (a -ℤ b)
sub_NotNegative a b h = grind int_laws

pub add_NotNegative : (a b : ℤ) → NotNegative a → NotNegative b → NotNegative (a +ℤ b)
add_NotNegative a b h k = grind int_laws

pub positive_NotNegative : (q : ℤ) → leb_ℤ q (pos 0) ≡ false → NotNegative q
positive_NotNegative q h = ground arith

pub stock_at-NotNegative :
    (id commodity : String) (s : PdsLedger) → IsStocked s → NotNegative (stock_at id commodity s)
unfolding IsStocked
stock_at-NotNegative id commodity s h = elim (Option-cases (get s.stock (key_for id commodity))) [
  | inl absent ↦ rw absent refl
  | inr (q, e) ↦ rw e (AllValues-get NotNegative s.stock (key_for id commodity) h e)
]

pub consume_stock-IsStocked :
    (id commodity : String) (qty : ℤ) → Keeps IsStocked (consume_stock id commodity qty)
unfolding consume_stock ◌>>=◌ IsStocked
consume_stock-IsStocked id commodity qty = record {
  after = λ s h. elim (Bool-cases (ltb_ℤ (stock_at id commodity s) qty)) [
    | inl short ↦ rw short h
    | inr enough ↦ rw enough (
        AllValues-set NotNegative s.stock (key_for id commodity) _ h
          (sub_NotNegative (stock_at id commodity s) qty enough))
  ];
}

pub add_stock-IsStocked :
    (id commodity : String) (qty : ℤ)
    → NotNegative qty
    → Keeps IsStocked (add_stock id commodity qty)
unfolding add_stock ◌>>=◌ IsStocked
add_stock-IsStocked id commodity qty q = record {
  after = λ s h.
      AllValues-set NotNegative s.stock (key_for id commodity) _ h
        (add_NotNegative (stock_at id commodity s) qty (stock_at-NotNegative id commodity s h) q);
}

pub set_lot-IsStocked : (x : CommodityLot) → Keeps IsStocked (modify (set_lot x))
unfolding IsStocked
set_lot-IsStocked x = Keeps-modify _ (λ s h. h)

pub place_lot-IsStocked :
    (id : String) (x : CommodityLot)
    → Keeps IsStocked (modify (λ s. record s { lots = set s.lots id x }))
unfolding IsStocked
place_lot-IsStocked id x = Keeps-modify _ (λ s h. h)

pub set_transfer-IsStocked : (x : TransferOrder) → Keeps IsStocked (modify (set_transfer x))
unfolding IsStocked
set_transfer-IsStocked x = Keeps-modify _ (λ s h. h)

pub set_allocation-IsStocked : (x : FpsAllocation) → Keeps IsStocked (modify (set_allocation x))
unfolding IsStocked
set_allocation-IsStocked x = Keeps-modify _ (λ s h. h)

pub set_distribution-IsStocked :
    (x : DistributionTransaction) → Keeps IsStocked (modify (set_distribution x))
unfolding IsStocked
set_distribution-IsStocked x = Keeps-modify _ (λ s h. h)
