-- ===== src/Ledger/Balance/Moves.antt =====
-- What the stock movements and the writes of transfers do to the accounted quantity.
use toomoki_cdac_pds.Ledger.Distribute.{set_distribution}
use toomoki_cdac_pds.Ledger.Lots.{set_lot}
use toomoki_cdac_pds.Ledger.Allocate.{set_allocation}
use toomoki_cdac_pds.Ledger.Dispatch.{set_transfer}
use toomoki_cdac_pds.SharedTypes.{
  DistributionTransaction, CommodityLot, FpsAllocation, TransferOrder,
}
use toomoki_cdac_pds.Ledger.Exec.Keeps.{Keeps-modify, keeps_rules, Keeps}
use toomoki_cdac_pds.Ledger.Exec.Runs.{Runs-modify, Runs}
use toomoki_cdac_pds.Prelude.{arith, some, none, ◌∙◌, String, ◌≡◌, Bool-cases, inl, inr}
use toomoki_cdac_pds.Prelude.Int.{ℤ, ◌+ℤ◌, ◌-ℤ◌, ltb_ℤ, int_laws}
use toomoki_cdac_pds.StringMap.{get, set}
use toomoki_cdac_pds.StringMap.Sums.{sum_by-set_old, sum_by-set_new, sum_by-add, sum_by-take}
use toomoki_cdac_pds.Ledger.State.{PdsLedger}
use toomoki_cdac_pds.Ledger.Exec.{pure, modify, Exec, ◌>>=◌}
use toomoki_cdac_pds.Ledger.Checks.{must_get_lot, key_for}
use toomoki_cdac_pds.Ledger.Record.{stock_at, consume_stock, add_stock}
use toomoki_cdac_pds.Ledger.Balance.Quantities.{
  delivered, allocation_weight, transfer_weight, SameQuantities-refl, accounted, SameQuantities,
}

abbrev pub taken : String → String → ℤ → PdsLedger → PdsLedger
taken id commodity qty s = record s {
  stock = set s.stock (key_for id commodity) (stock_at id commodity s -ℤ qty);
}

abbrev pub added : String → String → ℤ → PdsLedger → PdsLedger
added id commodity qty s = record s {
  stock = set s.stock (key_for id commodity) (stock_at id commodity s +ℤ qty);
}

module _ {B : Type 0} (G : PdsLedger → Type 0) (id commodity : String) (qty : ℤ) where
  -- A withdrawal throws and changes nothing, or takes the quantity.
  pub consume_stock-then :
      (f : Unit {0} → Exec B) (s : PdsLedger)
      → G s
      → G (f tt (taken id commodity qty s)).1
      → G ((consume_stock id commodity qty >>= f) s).1
  unfolding consume_stock ◌>>=◌
  consume_stock-then f s stop go = elim (Bool-cases (ltb_ℤ (stock_at id commodity s) qty)) [
    | inl short ↦ rw short stop
    | inr enough ↦ rw enough go
  ]

  pub add_stock-then :
      (f : Unit {0} → Exec B) (s : PdsLedger)
      → G (f tt (added id commodity qty s)).1
      → G ((add_stock id commodity qty >>= f) s).1
  unfolding add_stock ◌>>=◌
  add_stock-then f s go = go

pub accounted-SameQuantities : {a s : PdsLedger} → SameQuantities a s → accounted s ≡ accounted a
accounted-SameQuantities h = cc

pub accounted-taken :
    (id commodity : String) (qty : ℤ) (s : PdsLedger)
    → accounted (taken id commodity qty s) +ℤ qty ≡ accounted s
accounted-taken id commodity qty s =
    rw (sum_by-take s.stock (key_for id commodity) qty) (omega int_laws)

pub accounted-added :
    (id commodity : String) (qty : ℤ) (s : PdsLedger)
    → accounted (added id commodity qty s) ≡ accounted s +ℤ qty
accounted-added id commodity qty s =
    rw (sum_by-add s.stock (key_for id commodity) qty) (omega int_laws)

-- The rest of a block that touches no quantity.
pub quiet_finish :
    {A B : Type 0} (m : Exec A) (f : A → Exec B) (c : PdsLedger) {x : ℤ}
    → Keeps (SameQuantities c) (m >>= f)
    → accounted c ≡ x
    → accounted ((m >>= f) c).1 ≡ x
quiet_finish m f c k e = accounted-SameQuantities (k.after c (SameQuantities-refl c)) ∙ e

-- What the transfer that is written weighs.
pub accounted-set_transfer_new :
    (t : TransferOrder) (s : PdsLedger)
    → get s.transfers t.transfer_id ≡ none
    → accounted (set_transfer t s) ≡ accounted s +ℤ transfer_weight t
accounted-set_transfer_new t s fresh =
    rw (sum_by-set_new transfer_weight s.transfers t.transfer_id t fresh) (omega int_laws)

pub accounted-set_transfer_old :
    (t : TransferOrder) (s : PdsLedger) {old : TransferOrder}
    → get s.transfers t.transfer_id ≡ some old
    → accounted (set_transfer t s) +ℤ transfer_weight old ≡ accounted s +ℤ transfer_weight t
accounted-set_transfer_old t s e =
    grind (int_laws, sum_by-set_old transfer_weight s.transfers t.transfer_id t e)

pub accounted-set_allocation_new :
    (t : FpsAllocation) (s : PdsLedger)
    → get s.allocations t.allocation_id ≡ none
    → accounted (set_allocation t s) ≡ accounted s +ℤ allocation_weight t
accounted-set_allocation_new t s fresh =
    rw (sum_by-set_new allocation_weight s.allocations t.allocation_id t fresh) (omega int_laws)

pub accounted-set_allocation_old :
    (t : FpsAllocation) (s : PdsLedger) {old : FpsAllocation}
    → get s.allocations t.allocation_id ≡ some old
    → accounted (set_allocation t s) +ℤ allocation_weight old ≡ accounted s +ℤ allocation_weight t
accounted-set_allocation_old t s e =
    grind (int_laws, sum_by-set_old allocation_weight s.allocations t.allocation_id t e)

module _ {a : PdsLedger} where
  pub Keeps-must_get_lot : (id : String) → Keeps (SameQuantities a) (must_get_lot id)
  unfolding must_get_lot
  Keeps-must_get_lot id = search keeps_rules

  pub Runs-set_lot : (lot : CommodityLot) → Runs (SameQuantities a) (modify (set_lot lot))
  Runs-set_lot lot = Runs-modify (set_lot lot) (λ s h. ground arith)

  pub Keeps-set_lot : (lot : CommodityLot) → Keeps (SameQuantities a) (modify (set_lot lot))
  Keeps-set_lot lot = Keeps-modify (set_lot lot) (λ s h. ground arith)

-- What arrives leaves the road: `w` and `w'` are the weights before and after.
pub arrival_settles :
    (after written before start w w' sent arrived : ℤ)
    → after ≡ written +ℤ arrived
    → written +ℤ w ≡ before +ℤ w'
    → w ≡ sent
    → w' ≡ sent -ℤ arrived
    → before ≡ start
    → after ≡ start
arrival_settles after written before start w w' sent arrived p q r t u = grind int_laws

pub pure_finish :
    {A : Type 0} (x : A) (c : PdsLedger) {q : ℤ} → accounted c ≡ q → accounted (pure x c).1 ≡ q
unfolding ◌>>=◌
pure_finish x c e = e

pub accounted-set_distribution_new :
    (d : DistributionTransaction) (s : PdsLedger)
    → get s.distributions d.distribution_id ≡ none
    → accounted (set_distribution d s) ≡ accounted s +ℤ d.delivered_kg
accounted-set_distribution_new d s fresh =
    rw (sum_by-set_new delivered s.distributions d.distribution_id d fresh) (omega int_laws)

pub accounted-set_distribution_old :
    (d : DistributionTransaction) (s : PdsLedger) {old : DistributionTransaction}
    → get s.distributions d.distribution_id ≡ some old
    → accounted (set_distribution d s) +ℤ old.delivered_kg ≡ accounted s +ℤ d.delivered_kg
accounted-set_distribution_old d s e =
    grind (int_laws, sum_by-set_old delivered s.distributions d.distribution_id d e)
