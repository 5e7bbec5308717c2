-- ===== src/Ledger/Atomic.antt =====
-- A call that throws writes nothing but the clock, the log and the alerts.
pub mod Stored
pub mod Dispatch
use toomoki_cdac_pds.Prelude.{String, ◌≡◌, refl, inl, inr, Bool-cases, arith}
use toomoki_cdac_pds.Prelude.Int.{ℤ, ltb_ℤ}
use toomoki_cdac_pds.Ledger.State.{PdsLedger}
use toomoki_cdac_pds.Ledger.Exec.{Exec, modify, ◌>>=◌}
use toomoki_cdac_pds.Ledger.Exec.Runs.{Runs, Runs-modify, runs_rules}
use toomoki_cdac_pds.Ledger.Exec.Refuses.{
  Runs-IfThrown, IfThrown, Refuses, Refuses-bind, Refuses-Runs, Always,
}
use toomoki_cdac_pds.Ledger.Quiet.{IsQuiet, log_runs}
use toomoki_cdac_pds.Ledger.Quiet.Checks.{
  check_allocation-Keeps, check_receipt-Keeps, check_fps_receipt-Keeps, check_distribution-Keeps,
}
use toomoki_cdac_pds.Ledger.Record.{stock_at, consume_stock, add_stock}
use toomoki_cdac_pds.Ledger.Receive.{receive_lot, ReceiveInput}
use toomoki_cdac_pds.Ledger.Allocate.{
  allocate_to_fps, AllocateInput, record_fps_receipt, FpsReceiptInput,
}
use toomoki_cdac_pds.Ledger.Distribute.{record_distribution, DistributionInput}

-- Apart from the clock, the log and the alerts, the two ledgers are the same.
pub record SameBusiness (a s : PdsLedger) : Type 0 where
  pub stakeholders : s.stakeholders ≡ a.stakeholders
  pub lots : s.lots ≡ a.lots
  pub transfers : s.transfers ≡ a.transfers
  pub allocations : s.allocations ≡ a.allocations
  pub entitlements : s.entitlements ≡ a.entitlements
  pub auth_transactions : s.auth_transactions ≡ a.auth_transactions
  pub distributions : s.distributions ≡ a.distributions
  pub stock : s.stock ≡ a.stock
  pub ration_cards : s.ration_cards ≡ a.ration_cards
  pub grievances : s.grievances ≡ a.grievances
  pub entitlement_rules : s.entitlement_rules ≡ a.entitlement_rules
  pub series_id : s.series_id ≡ a.series_id

pub SameBusiness-refl : (a : PdsLedger) → SameBusiness a a
SameBusiness-refl a = record {
  stakeholders = refl;
  lots = refl;
  transfers = refl;
  allocations = refl;
  entitlements = refl;
  auth_transactions = refl;
  distributions = refl;
  stock = refl;
  ration_cards = refl;
  grievances = refl;
  entitlement_rules = refl;
  series_id = refl;
}

pub SameBusiness-quiet : (a : PdsLedger) → IsQuiet (SameBusiness a)
SameBusiness-quiet a = record {
  clock = λ t i s h. ground arith;
  log = λ e s h. ground arith;
  alert = λ x s h. ground arith;
}

Always-quiet : IsQuiet Always
Always-quiet = record { clock = λ t i s h. tt; log = λ e s h. tt; alert = λ x s h. tt }

module _ {B : Type 0} (P : PdsLedger → Type 0) where
  -- A withdrawal throws before it writes.
  consume_stock-Refuses :
      (id commodity : String) (qty : ℤ) (f : Unit {0} → Exec B)
      → ((x : Unit {0}) → Runs Always (f x))
      → Refuses P (consume_stock id commodity qty >>= f)
  unfolding consume_stock ◌>>=◌
  consume_stock-Refuses id commodity qty f run = record {
    within = λ s h. elim (Bool-cases (ltb_ℤ (stock_at id commodity s) qty)) [
      | inl short ↦ rw short h
      | inr enough ↦ rw enough (Runs-IfThrown P (f tt) (run tt) _)
    ];
  }

Always-modify : (w : PdsLedger → PdsLedger) → Runs Always (modify w)
Always-modify w = Runs-modify w (λ s h. tt)

Always-add_stock : (id commodity : String) (qty : ℤ) → Runs Always (add_stock id commodity qty)
unfolding add_stock
Always-add_stock id commodity qty = search (runs_rules, Always-modify)

ruleset always_rules = (log_runs, Always-quiet, Always-modify, Always-add_stock)

-- An allocation that throws changes nothing but the clock, the log and the alerts.
pub allocate_to_fps-refuses :
    (input : AllocateInput) (s : PdsLedger) → IfThrown (SameBusiness s) (allocate_to_fps input s)
unfolding allocate_to_fps
allocate_to_fps-refuses input s =
    (Refuses-bind (SameBusiness s) _ _ (check_allocation-Keeps (SameBusiness-quiet s) input) (λ _.
        consume_stock-Refuses (SameBusiness s) _ _ _ _ (λ _. search always_rules depth 30))).within
      s (SameBusiness-refl s)

-- A receipt that throws changes nothing but the clock, the log and the alerts.
pub receive_lot-refuses :
    (input : ReceiveInput) (s : PdsLedger) → IfThrown (SameBusiness s) (receive_lot input s)
unfolding receive_lot
receive_lot-refuses input s =
    (Refuses-bind (SameBusiness s) _ _ (check_receipt-Keeps (SameBusiness-quiet s) input)
        (λ _. Refuses-Runs _ _ (search always_rules depth 30))).within
      s (SameBusiness-refl s)

-- A receipt at a shop that throws changes nothing but the clock, the log and the alerts.
pub record_fps_receipt-refuses :
    (input : FpsReceiptInput) (s : PdsLedger)
    → IfThrown (SameBusiness s) (record_fps_receipt input s)
unfolding record_fps_receipt
record_fps_receipt-refuses input s =
    (Refuses-bind (SameBusiness s) _ _ (check_fps_receipt-Keeps (SameBusiness-quiet s) input)
        (λ _. Refuses-Runs _ _ (search always_rules depth 30))).within
      s (SameBusiness-refl s)

-- A distribution that throws changes nothing but the clock, the log and the alerts.
pub record_distribution-refuses :
    (input : DistributionInput) (s : PdsLedger)
    → IfThrown (SameBusiness s) (record_distribution input s)
unfolding record_distribution
record_distribution-refuses input s =
    (Refuses-bind (SameBusiness s) _ _ (check_distribution-Keeps (SameBusiness-quiet s) input) (λ _.
        consume_stock-Refuses (SameBusiness s) _ _ _ _ (λ _. search always_rules depth 30))).within
      s (SameBusiness-refl s)
