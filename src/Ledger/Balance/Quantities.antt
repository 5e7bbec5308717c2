-- ===== src/Ledger/Balance/Quantities.antt =====
-- The quantity that the ledger accounts for, and the operations that do not touch it.
use toomoki_cdac_pds.Prelude.{String, ◌≡◌, refl, none, some, ◌otherwise◌, arith}
use toomoki_cdac_pds.Prelude.Int.{ℤ, pos, ◌+ℤ◌, ◌-ℤ◌}
use toomoki_cdac_pds.StringMap.Sums.{sum_by}
use toomoki_cdac_pds.SharedTypes.{
  TransferOrder, TransferStatus, FpsAllocation, AllocationStatus, DistributionTransaction,
  AlertType, EntityType, Value,
}
use toomoki_cdac_pds.SharedTypes.Events.{Body}
use toomoki_cdac_pds.Ledger.State.{PdsLedger}
use toomoki_cdac_pds.Ledger.Exec.{◌>>=◌}
use toomoki_cdac_pds.Ledger.Exec.Keeps.{Keeps, keeps_rules}
use toomoki_cdac_pds.Ledger.Exec.Runs.{runs_rules, Runs}
use toomoki_cdac_pds.Ledger.Checks.{assert_active_stakeholder, resolve_active_transporter}
use toomoki_cdac_pds.Ledger.Record.{
  draw_timestamp, timestamp_or, record_event, record_event_with, raise_audit_flag,
}
use toomoki_cdac_pds.Prelude.{List, Option}

-- In transit a transfer holds what was dispatched; afterwards, what was lost on the way.
abbrev pub transfer_weight : TransferOrder → ℤ
transfer_weight t = elim t.status [
  | TransferStatus.dispatched ↦ t.dispatched_qty_kg
  | _ ↦ t.dispatched_qty_kg -ℤ (t.received_qty_kg otherwise pos 0)
]

abbrev pub allocation_weight : FpsAllocation → ℤ
allocation_weight a = elim a.status [
  | AllocationStatus.allocated ↦ a.allocated_qty_kg
  | _ ↦ a.allocated_qty_kg -ℤ (a.received_qty_kg otherwise pos 0)
]

abbrev pub delivered : DistributionTransaction → ℤ
delivered d = d.delivered_kg

abbrev pub stock_total : PdsLedger → ℤ
stock_total s = sum_by (λ qty. qty) s.stock

-- Stock, plus what is on the road or was lost there, plus what was delivered.
abbrev pub accounted : PdsLedger → ℤ
accounted s =
    stock_total s
    +ℤ sum_by transfer_weight s.transfers
    +ℤ sum_by allocation_weight s.allocations
    +ℤ sum_by delivered s.distributions

-- The collections that hold quantities are those of `a`.
pub record SameQuantities (a s : PdsLedger) : Type 0 where
  pub stock : s.stock ≡ a.stock
  pub transfers : s.transfers ≡ a.transfers
  pub allocations : s.allocations ≡ a.allocations
  pub distributions : s.distributions ≡ a.distributions

pub SameQuantities-refl : (a : PdsLedger) → SameQuantities a a
SameQuantities-refl a = record {
  stock = refl;
  transfers = refl;
  allocations = refl;
  distributions = refl;
}

module _ {a : PdsLedger} where
  pub Keeps-draw_timestamp : Keeps (SameQuantities a) draw_timestamp
  unfolding draw_timestamp
  Keeps-draw_timestamp = record { after = λ s h. ground arith }

  pub Keeps-timestamp_or : (t : Option String) → Keeps (SameQuantities a) (timestamp_or t)
  unfolding timestamp_or
  Keeps-timestamp_or none = Keeps-draw_timestamp
  Keeps-timestamp_or (some t) = search keeps_rules

  pub Keeps-record_event_with :
      (t : EntityType) (id : String) (body : String → Body)
      → Keeps (SameQuantities a) (record_event_with t id body)
  unfolding record_event_with ◌>>=◌
  Keeps-record_event_with t id body = record { after = λ s h. ground arith }

  pub Keeps-record_event :
      (t : EntityType) (id : String) (body : Body)
      → Keeps (SameQuantities a) (record_event t id body)
  unfolding record_event
  Keeps-record_event t id body = Keeps-record_event_with t id (λ _. body)

  pub Keeps-raise_audit_flag :
      (t : AlertType) (id message : String) (evidence : List (String × Value))
      → Keeps (SameQuantities a) (raise_audit_flag t id message evidence)
  unfolding raise_audit_flag ◌>>=◌
  Keeps-raise_audit_flag t id message evidence = record { after = λ s h. ground arith }

  pub Keeps-assert_active_stakeholder :
      (id : String) → Keeps (SameQuantities a) (assert_active_stakeholder id)
  unfolding assert_active_stakeholder
  Keeps-assert_active_stakeholder id = search keeps_rules

  pub Keeps-resolve_active_transporter :
      (id : String) → Keeps (SameQuantities a) (resolve_active_transporter id)
  unfolding resolve_active_transporter
  Keeps-resolve_active_transporter id = search keeps_rules depth 9

-- The actions that never throw.
module _ {a : PdsLedger} where
  pub Runs-draw_timestamp : Runs (SameQuantities a) draw_timestamp
  unfolding draw_timestamp
  Runs-draw_timestamp = record { at = λ s h. ground arith }

  pub Runs-timestamp_or : (t : Option String) → Runs (SameQuantities a) (timestamp_or t)
  unfolding timestamp_or
  Runs-timestamp_or none = Runs-draw_timestamp
  Runs-timestamp_or (some t) = search runs_rules

  pub Runs-record_event_with :
      (t : EntityType) (id : String) (body : String → Body)
      → Runs (SameQuantities a) (record_event_with t id body)
  unfolding record_event_with ◌>>=◌
  Runs-record_event_with t id body = record { at = λ s h. ground arith }

  pub Runs-record_event :
      (t : EntityType) (id : String) (body : Body)
      → Runs (SameQuantities a) (record_event t id body)
  unfolding record_event
  Runs-record_event t id body = Runs-record_event_with t id (λ _. body)

  pub Runs-raise_audit_flag :
      (t : AlertType) (id message : String) (evidence : List (String × Value))
      → Runs (SameQuantities a) (raise_audit_flag t id message evidence)
  unfolding raise_audit_flag ◌>>=◌
  Runs-raise_audit_flag t id message evidence = record { at = λ s h. ground arith }

pub ruleset quiet_rules = (
  keeps_rules, Keeps-draw_timestamp, Keeps-timestamp_or, Keeps-record_event, Keeps-raise_audit_flag,
  Keeps-assert_active_stakeholder, Keeps-resolve_active_transporter,
)

pub ruleset quiet_runs = (
  runs_rules, Runs-draw_timestamp, Runs-timestamp_or, Runs-record_event, Runs-record_event_with,
  Runs-raise_audit_flag,
)
