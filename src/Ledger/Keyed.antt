-- ===== src/Ledger/Keyed.antt =====
-- Every record of the ledger stands under its own id, whichever method is called.
pub mod Movement
pub mod Distribute
use toomoki_cdac_pds.Ledger.Record.{set_alert}
use toomoki_cdac_pds.Prelude.{String, ◌≡◌, refl}
use toomoki_cdac_pds.StringMap.{set}
use toomoki_cdac_pds.StringMap.Keys.{KeyedBy, KeyedBy-set}
use toomoki_cdac_pds.SharedTypes.{
  MonthlyEntitlement, Stakeholder, CommodityLot, TransferOrder, FpsAllocation,
  DistributionTransaction, AuthTransaction, RationCard, Grievance, EntitlementRule, AuditAlert,
}
use toomoki_cdac_pds.Ledger.State.{PdsLedger, EntitlementCell}
use toomoki_cdac_pds.Ledger.Distribute.{set_entitlement, key_of, set_auth, set_distribution}
use toomoki_cdac_pds.Ledger.Lots.{set_stakeholder, set_lot}
use toomoki_cdac_pds.Ledger.Dispatch.{set_transfer}
use toomoki_cdac_pds.Ledger.Allocate.{set_allocation}
use toomoki_cdac_pds.Ledger.Cards.{set_card}
use toomoki_cdac_pds.Ledger.Grievances.{set_grievance}
use toomoki_cdac_pds.Ledger.Rules.{set_rule}
use toomoki_cdac_pds.Ledger.Exec.Keeps.{Keeps, Keeps-modify}
use toomoki_cdac_pds.Ledger.Quiet.{IsQuiet}

-- What moves, what persons are registered with, and the rest.
unfoldable pub IsKeyed : PdsLedger → Type 0
IsKeyed s =
    (KeyedBy (λ x. x.lot_id) s.lots
      × KeyedBy (λ x. x.transfer_id) s.transfers
      × KeyedBy (λ x. x.allocation_id) s.allocations
      × KeyedBy (λ x. x.distribution_id) s.distributions
      × KeyedBy (λ c. key_of c.entitlement) s.entitlements)
    × (KeyedBy (λ x. x.ration_card_hash) s.ration_cards
        × KeyedBy (λ x. x.grievance_id) s.grievances
        × KeyedBy (λ x. x.rule_id) s.entitlement_rules)
    × (KeyedBy (λ x. x.stakeholder_id) s.stakeholders
        × KeyedBy (λ x. x.auth_txn_id) s.auth_transactions
        × KeyedBy (λ x. x.alert_id) s.alerts)

pub lots_keyed : (s : PdsLedger) → IsKeyed s → KeyedBy (λ x. x.lot_id) s.lots
unfolding IsKeyed
lots_keyed s h = h.0.0

pub transfers_keyed : (s : PdsLedger) → IsKeyed s → KeyedBy (λ x. x.transfer_id) s.transfers
unfolding IsKeyed
transfers_keyed s h = h.0.1

pub allocations_keyed : (s : PdsLedger) → IsKeyed s → KeyedBy (λ x. x.allocation_id) s.allocations
unfolding IsKeyed
allocations_keyed s h = h.0.2

pub entitlements_keyed :
    (s : PdsLedger) → IsKeyed s → KeyedBy (λ c. key_of c.entitlement) s.entitlements
unfolding IsKeyed
entitlements_keyed s h = h.0.4

pub rules_keyed : (s : PdsLedger) → IsKeyed s → KeyedBy (λ x. x.rule_id) s.entitlement_rules
unfolding IsKeyed
rules_keyed s h = h.1.2

pub IsKeyed-quiet : IsQuiet IsKeyed
unfolding IsKeyed
IsKeyed-quiet = record {
  clock = λ t i s h. h;
  log = λ e s h. h;
  alert = λ a s (moving, registers, (st, au, ar)).
      (moving, registers, (st, au, KeyedBy-set _ s.alerts a.alert_id a ar refl));
}

pub IsKeyed-stock :
    (s : PdsLedger) (key : String) (qty : _)
    → IsKeyed s
    → IsKeyed (record s { stock = set s.stock key qty })
unfolding IsKeyed
IsKeyed-stock s key qty h = h

-- A write of a record under its own id.
pub IsKeyed-set_lot : (x : CommodityLot) (s : PdsLedger) → IsKeyed s → IsKeyed (set_lot x s)
unfolding IsKeyed
IsKeyed-set_lot x s ((lo, tf, al, di, en), (ca, gr, ru), (st, au, ar)) =
    ((KeyedBy-set _ s.lots _ x lo refl, tf, al, di, en), (ca, gr, ru), (st, au, ar))

pub IsKeyed-set_transfer :
    (x : TransferOrder) (s : PdsLedger) → IsKeyed s → IsKeyed (set_transfer x s)
unfolding IsKeyed
IsKeyed-set_transfer x s ((lo, tf, al, di, en), (ca, gr, ru), (st, au, ar)) =
    ((lo, KeyedBy-set _ s.transfers _ x tf refl, al, di, en), (ca, gr, ru), (st, au, ar))

pub IsKeyed-set_allocation :
    (x : FpsAllocation) (s : PdsLedger) → IsKeyed s → IsKeyed (set_allocation x s)
unfolding IsKeyed
IsKeyed-set_allocation x s ((lo, tf, al, di, en), (ca, gr, ru), (st, au, ar)) =
    ((lo, tf, KeyedBy-set _ s.allocations _ x al refl, di, en), (ca, gr, ru), (st, au, ar))

pub IsKeyed-set_distribution :
    (x : DistributionTransaction) (s : PdsLedger) → IsKeyed s → IsKeyed (set_distribution x s)
unfolding IsKeyed
IsKeyed-set_distribution x s ((lo, tf, al, di, en), (ca, gr, ru), (st, au, ar)) =
    ((lo, tf, al, KeyedBy-set _ s.distributions _ x di refl, en), (ca, gr, ru), (st, au, ar))

pub IsKeyed-set_cell :
    (key : String) (c : EntitlementCell) (s : PdsLedger)
    → key_of c.entitlement ≡ key
    → IsKeyed s
    → IsKeyed (record s { entitlements = set s.entitlements key c })
unfolding IsKeyed
IsKeyed-set_cell key c s own ((lo, tf, al, di, en), (ca, gr, ru), (st, au, ar)) =
    ((lo, tf, al, di, KeyedBy-set _ s.entitlements key c en own), (ca, gr, ru), (st, au, ar))

pub IsKeyed-set_entitlement :
    (e : MonthlyEntitlement) (s : PdsLedger) → IsKeyed s → IsKeyed (set_entitlement e s)
IsKeyed-set_entitlement e s h = IsKeyed-set_cell _ _ s refl h

pub IsKeyed-set_card : (x : RationCard) (s : PdsLedger) → IsKeyed s → IsKeyed (set_card x s)
unfolding IsKeyed
IsKeyed-set_card x s ((lo, tf, al, di, en), (ca, gr, ru), (st, au, ar)) =
    ((lo, tf, al, di, en), (KeyedBy-set _ s.ration_cards _ x ca refl, gr, ru), (st, au, ar))

pub IsKeyed-set_grievance :
    (x : Grievance) (s : PdsLedger) → IsKeyed s → IsKeyed (set_grievance x s)
unfolding IsKeyed
IsKeyed-set_grievance x s ((lo, tf, al, di, en), (ca, gr, ru), (st, au, ar)) =
    ((lo, tf, al, di, en), (ca, KeyedBy-set _ s.grievances _ x gr refl, ru), (st, au, ar))

pub IsKeyed-set_rule : (x : EntitlementRule) (s : PdsLedger) → IsKeyed s → IsKeyed (set_rule x s)
unfolding IsKeyed
IsKeyed-set_rule x s ((lo, tf, al, di, en), (ca, gr, ru), (st, au, ar)) =
    ((lo, tf, al, di, en), (ca, gr, KeyedBy-set _ s.entitlement_rules _ x ru refl), (st, au, ar))

pub IsKeyed-set_stakeholder :
    (x : Stakeholder) (s : PdsLedger) → IsKeyed s → IsKeyed (set_stakeholder x s)
unfolding IsKeyed
IsKeyed-set_stakeholder x s ((lo, tf, al, di, en), (ca, gr, ru), (st, au, ar)) =
    ((lo, tf, al, di, en), (ca, gr, ru), (KeyedBy-set _ s.stakeholders _ x st refl, au, ar))

pub IsKeyed-set_auth : (x : AuthTransaction) (s : PdsLedger) → IsKeyed s → IsKeyed (set_auth x s)
unfolding IsKeyed
IsKeyed-set_auth x s ((lo, tf, al, di, en), (ca, gr, ru), (st, au, ar)) =
    ((lo, tf, al, di, en), (ca, gr, ru), (st, KeyedBy-set _ s.auth_transactions _ x au refl, ar))

pub IsKeyed-set_alert : (x : AuditAlert) (s : PdsLedger) → IsKeyed s → IsKeyed (set_alert x s)
IsKeyed-set_alert x s h = IsKeyed-quiet.alert x s h

pub ruleset keyed_writes = (
  IsKeyed-quiet, IsKeyed-set_lot, IsKeyed-set_transfer, IsKeyed-set_allocation,
  IsKeyed-set_distribution, IsKeyed-set_card, IsKeyed-set_grievance, IsKeyed-set_rule,
  IsKeyed-set_stakeholder, IsKeyed-set_auth, IsKeyed-set_alert, IsKeyed-stock, Keeps-modify,
)
