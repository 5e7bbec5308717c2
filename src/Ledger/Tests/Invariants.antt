-- ===== src/Ledger/Tests/Invariants.antt =====
-- The invariants of sessions, stock, entitlements, rules and replay at the demo ledger.
use toomoki_cdac_pds.StringMap.{get}
use toomoki_cdac_pds.Ledger.Dispatch.{DispatchInput, dispatch_lot}
use toomoki_cdac_pds.Ledger.Atomic.Dispatch.{dispatch_lot-refuses}
use toomoki_cdac_pds.Ledger.Split.{held, rooted, split_lot_for_partial_dispatch-parts}
use toomoki_cdac_pds.Ledger.Lots.{split_lot_for_partial_dispatch, available_on, root_of}
use toomoki_cdac_pds.Ledger.RoundTrip.{AreMaps, reloaded, restore_state-export_state}
use toomoki_cdac_pds.Ledger.Persist.{restore_state, export_state}
use toomoki_cdac_pds.Ledger.State.{empty_ledger}
use toomoki_cdac_pds.Ledger.Demo.{demo_runtime}
use toomoki_cdac_pds.Prelude.{some, String, ◌≡◌, refl, none, [], ◌∷◌, false}
use toomoki_cdac_pds.Prelude.Int.{pos, ◌+ℤ◌}
use toomoki_cdac_pds.SharedTypes.{
  CommodityLot, EntitlementRule, RationCardType, EntitlementRuleStatus, EntityType,
}
use toomoki_cdac_pds.SharedTypes.Events.{Body, LedgerEvent}
use toomoki_cdac_pds.Ledger.Checks.{entitlement_key}
use toomoki_cdac_pds.Ledger.State.{PdsLedger}
use toomoki_cdac_pds.Ledger.Exec.{◌>>=◌, ok}
use toomoki_cdac_pds.Ledger.Exec.Refuses.{IfThrown}
use toomoki_cdac_pds.Ledger.Session.{Session, perform, brought_by}
use toomoki_cdac_pds.Ledger.Session
use toomoki_cdac_pds.Ledger.Session.Balance.{Session-accounted}
use toomoki_cdac_pds.Ledger.Session.Keyed.{Session-IsKeyed}
use toomoki_cdac_pds.Ledger.Keyed.{IsKeyed}
use toomoki_cdac_pds.Ledger.Balance.Quantities.{accounted}
use toomoki_cdac_pds.Ledger.Balance.Creation.{create_commodity_lot-adds, brought_in}
use toomoki_cdac_pds.Ledger.Stock.{IsStocked}
use toomoki_cdac_pds.Ledger.Stock.Calls.{perform-IsStocked}
use toomoki_cdac_pds.Ledger.Entitlements.Quota.{
  IsRationed, record_distribution-IsRationed, rollover_unclaimed_quota-IsRationed,
}
use toomoki_cdac_pds.Ledger.Atomic.{
  SameBusiness, allocate_to_fps-refuses, receive_lot-refuses, record_fps_receipt-refuses,
  record_distribution-refuses,
}
use toomoki_cdac_pds.Ledger.RuleBook.{beside, approve_entitlement_rule-supersedes}
use toomoki_cdac_pds.Ledger.Idempotence.{apply_ledger_event-twice}
use toomoki_cdac_pds.Ledger.Lots.{create_commodity_lot}
use toomoki_cdac_pds.Ledger.Allocate.{AllocateInput, allocate_to_fps, record_fps_receipt}
use toomoki_cdac_pds.Ledger.Receive.{receive_lot}
use toomoki_cdac_pds.Ledger.Distribute.{DistributionInput, record_distribution}
use toomoki_cdac_pds.Ledger.Rules.{
  approve_entitlement_rule, rollover_unclaimed_quota, RolloverInput,
}
use toomoki_cdac_pds.Ledger.Replay.{apply_ledger_event}
use toomoki_cdac_pds.Ledger.Demo.{
  demo, demo_lot, demo_dispatch, demo_receipt, demo_allocation, demo_fps_receipt, demo_distribution,
}

demo-IsKeyed : IsKeyed demo
unfolding IsKeyed entitlement_key
demo-IsKeyed = (
  ((refl, tt), tt, tt, tt, (refl, tt)),
  (tt, tt, tt),
  ((refl, (refl, (refl, (refl, (refl, tt))))), tt, tt),
)

abbrev second_lot : CommodityLot
second_lot = record demo_lot { lot_id = "LOT-2" }

-- A lot comes in, a part of the first one leaves and arrives short.
abbrev first_call : Session.Command
first_call = Session.Command.create_commodity_lot second_lot

abbrev second_call : Session.Command
second_call = Session.Command.dispatch_lot demo_dispatch

abbrev demo_session :
    Session demo
      (pos 0 +ℤ brought_by first_call demo +ℤ brought_by second_call (perform first_call demo))
      (perform second_call (perform first_call demo))
demo_session = Session.call second_call (Session.call first_call (Session.start demo))

Session-accounted_example :
    accounted (perform second_call (perform first_call demo))
    ≡ accounted demo
      +ℤ (pos 0 +ℤ brought_by first_call demo +ℤ brought_by second_call (perform first_call demo))
Session-accounted_example = Session-accounted demo_session demo-IsKeyed

Session-IsKeyed_example : IsKeyed (perform second_call (perform first_call demo))
Session-IsKeyed_example = Session-IsKeyed demo_session demo-IsKeyed

create_commodity_lot-adds_example :
    accounted (create_commodity_lot second_lot demo).1
    ≡ accounted demo +ℤ brought_in (create_commodity_lot second_lot demo).0
create_commodity_lot-adds_example = create_commodity_lot-adds second_lot demo

demo-IsStocked : IsStocked demo
unfolding IsStocked
demo-IsStocked = (refl, (refl, (refl, tt)))

perform-IsStocked_example : IsStocked (perform second_call demo)
perform-IsStocked_example = perform-IsStocked second_call demo tt demo-IsStocked

demo-IsRationed : IsRationed demo
unfolding IsRationed ◌+ℤ◌
demo-IsRationed = ((refl, refl, refl), tt)

record_distribution-IsRationed_example : IsRationed (record_distribution demo_distribution demo).1
record_distribution-IsRationed_example =
    record_distribution-IsRationed demo_distribution demo demo-IsRationed

abbrev demo_rollover : RolloverInput
demo_rollover = record {
  from_month = "2026-07";
  to_month = "2026-08";
  commodity = "Rice";
  rollover_pct = pos 50;
}

rollover_unclaimed_quota-IsRationed_example :
    IsRationed (rollover_unclaimed_quota demo_rollover demo).1
rollover_unclaimed_quota-IsRationed_example =
    rollover_unclaimed_quota-IsRationed demo_rollover demo demo-IsRationed

-- Calls that throw: more than the godown holds, an unknown transfer, an unknown allocation, more
-- than the balance.
abbrev too_much : AllocateInput
too_much = record demo_allocation { allocated_qty_kg = pos 5000 }

allocate_to_fps-refuses_example : IfThrown (SameBusiness demo) (allocate_to_fps too_much demo)
allocate_to_fps-refuses_example = allocate_to_fps-refuses too_much demo

receive_lot-refuses_example : IfThrown (SameBusiness demo) (receive_lot demo_receipt demo)
receive_lot-refuses_example = receive_lot-refuses demo_receipt demo

record_fps_receipt-refuses_example :
    IfThrown (SameBusiness demo) (record_fps_receipt demo_fps_receipt demo)
record_fps_receipt-refuses_example = record_fps_receipt-refuses demo_fps_receipt demo

abbrev over_claim : DistributionInput
over_claim = record demo_distribution {
  distribution = record (demo_distribution.distribution) { delivered_kg = pos 30 };
}

record_distribution-refuses_example :
    IfThrown (SameBusiness demo) (record_distribution over_claim demo)
record_distribution-refuses_example = record_distribution-refuses over_claim demo

abbrev demo_rule : String → EntitlementRuleStatus → EntitlementRule
demo_rule id status = record {
  rule_id = id;
  category = RationCardType.phh;
  commodity = "Rice";
  monthly_kg = pos 25;
  effective_from = "2026-07-01";
  effective_to = none;
  status = status;
  proposed_by = "DSO-1";
  approved_by = none;
}

-- One rule is in force, and another waits for approval.
abbrev demo_rules : PdsLedger
demo_rules = record demo {
  entitlement_rules =
      ("R-1", demo_rule "R-1" EntitlementRuleStatus.active)
      ∷ ("R-2", demo_rule "R-2" EntitlementRuleStatus.pending_approval)
      ∷ [];
}

demo_rules-IsKeyed : IsKeyed demo_rules
unfolding IsKeyed entitlement_key
demo_rules-IsKeyed = (
  ((refl, tt), tt, tt, tt, (refl, tt)),
  (tt, tt, (refl, (refl, tt))),
  ((refl, (refl, (refl, (refl, (refl, tt))))), tt, tt),
)

approve_entitlement_rule-supersedes_example :
    beside "R-1" (approve_entitlement_rule "R-2" "DSO-2" demo_rules) ≡ false
approve_entitlement_rule-supersedes_example =
    approve_entitlement_rule-supersedes "R-2" "DSO-2" "R-1" demo_rules demo_rules-IsKeyed refl

abbrev demo_event : LedgerEvent
demo_event = record {
  ledger_tx_id = "TX-9";
  entity_type = EntityType.lot;
  entity_id = "LOT-2";
  body = Body.create_commodity_lot second_lot;
  extras = [];
  timestamp = "2026-07-02T00:00:00.000Z";
}

apply_ledger_event-twice_example :
    apply_ledger_event demo_event (apply_ledger_event demo_event demo).1
    ≡ (ok "TX-9", (apply_ledger_event demo_event demo).1)
unfolding apply_ledger_event ◌>>=◌
apply_ledger_event-twice_example = apply_ledger_event-twice demo_event demo refl

-- More than the lot holds.
abbrev too_heavy : DispatchInput
too_heavy = record demo_dispatch { dispatched_qty_kg = pos 2000 }

dispatch_lot-refuses_example : IfThrown (SameBusiness demo) (dispatch_lot too_heavy demo)
dispatch_lot-refuses_example = dispatch_lot-refuses too_heavy demo demo-IsKeyed

split_lot_for_partial_dispatch-parts_example :
    let lots = (split_lot_for_partial_dispatch demo_lot "LOT-1-SPLIT-TR-1" (pos 400) demo).1.lots in
    (held (get lots "LOT-1") +ℤ held (get lots "LOT-1-SPLIT-TR-1") ≡ available_on demo_lot)
    × (rooted (get lots "LOT-1") ≡ some (root_of demo_lot))
    × (rooted (get lots "LOT-1-SPLIT-TR-1") ≡ some (root_of demo_lot))
    × (held (get lots "LOT-1-SPLIT-TR-1") ≡ pos 400)
split_lot_for_partial_dispatch-parts_example =
    split_lot_for_partial_dispatch-parts demo_lot "LOT-1-SPLIT-TR-1" (pos 400) demo refl

demo-AreMaps : AreMaps demo
unfolding get
demo-AreMaps = record {
  stakeholders = (refl, (refl, (refl, (refl, (refl, tt)))));
  lots = (refl, tt);
  transfers = tt;
  allocations = tt;
  entitlements = (refl, tt);
  auth_transactions = tt;
  distributions = tt;
  alerts = tt;
  stock = (refl, (refl, (refl, tt)));
  ration_cards = tt;
  grievances = tt;
  entitlement_rules = tt;
}

restore_state-export_state_example :
    restore_state (export_state demo) (empty_ledger demo_runtime)
    ≡ reloaded demo (empty_ledger demo_runtime)
restore_state-export_state_example =
    restore_state-export_state demo (empty_ledger demo_runtime) demo-IsKeyed demo-AreMaps
