-- ===== src/Contract/Control.antt =====
-- `PdsControlContract` of blockchain/chaincode/pds-chaincode/src/contract.ts: stakeholders, ration
-- cards, entitlement rules and the rollover.
pub mod Transfers
pub mod Approvals
pub mod Rollovers
use toomoki_cdac_pds.Contract.StakeholderJson.{type_text, same_stakeholder}
use toomoki_cdac_pds.Ledger.Persist.{PdsLedgerState}
use toomoki_cdac_pds.Ledger.Exec.{pure, Exec}
use toomoki_cdac_pds.SharedTypes.Events.{LedgerEvent}
use toomoki_cdac_pds.Ledger.Rules.{ProposeInput, RolloverInput}
use toomoki_cdac_pds.Ledger.Cards.{IssueInput, CardTransferInput}
use toomoki_cdac_pds.Contract.Collections.{
  save_alerts, save_entitlements, id_key, save_entitlement_rules, read_ids, save_ration_cards,
  save_stakeholders, save_events, empty_state, Submitted, query_state, transact,
}
use toomoki_cdac_pds.Contract.Stub.{
  tx_timestamp, Operation, Refusal, Outcome, World, Transaction, Stub,
}
use toomoki_cdac_pds.SharedTypes.{
  rule_active, MonthlyEntitlement, EntitlementRule, RationCard, Stakeholder,
}
use Prim.Native.String.{String}
use toomoki_cdac_pds.Prelude.{
  find, false, true, ℕ, ◌&&◌, Bool, non_empty, Option, some, none, List, [], ◌∷◌, not,
  if◌then◌else◌, str_eq,
}
use toomoki_cdac_pds.StringMap.{set}
use toomoki_cdac_pds.Contract.Authorization.{authorized}
use toomoki_cdac_pds.Ledger.Exec.{◌>>=◌}
use toomoki_cdac_pds.SharedTypes.{EntityType}
use toomoki_cdac_pds.Ledger.Cards
use toomoki_cdac_pds.Ledger.Lots
use toomoki_cdac_pds.Ledger.Rules

-- A stakeholder that is known: the same record again is no error.
abbrev pub register_again : Stub → Stakeholder → Stakeholder → Transaction (Submitted Stakeholder)
register_again stub existing payload world =
    if not (same_stakeholder stub existing payload)
    then Outcome.refused (Refusal.stakeholder_conflict payload.stakeholder_id)
    else Outcome.committed (existing, stub.tx_id) world

-- The engine's result without the event's id, which the transaction's id replaces.
unfoldable pub registered : Stakeholder → Exec Stakeholder
registered payload = do (stakeholder, _) ← Lots.register_stakeholder payload; pure stakeholder

abbrev pub load_stakeholder : Stub → String → World → PdsLedgerState
load_stakeholder stub id world = record empty_state {
  stakeholders = read_ids stub world.stakeholders (id ∷ []);
}

abbrev pub register_new : Stub → Stakeholder → Transaction (Submitted Stakeholder)
register_new stub payload world =
    transact stub (load_stakeholder stub payload.stakeholder_id world) (registered payload)
      (λ _ s w. save_events stub s (save_stakeholders stub s w)) world

abbrev pub register_found :
    Stub → Stakeholder → Option Stakeholder → Transaction (Submitted Stakeholder)
register_found stub payload none = register_new stub payload
register_found stub payload (some existing) = register_again stub existing payload

unfoldable pub register_stakeholder_transaction :
    Stub → Stakeholder → Transaction (Submitted Stakeholder)
unfolding transact
register_stakeholder_transaction stub payload =
    authorized Operation.register_stakeholder stub (λ world.
      let loaded = (load_stakeholder stub payload.stakeholder_id world).stakeholders in
      register_found stub payload
        (find (λ s. str_eq s.stakeholder_id payload.stakeholder_id) loaded) world)

-- The collections that `saveCollection` writes for a card, and the card written once more.
abbrev pub save_card : Stub → RationCard → PdsLedgerState → World → World
save_card stub card s w =
    let saved = save_events stub s (save_ration_cards stub s w) in
    record saved { ration_cards = set saved.ration_cards (id_key stub card.ration_card_hash) card }

-- What is loaded of the cards.
abbrev pub load_card : Stub → String → World → PdsLedgerState
load_card stub hash world = record empty_state {
  ration_cards = some (read_ids stub world.ration_cards (hash ∷ []));
}

unfoldable pub issue_ration_card_transaction :
    Stub → IssueInput → Transaction (Submitted RationCard)
unfolding transact
issue_ration_card_transaction stub payload = authorized Operation.issue_ration_card stub (λ world.
    transact stub (load_card stub payload.ration_card_hash world)
      (Cards.issue_ration_card (record payload { issued_at = some (tx_timestamp stub) }))
      (save_card stub) world)

unfoldable pub activate_ration_card_transaction : Stub → String → Transaction (Submitted RationCard)
unfolding transact
activate_ration_card_transaction stub hash =
    authorized Operation.activate_ration_card stub (λ world.
      transact stub (load_card stub hash world) (Cards.activate_ration_card hash) (save_card stub)
        world)

pub record SuspendPayload : Type 0 where
  pub ration_card_hash : String
  pub suspend_reason : String
  pub alert_id : Option String

-- `payload.alertId ? [payload.alertId] : []`
abbrev pub named_alert : Option String → List String
named_alert id = elim (non_empty id) [ none ↦ [] | some t ↦ t ∷ [] ]

unfoldable pub suspend_ration_card_transaction :
    Stub → SuspendPayload → Transaction (Submitted RationCard)
unfolding transact
suspend_ration_card_transaction stub payload =
    authorized Operation.suspend_ration_card stub (λ world.
      transact stub
        (record (load_card stub payload.ration_card_hash world) {
          alerts = read_ids stub world.alerts (named_alert payload.alert_id);
        })
        (Cards.suspend_ration_card payload.ration_card_hash payload.suspend_reason
          (some (tx_timestamp stub)))
        (λ card s w. save_card stub card s (save_alerts stub s w)) world)

-- The payload's fields that the transfer reads. The stakeholder that is loaded is `newFpsId`; the
-- engine reads `toFpsId`.
pub record TransferPayload : Type 0 where
  pub input : CardTransferInput
  pub new_fps_id : Option String

unfoldable pub transfer_ration_card_transaction :
    Stub → TransferPayload → Transaction (Submitted RationCard)
unfolding transact
transfer_ration_card_transaction stub payload =
    authorized Operation.transfer_ration_card stub (λ world.
      -- a composite key of an undefined attribute is refused by the stub
      elim payload.new_fps_id [
        | none ↦ Outcome.refused (Refusal.record_missing "Stakeholder" "undefined")
        | some fps_id ↦
            transact stub
              (record (load_card stub payload.input.ration_card_hash world) {
                stakeholders = read_ids stub world.stakeholders (fps_id ∷ []);
              })
              (Cards.transfer_ration_card
                (record payload.input { transferred_at = some (tx_timestamp stub) }))
              (save_card stub) world
      ])

abbrev pub load_rule : Stub → String → World → PdsLedgerState
load_rule stub rule_id world = record empty_state {
  entitlement_rules = some (read_ids stub world.entitlement_rules (rule_id ∷ []));
}

abbrev pub save_rule : Stub → EntitlementRule → PdsLedgerState → World → World
save_rule stub rule s w = save_events stub s (save_entitlement_rules stub s w)

unfoldable pub propose_entitlement_rule_transaction :
    Stub → ProposeInput → Transaction (Submitted EntitlementRule)
unfolding transact
propose_entitlement_rule_transaction stub payload =
    authorized Operation.propose_entitlement_rule stub (λ world.
      transact stub (load_rule stub payload.rule_id world)
        (Rules.propose_entitlement_rule (record payload { proposed_by = stub.msp_id }))
        (save_rule stub) world)

unfoldable pub approve_entitlement_rule_transaction :
    Stub → String → Transaction (Submitted EntitlementRule)
unfolding transact
approve_entitlement_rule_transaction stub rule_id =
    authorized Operation.approve_entitlement_rule stub (λ world.
      transact stub (load_rule stub rule_id world)
        (Rules.approve_entitlement_rule rule_id stub.msp_id) (save_rule stub) world)

-- `selector: { docType: 'entitlement', month, commodity }`
abbrev pub of_month : RolloverInput → MonthlyEntitlement → Bool
of_month payload e = str_eq e.month payload.from_month && str_eq e.commodity payload.commodity

unfoldable pub rollover_unclaimed_quota_transaction :
    Stub → RolloverInput → Transaction (Submitted (ℕ × ℕ))
unfolding transact
rollover_unclaimed_quota_transaction stub payload =
    authorized Operation.rollover_unclaimed_quota stub (λ world.
      transact stub
        (record empty_state {
          entitlements = query_state stub (of_month payload) world.entitlements;
        })
        (Rules.rollover_unclaimed_quota payload)
        (λ _ s w. save_events stub s (save_entitlements stub s w)) world)

-- The queries.

unfoldable pub query_active_entitlement_rules : Stub → World → List EntitlementRule
unfolding query_state
query_active_entitlement_rules stub world =
    query_state stub (λ r. rule_active r.status) world.entitlement_rules

abbrev pub is_card_event : String → LedgerEvent → Bool
is_card_event hash event =
    (elim event.entity_type [ EntityType.rationcard ↦ true | _ ↦ false ])
    && str_eq event.entity_id hash

unfoldable pub query_ration_card_history : Stub → String → World → List LedgerEvent
unfolding query_state
query_ration_card_history stub hash world = query_state stub (is_card_event hash) world.events

unfoldable pub query_stakeholders_by_type : Stub → String → World → List Stakeholder
unfolding query_state
query_stakeholders_by_type stub kind world =
    query_state stub (λ s. str_eq (type_text s.stakeholder_type) kind) world.stakeholders
