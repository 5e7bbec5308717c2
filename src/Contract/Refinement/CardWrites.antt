-- ===== src/Contract/Refinement/CardWrites.antt =====
-- What the operations on ration cards write last.
use toomoki_cdac_pds.Ledger.State.{PdsLedger}
use toomoki_cdac_pds.SharedTypes.Events.{Body}
use toomoki_cdac_pds.Ledger.Checks.{must_get_ration_card}
use toomoki_cdac_pds.Ledger.Cards.{set_card, CardTransferInput, IssueInput, activate_card}
use toomoki_cdac_pds.Ledger.Record.{
  draw_identifier, draw_timestamp, record_event_with, record_event,
}
use toomoki_cdac_pds.SharedTypes.{
  Value, AlertType, EntityType, card_active, Stakeholder, AuditAlert, RationCard,
}
use mathlib.Core.Path.{subst}
use toomoki_cdac_pds.Prelude.{
  Option-cases, eq_refl, Bool-cases, String, List, Option, some, ◌≡◌, refl, sym, ◌∙◌, inl, inr,
}
use toomoki_cdac_pds.StringMap.{get-set, get}
use toomoki_cdac_pds.StringMap.Keys.{IfFound}
use toomoki_cdac_pds.Ledger.Exec.{pure, modify, throw_if, ◌>>=◌}
use toomoki_cdac_pds.Ledger.Exec.Ends.{Ends, IfReturned, Ends-bind}
use toomoki_cdac_pds.Ledger.Cards
use toomoki_cdac_pds.Ledger.Record
use toomoki_cdac_pds.Ledger.Cards

abbrev pub Kept : RationCard → PdsLedger → Type 0
Kept c s = get s.ration_cards c.ration_card_hash ≡ some c

-- The last writes of the operations.
stored :
    (c : RationCard) (id : String) (body : Body)
    → Ends Kept
        (modify (set_card c) >>= λ _. record_event EntityType.rationcard id body >>= λ _. pure c)
unfolding ◌>>=◌ record_event record_event_with draw_timestamp draw_identifier
stored c id body = record {
  with = λ s.
      get-set s.ration_cards c.ration_card_hash c.ration_card_hash c
      ∙ rw (eq_refl c.ration_card_hash) refl;
}

-- A flag is raised between the write and the event.
stored_flagged :
    (c : RationCard) (t : AlertType) (e message : String) (evidence : List (String × Value))
    (id : String) (body : Body)
    → Ends Kept (
        modify (set_card c) >>= λ _. Record.raise_audit_flag t e message evidence >>= λ _.
        record_event EntityType.rationcard id body >>= λ _. pure c)
unfolding ◌>>=◌ record_event record_event_with draw_timestamp draw_identifier
    Record.raise_audit_flag
stored_flagged c t e message evidence id body = record {
  with = λ s.
      get-set s.ration_cards c.ration_card_hash c.ration_card_hash c
      ∙ rw (eq_refl c.ration_card_hash) refl;
}

pub issue-Kept : (input : IssueInput) → Ends Kept (Cards.issue_ration_card input)
unfolding Cards.issue_ration_card
issue-Kept input = search (Ends-bind, stored) depth 20

pub suspend-Kept :
    (hash reason : String) (at : Option String)
    → Ends Kept (Cards.suspend_ration_card hash reason at)
unfolding Cards.suspend_ration_card
suspend-Kept hash reason at = search (Ends-bind, stored_flagged) depth 20

pub transfer-Kept : (input : CardTransferInput) → Ends Kept (Cards.transfer_ration_card input)
unfolding Cards.transfer_ration_card
transfer-Kept input = search (Ends-bind, stored) depth 20

activate_card-Kept : (c : RationCard) → Ends Kept (activate_card c)
unfolding activate_card
activate_card-Kept c = search (Ends-bind, stored) depth 20

inactive-Kept :
    (hash : String) (c : RationCard)
    → Ends Kept (
        throw_if
          (toomoki_cdac_pds.SharedTypes.card_cancelled c.status)
          (toomoki_cdac_pds.Ledger.State.card_cancelled hash)
        >>= λ _. activate_card c)
inactive-Kept hash c = Ends-bind _ _ (λ _. activate_card-Kept c)

pub activate-Kept :
    (hash : String) (s : PdsLedger)
    → IfFound (λ c. c.ration_card_hash ≡ hash) (get s.ration_cards hash)
    → IfReturned Kept (Cards.activate_ration_card hash s)
unfolding Cards.activate_ration_card must_get_ration_card ◌>>=◌
activate-Kept hash s own = elim (Option-cases (get s.ration_cards hash)) [
  | inl absent ↦ rw absent tt
  | inr (c, e) ↦ elim (Bool-cases (card_active c.status)) [
    | inl active ↦
        rw (e, active)
          (subst (λ k. get s.ration_cards k ≡ some c)
            (sym (subst (IfFound (λ x. x.ration_card_hash ≡ hash)) e own)) e)
    | inr idle ↦ rw (e, idle) ((inactive-Kept hash c).with s)
  ]
]
