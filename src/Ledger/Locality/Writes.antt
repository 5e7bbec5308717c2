-- ===== src/Ledger/Locality/Writes.antt =====
-- The clock, the log and the writes to the maps keep ledgers in agreement.
use toomoki_cdac_pds.Ledger.Exec.{modify, gets}
use toomoki_cdac_pds.SharedTypes.Events.{LedgerEvent, Body}
use toomoki_cdac_pds.Ledger.State.{Runtime}
use toomoki_cdac_pds.Ledger.Grievances.{set_grievance}
use toomoki_cdac_pds.Ledger.Cards.{set_card}
use toomoki_cdac_pds.SharedTypes.{Value, AlertType, EntityType, Grievance, RationCard, AuditAlert}
use toomoki_cdac_pds.Ledger.Record.{
  set_alert, push_event, raise_audit_flag, record_event, record_event_with, timestamp_or,
  draw_identifier, draw_timestamp,
}
use toomoki_cdac_pds.Prelude.{Option, suc, String, List, ap, ◌∙◌, ◌++◌, [], ◌∷◌, some, none}
use mathlib.Core.List.{append_assoc}
use toomoki_cdac_pds.Ledger.Locality.{
  Local-pure, Local-gets, ok, local_rules, Keys, Agree, Same-set, SameLog, IsLocal, Local-modify,
}

SameLog-push :
    {before : List LedgerEvent × List LedgerEvent} (xs ys : List LedgerEvent) (e : LedgerEvent)
    → SameLog before xs ys
    → SameLog before (xs ++ e ∷ []) (ys ++ e ∷ [])
SameLog-push {before} xs ys e h = record {
  news = h.news ++ e ∷ [];
  left = ap (λ l. l ++ e ∷ []) h.left ∙ append_assoc before.0 h.news (e ∷ []);
  right = ap (λ l. l ++ e ∷ []) h.right ∙ append_assoc before.1 h.news (e ∷ []);
}

module _ {keys : Keys} {before : List LedgerEvent × List LedgerEvent} where
  pub draw_timestamp-Local : IsLocal keys before draw_timestamp
  unfolding draw_timestamp Agree
  draw_timestamp-Local = record {
    at = λ s p ((ru, ts, id, log), goods, claims, registers). (
      ap ok (
          ap (λ (r : Runtime). r.timestamp s.timestamps_drawn) ru
          ∙ ap (λ n. p.runtime.timestamp n) ts),
      ((ru, ap suc ts, id, log), goods, claims, registers),
    );
  }

  pub draw_identifier-Local : IsLocal keys before draw_identifier
  unfolding draw_identifier Agree
  draw_identifier-Local = record {
    at = λ s p ((ru, ts, id, log), goods, claims, registers). (
      ap ok (
          ap (λ (r : Runtime). r.identifier s.identifiers_drawn) ru
          ∙ ap (λ n. p.runtime.identifier n) id),
      ((ru, ts, ap suc id, log), goods, claims, registers),
    );
  }

  pub push_event-Local : (e : LedgerEvent) → IsLocal keys before (modify (push_event e))
  unfolding Agree
  push_event-Local e = Local-modify _ (λ s p ((ru, ts, id, log), goods, claims, registers).
      ((ru, ts, id, SameLog-push s.events p.events e log), goods, claims, registers))

  pub set_alert-Local : (x : AuditAlert) → IsLocal keys before (modify (set_alert x))
  unfolding Agree
  set_alert-Local x =
      Local-modify _ (λ s p (clock, goods, (auth_transactions, distributions, alerts), registers). (
        clock,
        goods,
        (
          auth_transactions,
          distributions,
          Same-set keys.alerts s.alerts p.alerts x.alert_id x alerts,
        ),
        registers,
      ))

  pub set_card-Local : (x : RationCard) → IsLocal keys before (modify (set_card x))
  unfolding Agree
  set_card-Local x =
      Local-modify _
        (λ s p (clock, goods, claims, (stakeholders, ration_cards, grievances, entitlement_rules)).
          (
            clock,
            goods,
            claims,
            (
              stakeholders,
              Same-set keys.ration_cards s.ration_cards p.ration_cards x.ration_card_hash x
                  ration_cards,
              grievances,
              entitlement_rules,
            ),
          ))

  pub set_grievance-Local : (x : Grievance) → IsLocal keys before (modify (set_grievance x))
  unfolding Agree
  set_grievance-Local x =
      Local-modify _
        (λ s p (clock, goods, claims, (stakeholders, ration_cards, grievances, entitlement_rules)).
          (
            clock,
            goods,
            claims,
            (
              stakeholders,
              ration_cards,
              Same-set keys.grievances s.grievances p.grievances x.grievance_id x grievances,
              entitlement_rules,
            ),
          ))

  pub timestamp_or-Local : (t : Option String) → IsLocal keys before (timestamp_or t)
  unfolding timestamp_or
  timestamp_or-Local none = draw_timestamp-Local
  timestamp_or-Local (some t) = Local-pure t

  pub record_event_with-Local :
      (t : EntityType) (id : String) (body : String → Body)
      → IsLocal keys before (record_event_with t id body)
  unfolding record_event_with
  record_event_with-Local t id body =
      search (local_rules, draw_timestamp-Local, draw_identifier-Local, push_event-Local) depth 20

  pub record_event-Local :
      (t : EntityType) (id : String) (body : Body) → IsLocal keys before (record_event t id body)
  unfolding record_event
  record_event-Local t id body = record_event_with-Local t id (λ _. body)

  pub raise_audit_flag-Local :
      (t : AlertType) (id message : String) (evidence : List (String × Value))
      → IsLocal keys before (raise_audit_flag t id message evidence)
  unfolding raise_audit_flag
  raise_audit_flag-Local t id message evidence =
      search
        (
          local_rules, draw_timestamp-Local, draw_identifier-Local, set_alert-Local,
          record_event-Local,
        )
        depth 20

  pub dates-Local : IsLocal keys before (gets (λ s. s.runtime.dates))
  unfolding Agree
  dates-Local = Local-gets _ (λ s p h. ap (λ (r : Runtime). r.dates) h.0.0)

pub ruleset write_rules = (
  local_rules, draw_timestamp-Local, draw_identifier-Local, push_event-Local, timestamp_or-Local,
  record_event_with-Local, record_event-Local, raise_audit_flag-Local, dates-Local, set_alert-Local,
  set_card-Local, set_grievance-Local,
)
