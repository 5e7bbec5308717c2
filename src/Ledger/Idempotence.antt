-- ===== src/Ledger/Idempotence.antt =====
-- An event that was applied is passed over the second time.
use toomoki_cdac_pds.Prelude.{
  if◌then◌else◌, String, List, Option, Bool, ◌≡◌, refl, ◌∙◌, [], ◌∷◌, ◌++◌, true, false, inl, inr,
  Bool-cases, Option-cases, arith, str_eq, eq_refl, any, filter, map, truthy,
}
use toomoki_cdac_pds.StringMap.{StringMap}
use toomoki_cdac_pds.SharedTypes.{MonthlyEntitlement, Grievance, CommodityLot}
use toomoki_cdac_pds.SharedTypes.Events.{Approval, Body, LedgerEvent, ResetMarker}
use toomoki_cdac_pds.Ledger.State.{PdsLedger, EntitlementCell}
use toomoki_cdac_pds.Ledger.Exec.{◌>>◌, Result, ok, err, continue, pure, ◌>>=◌}
use toomoki_cdac_pds.Ledger.Exec.Keeps.{Keeps, Keeps-modify, Keeps-pure, Keeps-throw_if}
use toomoki_cdac_pds.Ledger.Record.{push_event}
use toomoki_cdac_pds.Ledger.Distribute.{show_in_event}
use toomoki_cdac_pds.Ledger.Reset.{
  show_cells, restore_entitlements, apply_transactional_reset, reset_all, reset_commodity,
}
use toomoki_cdac_pds.Ledger.Replay.{
  knows_event, project_reset, project_event_to_state, project_lot, project_approval,
  project_grievance, admit_event, apply_ledger_event, is_allowed, prohibited_in,
}

abbrev known_in : String → List LedgerEvent → Bool
known_in id es = any (λ e. str_eq e.ledger_tx_id id) es

known_in-push :
    (e : LedgerEvent) (es : List LedgerEvent) → known_in e.ledger_tx_id (es ++ e ∷ []) ≡ true
known_in-push e [] = ground (arith, eq_refl e.ledger_tx_id)
known_in-push e (x ∷ es) = ground (arith, known_in-push e es)

show_in_event-id :
    (o : Option String) (x : MonthlyEntitlement) (e : LedgerEvent)
    → (show_in_event o x e).ledger_tx_id ≡ e.ledger_tx_id
unfolding show_in_event
show_in_event-id o x e = ground arith

known_in-show :
    (id : String) (o : Option String) (x : MonthlyEntitlement) (es : List LedgerEvent)
    → known_in id (map (show_in_event o x) es) ≡ known_in id es
known_in-show id o x [] = refl
known_in-show id o x (e ∷ es) = rw (show_in_event-id o x e) (rw (known_in-show id o x es) refl)

known_in-show_cells :
    (id : String) (cells : StringMap EntitlementCell) (es : List LedgerEvent)
    → known_in id (show_cells cells es) ≡ known_in id es
unfolding show_cells
known_in-show_cells id [] es = refl
known_in-show_cells id ((k, c) ∷ cells) es =
    known_in-show_cells id cells _ ∙ known_in-show id c.shared_with c.entitlement es

reset-knows :
    (id : String) (commodity : Option String) (s : PdsLedger)
    → knows_event id (apply_transactional_reset commodity s).1 ≡ knows_event id s
unfolding apply_transactional_reset reset_all reset_commodity restore_entitlements
reset-knows id commodity s = elim (Bool-cases (truthy commodity)) [
  | inl one ↦ rw (one, apply_transactional_reset) (search known_in-show_cells)
  | inr all ↦ rw (all, apply_transactional_reset) (search known_in-show_cells)
]

known_in-filter :
    (id : String) (keeps : LedgerEvent → Bool) (es : List LedgerEvent)
    → ((e : LedgerEvent) → str_eq e.ledger_tx_id id ≡ true → keeps e ≡ true)
    → known_in id es ≡ true
    → known_in id (filter keeps es) ≡ true
known_in-filter id keeps [] own h = h
known_in-filter id keeps (e ∷ es) own h = ground (arith, own e, known_in-filter id keeps es own)

project_reset-knows :
    (marker : ResetMarker) (event : LedgerEvent) (s : PdsLedger)
    → knows_event event.ledger_tx_id s ≡ true
    → knows_event event.ledger_tx_id (project_reset marker event s) ≡ true
unfolding project_reset
project_reset-knows marker event s h =
    known_in-filter event.ledger_tx_id _ _ (λ e own. ground (arith, own))
      (reset-knows event.ledger_tx_id marker.commodity _ ∙ h)

-- The ledger holds the event.
unfoldable Knows : String → PdsLedger → Type 0
Knows id s = knows_event id s ≡ true

lot_case :
    (id : String) (lot : CommodityLot) (s : PdsLedger)
    → knows_event id s ≡ true
    → knows_event id (project_lot lot s) ≡ true
unfolding project_lot
lot_case id lot s h = ground (arith, h)

approval_case :
    (id : String) (a : Approval) (s : PdsLedger)
    → knows_event id s ≡ true
    → knows_event id (project_approval a s) ≡ true
unfolding project_approval
approval_case id a s h = ground (arith, h)

grievance_case :
    (id : String) (g : Grievance) (s : PdsLedger)
    → knows_event id s ≡ true
    → knows_event id (project_grievance g s) ≡ true
unfolding project_grievance
grievance_case id g s h = ground (arith, h)

project-Knows :
    (event : LedgerEvent) (body : Body)
    → Keeps (Knows event.ledger_tx_id) (project_event_to_state event body)
unfolding project_event_to_state Knows
project-Knows event (Body.create_commodity_lot lot) =
    Keeps-modify _ (λ s h. lot_case event.ledger_tx_id lot s h)
project-Knows event (Body.authorize_movement a) =
    Keeps-modify _ (λ s h. approval_case event.ledger_tx_id a s h)
project-Knows event (Body.file_grievance g) =
    Keeps-modify _ (λ s h. grievance_case event.ledger_tx_id g s h)
project-Knows event (Body.acknowledge_grievance g) =
    Keeps-modify _ (λ s h. grievance_case event.ledger_tx_id g s h)
project-Knows event (Body.resolve_grievance g) =
    Keeps-modify _ (λ s h. grievance_case event.ledger_tx_id g s h)
project-Knows event (Body.escalate_overdue_grievances ids at) = Keeps-pure tt
project-Knows event (Body.rollover_unclaimed_quota x) = Keeps-pure tt
project-Knows event (Body.reset_transactional_data marker) =
    Keeps-modify _ (λ s h. project_reset-knows marker event s h)
project-Knows event (Body.other t) = Keeps-throw_if _ _
project-Knows event (Body.register_stakeholder x) = Keeps-modify _ (λ s h. h)
project-Knows event (Body.dispatch_lot x) = Keeps-modify _ (λ s h. h)
project-Knows event (Body.receive_lot x) = Keeps-modify _ (λ s h. h)
project-Knows event (Body.allocate_to_fps x) = Keeps-modify _ (λ s h. h)
project-Knows event (Body.record_fps_receipt x) = Keeps-modify _ (λ s h. h)
project-Knows event (Body.auth_transaction x) = Keeps-modify _ (λ s h. h)
project-Knows event (Body.create_monthly_entitlement x) = Keeps-modify _ (λ s h. h)
project-Knows event (Body.record_distribution x) = Keeps-modify _ (λ s h. h)
project-Knows event (Body.raise_audit_flag x) = Keeps-modify _ (λ s h. h)
project-Knows event (Body.resolve_audit_flag x) = Keeps-modify _ (λ s h. h)
project-Knows event (Body.issue_ration_card x) = Keeps-modify _ (λ s h. h)
project-Knows event (Body.activate_ration_card x) = Keeps-modify _ (λ s h. h)
project-Knows event (Body.suspend_ration_card x) = Keeps-modify _ (λ s h. h)
project-Knows event (Body.transfer_ration_card x) = Keeps-modify _ (λ s h. h)
project-Knows event (Body.propose_entitlement_rule x) = Keeps-modify _ (λ s h. h)
project-Knows event (Body.approve_entitlement_rule x) = Keeps-modify _ (λ s h. h)

-- The event is known once the application returned.
abbrev KnownIfOk : String → Result (Unit {0}) × PdsLedger → Type 0
KnownIfOk id (ok _, s) = Knows id s
KnownIfOk id (err _, s) = Unit

known-KnownIfOk :
    (id : String) (r : Result (Unit {0})) (s : PdsLedger) → Knows id s → KnownIfOk id (r, s)
known-KnownIfOk id (ok _) s h = h
known-KnownIfOk id (err _) s h = tt

pushed-Knows : (event : LedgerEvent) (s : PdsLedger) → Knows event.ledger_tx_id (push_event event s)
unfolding Knows
pushed-Knows event s = known_in-push event s.events

admit-known :
    (event : LedgerEvent) (s : PdsLedger) → KnownIfOk event.ledger_tx_id (admit_event event s)
unfolding admit_event ◌>>=◌
admit-known event s = elim (Bool-cases (is_allowed event.body)) [
  | inr foreign ↦ rw foreign tt
  | inl allowed ↦ elim (Option-cases (prohibited_in event)) [
    | inr (field, e) ↦ rw (allowed, e) tt
    | inl clean ↦
        rw (allowed, clean)
          (let after = push_event event s in
            let (r, s') = project_event_to_state event event.body after in
            known-KnownIfOk event.ledger_tx_id r s'
              ((project-Knows event event.body).after after (pushed-Knows event s)))
  ]
]

known-apply :
    (event : LedgerEvent) (s : PdsLedger)
    → Knows event.ledger_tx_id s
    → apply_ledger_event event s ≡ (ok event.ledger_tx_id, s)
unfolding apply_ledger_event ◌>>=◌ Knows
known-apply event s h = rw h refl

after_admission :
    (id : String) (r : Result (Unit {0})) (s : PdsLedger)
    → KnownIfOk id (r, s)
    → (continue r (λ _. pure id) s).0 ≡ ok id
    → Knows id (continue r (λ _. pure id) s).1
unfolding ◌>>=◌
after_admission id (ok _) s h returned = h
after_admission id (err e) s h returned = cc

passed-Knows :
    (event : LedgerEvent) (s : PdsLedger) (known : Bool)
    → (known ≡ true → Knows event.ledger_tx_id s)
    → (((if known then pure tt else admit_event event) >> pure event.ledger_tx_id) s).0
      ≡ ok event.ledger_tx_id
    → Knows event.ledger_tx_id
        (((if known then pure tt else admit_event event) >> pure event.ledger_tx_id) s).1
unfolding ◌>>=◌
passed-Knows event s true h returned = h refl
passed-Knows event s false h returned =
    let admitted = admit-known event s in
    let (r, s') = admit_event event s in after_admission event.ledger_tx_id r s' admitted returned

applied-Knows :
    (event : LedgerEvent) (s : PdsLedger)
    → (apply_ledger_event event s).0 ≡ ok event.ledger_tx_id
    → Knows event.ledger_tx_id (apply_ledger_event event s).1
unfolding apply_ledger_event ◌>>=◌ Knows
applied-Knows event s returned =
    passed-Knows event s (knows_event event.ledger_tx_id s) (λ known. known) returned

-- An event whose application returned changes nothing when it is applied again, and is returned
-- again.
pub apply_ledger_event-twice :
    (event : LedgerEvent) (s : PdsLedger)
    → (apply_ledger_event event s).0 ≡ ok event.ledger_tx_id
    → apply_ledger_event event (apply_ledger_event event s).1
      ≡ (ok event.ledger_tx_id, (apply_ledger_event event s).1)
apply_ledger_event-twice event s returned =
    known-apply event (apply_ledger_event event s).1 (applied-Knows event s returned)
