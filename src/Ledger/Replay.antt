-- ===== src/Ledger/Replay.antt =====
-- `applyLedgerEvent` and `projectEventToState`: events of other ledgers are applied to this one.
use toomoki_cdac_pds.Ledger.Rules.{set_rule}
use toomoki_cdac_pds.Ledger.Cards.{set_card}
use toomoki_cdac_pds.Ledger.Grievances.{set_grievance}
use toomoki_cdac_pds.Ledger.Distribute.{set_distribution, set_auth, key_of}
use toomoki_cdac_pds.Ledger.Allocate.{set_allocation}
use toomoki_cdac_pds.SharedTypes.{Value, MonthlyEntitlement, Grievance, CommodityLot}
use toomoki_cdac_pds.Prelude.{
  filter, ◌||◌, true, any, str_eq, false, truthy, find, Bool, ◌otherwise◌, if◌then◌else◌, not,
  String, Option, List, [], ◌∷◌, none, some, ◌++◌,
}
use toomoki_cdac_pds.StringMap.{get, set}
use toomoki_cdac_pds.SharedTypes.Events.{event_type, Approval, Body, LedgerEvent, ResetMarker}
use toomoki_cdac_pds.SharedTypes.Routes.{initial_demo_series_id}
use toomoki_cdac_pds.Ledger.State.{PdsLedger, unsupported_event, prohibited_field, cannot_project}
use toomoki_cdac_pds.Ledger.Exec.{Exec, pure, throw, gets, throw_if, modify, ◌>>=◌, ◌>>◌}
use toomoki_cdac_pds.Ledger.Checks.{key_for}
use toomoki_cdac_pds.Ledger.Record.{set_alert, push_event}
use toomoki_cdac_pds.Ledger.Reset.{apply_transactional_reset, has_id, preserved_entity}
use toomoki_cdac_pds.Ledger.Dispatch.{set_transfer}
use toomoki_cdac_pds.Ledger.Lots.{set_stakeholder, set_lot}
use toomoki_cdac_pds.Ledger.Receive.{stamped}

-- The event types whose payloads change the ledger.
abbrev pub projected_types : List String
projected_types =
    "RegisterStakeholder" ∷ "CreateCommodityLot" ∷ "AuthorizeMovement" ∷ "DispatchLot"
    ∷ "ReceiveLot" ∷ "AllocateToFPS" ∷ "RecordFPSReceipt" ∷ "AuthTransaction"
    ∷ "CreateMonthlyEntitlement" ∷ "RecordDistribution" ∷ "RaiseAuditFlag" ∷ "ResolveAuditFlag"
    ∷ "IssueRationCard" ∷ "ActivateRationCard" ∷ "SuspendRationCard" ∷ "TransferRationCard"
    ∷ "FileGrievance" ∷ "AcknowledgeGrievance" ∷ "ResolveGrievance" ∷ "EscalateOverdueGrievances"
    ∷ "ProposeEntitlementRule" ∷ "ApproveEntitlementRule" ∷ "RolloverUnclaimedQuota"
    ∷ "ResetTransactionalData" ∷ []

-- The event types that are kept as evidence only.
abbrev pub evidence_types : List String
evidence_types =
    "EligibilityNoticeIssued" ∷ "EligibilityVerificationRecorded"
    ∷ "EligibilityRecommendationRecorded" ∷ "EligibilityAppealOpened"
    ∷ "EligibilityDecisionAuthorized" ∷ "EligibilityDecisionReversed" ∷ "BENEFICIARY_CREATED"
    ∷ "MEMBER_ADDED" ∷ "MEMBER_REMOVED" ∷ "HOUSEHOLD_BIFURCATED" ∷ "MIGRATION_RECORDED"
    ∷ "CARD_TRANSFERRED" ∷ "VERIFICATION_COMPLETED" ∷ "STATUS_CHANGED" ∷ "RECORD_DEACTIVATED"
    ∷ "MASTER_REFERENCE" ∷ "ALLOCATION" ∷ "MOVEMENT" ∷ "DISTRIBUTION" ∷ "IntegrationReconciliation"
    ∷ []

-- `ALLOWED_LEDGER_EVENT_TYPES`
abbrev pub allowed_ledger_event_types : List String
allowed_ledger_event_types = projected_types ++ evidence_types

-- `assertAllowedLedgerEventType`
unfoldable pub is_allowed : Body → Bool
unfolding event_type
is_allowed body = has_id allowed_ledger_event_types (event_type body)

-- `PII_DENYLIST`
abbrev pub pii_denylist : List String
pii_denylist = "aadhaar" ∷ "mobile" ∷ "otp" ∷ "rationCard" ∷ "rationCardNumber" ∷ "phone" ∷ []

-- Whether `field in payload`: no payload that the engine knows has a field of the denylist, so
-- only the further fields count.
abbrev has_field : List (String × Value) → String → Bool
has_field [] field = false
has_field ((name, _) ∷ rest) field = if str_eq name field then true else has_field rest field

-- The prohibited field that `assertNoPiiInPayload` finds.
unfoldable pub prohibited_in : LedgerEvent → Option String
prohibited_in event = find (has_field event.extras) pii_denylist

-- The transfer that the approval names is stamped, under its own id.
unfoldable pub project_approval : Approval → PdsLedger → PdsLedger
project_approval a s =
    if truthy (some a.transfer_id)
    then elim (get s.transfers a.transfer_id) [
      | none ↦ s
      | some transfer ↦ set_transfer (stamped transfer a.authorized_by a.authorized_at a.ro_ref) s
    ]
    else s

-- A lot that is no slice of another opens its owner's stock position.
unfoldable pub project_lot : CommodityLot → PdsLedger → PdsLedger
project_lot lot s =
    let placed = set_lot lot s in
    if truthy lot.parent_lot_id then placed else record placed {
      stock = set s.stock (key_for lot.current_owner lot.commodity) lot.quantity_kg;
    }

unfoldable pub project_grievance : Grievance → PdsLedger → PdsLedger
project_grievance g s = if truthy (some g.grievance_id) then set_grievance g s else s

-- The end state of a reset. `candidate === event` is told by the id, which no other event has.
unfoldable pub project_reset : ResetMarker → LedgerEvent → PdsLedger → PdsLedger
project_reset marker event s =
    let series_id = marker.series_id otherwise initial_demo_series_id in
    let (affected, after) =
      apply_transactional_reset marker.commodity (record s { series_id = series_id }) in
    let keeps : LedgerEvent → Bool = λ candidate.
      str_eq candidate.ledger_tx_id event.ledger_tx_id
      || (if truthy marker.commodity
          then not (has_id affected candidate.entity_id)
          else preserved_entity candidate.entity_type) in
    record after { events = filter keeps after.events }

-- The payload's object is the one that the map holds from now on.
abbrev pub project_entitlement : MonthlyEntitlement → LedgerEvent → PdsLedger → PdsLedger
project_entitlement e event s = record s {
  entitlements =
      set s.entitlements (key_of e)
        (record { entitlement = e; shared_with = some event.ledger_tx_id });
}

-- `projectEventToState`
unfoldable pub project_event_to_state : LedgerEvent → Body → Exec (Unit {0})
unfolding project_approval project_lot project_grievance project_reset
project_event_to_state event (Body.register_stakeholder x) = modify (set_stakeholder x)
project_event_to_state event (Body.create_commodity_lot lot) = modify (project_lot lot)
project_event_to_state event (Body.authorize_movement a) = modify (project_approval a)
project_event_to_state event (Body.dispatch_lot t) = modify (set_transfer t)
project_event_to_state event (Body.receive_lot t) = modify (set_transfer t)
project_event_to_state event (Body.allocate_to_fps a) = modify (set_allocation a)
project_event_to_state event (Body.record_fps_receipt a) = modify (set_allocation a)
project_event_to_state event (Body.auth_transaction a) = modify (set_auth a)
project_event_to_state event (Body.create_monthly_entitlement e) =
    modify (project_entitlement e event)
project_event_to_state event (Body.record_distribution d) = modify (set_distribution d)
project_event_to_state event (Body.raise_audit_flag a) = modify (set_alert a)
project_event_to_state event (Body.resolve_audit_flag a) = modify (set_alert a)
project_event_to_state event (Body.issue_ration_card card) = modify (set_card card)
project_event_to_state event (Body.activate_ration_card card) = modify (set_card card)
project_event_to_state event (Body.suspend_ration_card card) = modify (set_card card)
project_event_to_state event (Body.transfer_ration_card card) = modify (set_card card)
project_event_to_state event (Body.file_grievance g) = modify (project_grievance g)
project_event_to_state event (Body.acknowledge_grievance g) = modify (project_grievance g)
project_event_to_state event (Body.resolve_grievance g) = modify (project_grievance g)
project_event_to_state event (Body.escalate_overdue_grievances ids at) = pure tt
project_event_to_state event (Body.propose_entitlement_rule r) = modify (set_rule r)
project_event_to_state event (Body.approve_entitlement_rule r) = modify (set_rule r)
project_event_to_state event (Body.rollover_unclaimed_quota x) = pure tt
project_event_to_state event (Body.reset_transactional_data marker) =
    modify (project_reset marker event)
project_event_to_state event (Body.other t) =
    throw_if (not (has_id evidence_types t)) (cannot_project t)

-- Whether the ledger holds an event with the id.
abbrev pub knows_event : String → PdsLedger → Bool
knows_event id s = any (λ e. str_eq e.ledger_tx_id id) s.events

abbrev refuse : Option String → Exec (Unit {0})
refuse none = pure tt
refuse (some field) = throw (prohibited_field field)

-- The checks, the push and the projection of an event that is new.
unfoldable pub admit_event : LedgerEvent → Exec (Unit {0})
unfolding is_allowed prohibited_in project_event_to_state
admit_event event = do
  throw_if (not (is_allowed event.body)) (unsupported_event (event_type event.body))
  refuse (prohibited_in event)
  modify (push_event event)
  project_event_to_state event event.body

-- `applyLedgerEvent`: an event that is known is passed over.
unfoldable pub apply_ledger_event : LedgerEvent → Exec String
unfolding admit_event
apply_ledger_event event = do
  known ← gets (knows_event event.ledger_tx_id)
  (if known then pure tt else admit_event event)
  pure event.ledger_tx_id
