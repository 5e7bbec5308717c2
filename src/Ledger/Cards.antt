-- ===== src/Ledger/Cards.antt =====
-- The ration card operations: issue, activate, suspend, transfer.
use Prim.Native.String.{String, ◌++◌ as append}
use toomoki_cdac_pds.Prelude.{
  ◌++◌, ◌∷◌, str_eq, ◌&&◌, filter, some, none, if◌then◌else◌, false, List, not, Option, true, Bool,
  [],
}
use toomoki_cdac_pds.StringMap.{has, set}
use toomoki_cdac_pds.SharedTypes.{
  Value, card_active, RationCard, EntityType, AlertType, RationCardType, RationCardStatus,
  CardTransfer,
}
use toomoki_cdac_pds.SharedTypes.Events.{LedgerEvent, Body}
use toomoki_cdac_pds.SharedTypes
use toomoki_cdac_pds.Ledger.State.{
  card_cancelled, card_cancelled, PdsLedger, already_exists, card_not_active,
}
use toomoki_cdac_pds.Ledger.Checks.{
  assert_active_stakeholder, validate_hash_format, must_get_ration_card,
}
use toomoki_cdac_pds.Ledger.Record.{raise_audit_flag, timestamp_or, record_event}
use toomoki_cdac_pds.Ledger.Exec.{Exec, pure, check, gets, throw_if, modify, ◌>>=◌, ◌>>◌}

abbrev is_card_entity : EntityType → Bool
is_card_entity EntityType.rationcard = true
is_card_entity _ = false

abbrev pub set_card : RationCard → PdsLedger → PdsLedger
set_card card s = record s { ration_cards = set s.ration_cards card.ration_card_hash card }

pub record IssueInput : Type 0 where
  pub ration_card_hash : String
  pub card_type : RationCardType
  pub assigned_fps_id : String
  pub issued_at : Option String

unfoldable pub issue_ration_card : IssueInput → Exec RationCard
issue_ration_card input = do
  check (validate_hash_format input.ration_card_hash "rationCardHash")
  known ← gets (λ s. has s.ration_cards input.ration_card_hash)
  throw_if known (already_exists "Ration card" input.ration_card_hash)
  issued_at ← timestamp_or input.issued_at
  let card : RationCard = record {
    ration_card_hash = input.ration_card_hash;
    card_type = input.card_type;
    assigned_fps_id = input.assigned_fps_id;
    issued_at = issued_at;
    status = RationCardStatus.issued;
    suspended_at = none;
    suspend_reason = none;
    cancelled_at = none;
    transfer_history = [];
  }
  modify (set_card card)
  record_event EntityType.rationcard card.ration_card_hash (Body.issue_ration_card card)
  pure card

-- Marks a card active and records it.
unfoldable pub activate_card : RationCard → Exec RationCard
activate_card card = do
  let updated : RationCard = record card { status = RationCardStatus.active }
  modify (set_card updated)
  record_event EntityType.rationcard updated.ration_card_hash (Body.activate_ration_card updated)
  pure updated

-- An active card comes back as it is, with no event.
unfoldable pub activate_ration_card : String → Exec RationCard
unfolding activate_card
activate_ration_card ration_card_hash = do
  card ← must_get_ration_card ration_card_hash
  if card_active card.status then pure card else (do
    throw_if (SharedTypes.card_cancelled card.status) (card_cancelled ration_card_hash)
    activate_card card)

unfoldable pub suspend_ration_card : String → String → Option String → Exec RationCard
suspend_ration_card ration_card_hash suspend_reason suspended_at = do
  card ← must_get_ration_card ration_card_hash
  throw_if (SharedTypes.card_cancelled card.status) (card_cancelled ration_card_hash)
  at ← timestamp_or suspended_at
  let updated : RationCard = record card {
    status = RationCardStatus.suspended;
    suspended_at = some at;
    suspend_reason = some suspend_reason;
  }
  modify (set_card updated)
  raise_audit_flag AlertType.unauthorized_transaction updated.ration_card_hash
      (append "Ration card suspended: " suspend_reason)
      (("rationCardHash", Value.text updated.ration_card_hash)
        ∷ ("suspendReason", Value.text suspend_reason)
        ∷ [])
  record_event EntityType.rationcard updated.ration_card_hash (Body.suspend_ration_card updated)
  pure updated

pub record CardTransferInput : Type 0 where
  pub ration_card_hash : String
  pub to_fps_id : String
  pub authorized_by : String
  pub transferred_at : Option String

unfoldable pub transfer_ration_card : CardTransferInput → Exec RationCard
transfer_ration_card input = do
  card ← must_get_ration_card input.ration_card_hash
  throw_if (not (card_active card.status)) (card_not_active input.ration_card_hash)
  assert_active_stakeholder input.to_fps_id
  at ← timestamp_or input.transferred_at
  let entry : CardTransfer = record {
    from_fps = card.assigned_fps_id;
    to_fps = input.to_fps_id;
    at = at;
    authorized_by = input.authorized_by;
  }
  let updated : RationCard = record card {
    assigned_fps_id = input.to_fps_id;
    transfer_history = card.transfer_history ++ entry ∷ [];
  }
  modify (set_card updated)
  record_event EntityType.rationcard updated.ration_card_hash (Body.transfer_ration_card updated)
  pure updated

-- `getRationCardHistory`
unfoldable pub get_ration_card_history : String → PdsLedger → List LedgerEvent
get_ration_card_history ration_card_hash s =
    filter (λ e. is_card_entity e.entity_type && str_eq e.entity_id ration_card_hash) s.events
