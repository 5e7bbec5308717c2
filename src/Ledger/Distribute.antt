-- ===== src/Ledger/Distribute.antt =====
-- `simulateAuthentication`, `createOrUpdateEntitlement`, `validateEntitlement`,
-- `checkDuplicateClaim` and `recordDistribution`.
use toomoki_cdac_pds.Prelude.{
  String, Bool, false, not, ◌&&◌, Option, none, some, [], ◌∷◌, map, str_eq, find, if◌then◌else◌,
}
use toomoki_cdac_pds.Prelude.Int.{ℤ, pos, ◌+ℤ◌, ◌-ℤ◌, leb_ℤ, ltb_ℤ}
use toomoki_cdac_pds.Prelude.Hash.{hash_reference}
use Prim.Native.String.{◌++◌}
use toomoki_cdac_pds.StringMap.{get, has, set, values}
use toomoki_cdac_pds.SharedTypes.{
  MonthlyEntitlement, AuthTransaction, DistributionTransaction, AuthMode, AuthResult, RationCard,
  RationCardType, EntitlementRule, AlertType, EntityType, Value, card_active, rule_active,
  same_category, needs_review,
}
use toomoki_cdac_pds.SharedTypes
use toomoki_cdac_pds.SharedTypes.Events.{Body, LedgerEvent}
use toomoki_cdac_pds.Ledger.State.{
  PdsLedger, EntitlementCell, already_exists, must_be_positive, exceeds_rule_cap, card_inactive,
  exceeds_balance, auth_failed, card_not_active,
}
use toomoki_cdac_pds.Ledger.Exec.{check, Exec, pure, throw, gets, throw_if, modify, ◌>>=◌, ◌>>◌}
use toomoki_cdac_pds.Ledger.Checks.{
  must_get_entitlement, validate_hash_format, month_from_timestamp, entitlement_key,
}
use toomoki_cdac_pds.Ledger.Record.{
  draw_timestamp, timestamp_or, record_event, record_event_with, raise_audit_flag, consume_stock,
}

abbrev pub set_auth : AuthTransaction → PdsLedger → PdsLedger
set_auth a s = record s { auth_transactions = set s.auth_transactions a.auth_txn_id a }

abbrev pub result_text : AuthResult → String
result_text AuthResult.success = "SUCCESS"
result_text AuthResult.failure = "FAILURE"
result_text AuthResult.exception_approved = "EXCEPTION_APPROVED"

-- The input is a transaction whose reference hash, timestamp and ledger id are not read.
unfoldable pub simulate_authentication : AuthTransaction → Exec AuthTransaction
simulate_authentication input = do
  known ← gets (λ s. has s.auth_transactions input.auth_txn_id)
  throw_if known (already_exists "Auth transaction" input.auth_txn_id)
  check (validate_hash_format input.beneficiary_ref_hash "beneficiaryRefHash")
  check (validate_hash_format input.ration_card_hash "rationCardHash")
  timestamp ← draw_timestamp
  let authentication : AuthTransaction = record input {
    auth_txn_ref_hash = hash_reference (
        input.auth_txn_id
        ++ (":" ++ (input.beneficiary_ref_hash ++ (":" ++ result_text input.auth_result))));
    timestamp = timestamp;
    ledger_tx_id = none;
  }
  modify (set_auth authentication)
  ledger_tx_id ←
      record_event EntityType.auth input.auth_txn_id (Body.auth_transaction authentication)
  let with_proof : AuthTransaction = record authentication { ledger_tx_id = some ledger_tx_id }
  modify (set_auth with_proof)
  pure with_proof

-- The active rule for a category and a commodity that comes first.
unfoldable pub active_rule : RationCardType → String → PdsLedger → Option EntitlementRule
active_rule category commodity s =
    find
      (λ r.
        rule_active r.status && same_category r.category category && str_eq r.commodity commodity)
      (values s.entitlement_rules)

-- Whether an active rule caps the category below the quantity.
unfoldable pub exceeds_cap : MonthlyEntitlement → PdsLedger → Bool
unfolding active_rule
exceeds_cap input s = elim input.category [
  | none ↦ false
  | some category ↦ elim (active_rule category input.commodity s) [
    | none ↦ false
    | some rule ↦ ltb_ℤ rule.monthly_kg input.monthly_entitlement_kg
  ]
]

abbrev pub key_of : MonthlyEntitlement → String
key_of e = entitlement_key e.ration_card_hash e.commodity e.month

-- A new object under its own key: no event holds it.
abbrev pub set_entitlement : MonthlyEntitlement → PdsLedger → PdsLedger
set_entitlement e s = record s {
  entitlements = set s.entitlements (key_of e) (record { entitlement = e; shared_with = none });
}

unfoldable pub create_or_update_entitlement : MonthlyEntitlement → Exec MonthlyEntitlement
create_or_update_entitlement input = do
  check (validate_hash_format input.ration_card_hash "rationCardHash")
  too_much ← gets (exceeds_cap input)
  throw_if too_much (exceeds_rule_cap input.commodity)
  ledger_tx_id ←
      record_event EntityType.distribution input.ration_card_hash
        (Body.create_monthly_entitlement input)
  let with_proof : MonthlyEntitlement = record input { ledger_tx_id = some ledger_tx_id }
  modify (set_entitlement with_proof)
  pure with_proof

unfoldable pub validate_entitlement : String → String → String → ℤ → Exec MonthlyEntitlement
validate_entitlement ration_card_hash commodity month requested = do
  cell ← must_get_entitlement ration_card_hash commodity month
  let entitlement = cell.entitlement
  throw_if (not entitlement.active) (card_inactive ration_card_hash)
  throw_if (ltb_ℤ entitlement.available_balance_kg requested) (exceeds_balance ration_card_hash)
  pure entitlement

-- Whether the claim is allowed, and the balance.
unfoldable pub check_duplicate_claim : String → String → String → ℤ → Exec (Bool × ℤ)
check_duplicate_claim ration_card_hash commodity month requested = do
  cell ← must_get_entitlement ration_card_hash commodity month
  pure
      (leb_ℤ requested cell.entitlement.available_balance_kg, cell.entitlement.available_balance_kg)

-- What a withdrawal does to an entitlement.
abbrev pub lift : ℤ → MonthlyEntitlement → MonthlyEntitlement
lift delivered e = record e {
  already_lifted_kg = e.already_lifted_kg +ℤ delivered;
  available_balance_kg = e.available_balance_kg -ℤ delivered;
}

-- The event whose payload is the changed object shows the change.
unfoldable pub show_in_event : Option String → MonthlyEntitlement → LedgerEvent → LedgerEvent
show_in_event none e event = event
show_in_event (some id) e event =
    if str_eq event.ledger_tx_id id
    then record event { body = Body.create_monthly_entitlement e }
    else event

-- A change of the object that the map holds under the key, in place.
unfoldable pub mutate_entitlement :
    String → EntitlementCell → MonthlyEntitlement → PdsLedger → PdsLedger
unfolding show_in_event
mutate_entitlement key cell e s = record s {
  entitlements =
      set s.entitlements key (record { entitlement = e; shared_with = cell.shared_with });
  events = map (show_in_event cell.shared_with e) s.events;
}

-- The input is a transaction whose timestamp stands beside it and whose ledger id is not read.
pub record DistributionInput : Type 0 where
  pub distribution : DistributionTransaction
  pub timestamp : Option String

-- A ration card that the ledger knows must be active.
abbrev pub card_blocked : Option RationCard → Bool
card_blocked none = false
card_blocked (some card) = not (card_active card.status)

-- A claim beyond the balance raises a flag, which stays, and throws.
unfoldable pub check_claim : DistributionTransaction → String → MonthlyEntitlement → Exec (Unit {0})
check_claim d month entitlement =
    if ltb_ℤ entitlement.available_balance_kg d.delivered_kg
    then (do
      raise_audit_flag AlertType.duplicate_claim d.ration_card_hash
          "Duplicate or over-entitlement claim blocked before distribution"
          (("rationCardHash", Value.text d.ration_card_hash)
            ∷ ("commodity", Value.text d.commodity)
            ∷ ("month", Value.text month)
            ∷ ("requestedQtyKg", Value.number d.delivered_kg)
            ∷ ("availableBalanceKg", Value.number entitlement.available_balance_kg)
            ∷ [])
      throw (exceeds_balance d.ration_card_hash))
    else pure tt

abbrev pub set_distribution : DistributionTransaction → PdsLedger → PdsLedger
set_distribution d s = record s { distributions = set s.distributions d.distribution_id d }

-- A supervisor's exception is flagged for review.
unfoldable pub flag_exception : DistributionTransaction → Exec (Unit {0})
flag_exception d =
    if needs_review d.auth_mode d.auth_result
    then (do
      raise_audit_flag AlertType.unauthorized_transaction d.distribution_id
          "Supervisor exception distribution requires auditor review"
          (("distributionId", Value.text d.distribution_id)
            ∷ ("rationCardHash", Value.text d.ration_card_hash)
            ∷ ("deliveredKg", Value.number d.delivered_kg)
            ∷ [])
      pure tt)
    else pure tt

-- The tests of `recordDistribution`: the timestamp in force, and the entitlement's key and cell.
unfoldable pub check_distribution : DistributionInput → Exec (String × String × EntitlementCell)
unfolding check_claim
check_distribution input = do
  let d = input.distribution
  known ← gets (λ s. has s.distributions d.distribution_id)
  throw_if known (already_exists "Distribution" d.distribution_id)
  throw_if (SharedTypes.auth_failed d.auth_result) auth_failed
  throw_if (leb_ℤ d.delivered_kg (pos 0)) (must_be_positive "deliveredKg")
  check (validate_hash_format d.ration_card_hash "rationCardHash")
  check (validate_hash_format d.beneficiary_ref_hash "beneficiaryRefHash")
  card ← gets (λ s. get s.ration_cards d.ration_card_hash)
  throw_if (card_blocked card) (card_not_active d.ration_card_hash)
  timestamp ← timestamp_or input.timestamp
  dates ← gets (λ s. s.runtime.dates)
  month ← check (month_from_timestamp dates timestamp)
  cell ← must_get_entitlement d.ration_card_hash d.commodity month
  check_claim d month cell.entitlement
  validate_entitlement d.ration_card_hash d.commodity cell.entitlement.month d.delivered_kg
  pure (timestamp, entitlement_key d.ration_card_hash d.commodity month, cell)

-- The writes. `distribution.ledgerTxId` is set after the event was recorded, on the object that
-- the event holds.
unfoldable pub commit_distribution :
    DistributionTransaction → String → EntitlementCell → Exec DistributionTransaction
unfolding mutate_entitlement flag_exception
commit_distribution d key cell = do
  consume_stock d.fps_id d.commodity d.delivered_kg
  modify (mutate_entitlement key cell (lift d.delivered_kg cell.entitlement))
  modify (set_distribution d)
  ledger_tx_id ←
      record_event_with EntityType.distribution d.distribution_id
        (λ id. Body.record_distribution (record d { ledger_tx_id = some id }))
  let with_proof : DistributionTransaction = record d { ledger_tx_id = some ledger_tx_id }
  modify (set_distribution with_proof)
  flag_exception with_proof
  pure with_proof

unfoldable pub record_distribution : DistributionInput → Exec DistributionTransaction
unfolding check_distribution commit_distribution
record_distribution input = do
  (timestamp, key, cell) ← check_distribution input
  commit_distribution (record input.distribution { timestamp = timestamp; ledger_tx_id = none }) key
      cell
