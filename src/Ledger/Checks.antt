-- ===== src/Ledger/Checks.antt =====
-- The guards that the methods share: lookups that throw, active stakeholders, hash references.
use toomoki_cdac_pds.Prelude.{String, not, none, some, ltb, if◌then◌else◌}
use toomoki_cdac_pds.Prelude.Text.{js_length, has_space, is_blank, is_raw_numeric_id, show, pad2}
use Prim.Native.Nat.{◌+◌}
use Prim.Native.String.{◌++◌}
use toomoki_cdac_pds.StringMap.{get}
use toomoki_cdac_pds.SharedTypes.{
  Stakeholder, CommodityLot, TransferOrder, FpsAllocation, RationCard, Grievance, EntitlementRule,
  is_active, is_transporter,
}
use toomoki_cdac_pds.Ledger.State.{
  EntitlementCell, Dates, not_found, stakeholder_inactive, not_a_transporter, transporter_required,
  not_a_hash, has_whitespace, raw_identifier, invalid_timestamp,
}
use toomoki_cdac_pds.Ledger.Exec.{
  Exec, Result, ok, err, pure, gets, or_throw, throw_if, ◌>>=◌, ◌>>◌,
}

-- `${entityId}:${commodity}`
unfoldable pub key_for : String → String → String
key_for entity_id commodity = entity_id ++ (":" ++ commodity)

unfoldable pub entitlement_key : String → String → String → String
entitlement_key ration_card_hash commodity month =
    ration_card_hash ++ (":" ++ (commodity ++ (":" ++ month)))

unfoldable pub must_get_lot : String → Exec CommodityLot
must_get_lot lot_id = do lot ← gets (λ s. get s.lots lot_id); or_throw lot (not_found "Lot" lot_id)

unfoldable pub must_get_transfer : String → Exec TransferOrder
must_get_transfer transfer_id = do
  transfer ← gets (λ s. get s.transfers transfer_id)
  or_throw transfer (not_found "Transfer" transfer_id)

unfoldable pub must_get_allocation : String → Exec FpsAllocation
must_get_allocation allocation_id = do
  allocation ← gets (λ s. get s.allocations allocation_id)
  or_throw allocation (not_found "Allocation" allocation_id)

unfoldable pub must_get_entitlement : String → String → String → Exec EntitlementCell
must_get_entitlement ration_card_hash commodity month = do
  cell ← gets (λ s. get s.entitlements (entitlement_key ration_card_hash commodity month))
  or_throw cell (not_found "Entitlement" ration_card_hash)

unfoldable pub must_get_ration_card : String → Exec RationCard
must_get_ration_card ration_card_hash = do
  card ← gets (λ s. get s.ration_cards ration_card_hash)
  or_throw card (not_found "Ration card" ration_card_hash)

unfoldable pub must_get_grievance : String → Exec Grievance
must_get_grievance grievance_id = do
  grievance ← gets (λ s. get s.grievances grievance_id)
  or_throw grievance (not_found "Grievance" grievance_id)

unfoldable pub must_get_entitlement_rule : String → Exec EntitlementRule
must_get_entitlement_rule rule_id = do
  rule ← gets (λ s. get s.entitlement_rules rule_id)
  or_throw rule (not_found "Entitlement rule" rule_id)

unfoldable pub assert_active_stakeholder : String → Exec (Unit {0})
assert_active_stakeholder stakeholder_id = do
  found ← gets (λ s. get s.stakeholders stakeholder_id)
  stakeholder ← or_throw found (not_found "Stakeholder" stakeholder_id)
  throw_if (not (is_active stakeholder.status)) (stakeholder_inactive stakeholder_id)

-- The lookup after the assertion finds what the assertion found.
unfoldable pub resolve_active_transporter : String → Exec Stakeholder
unfolding assert_active_stakeholder
resolve_active_transporter transporter_id = do
  throw_if (is_blank transporter_id) transporter_required
  assert_active_stakeholder transporter_id
  found ← gets (λ s. get s.stakeholders transporter_id)
  stakeholder ← or_throw found (not_found "Stakeholder" transporter_id)
  throw_if (not (is_transporter stakeholder.stakeholder_type)) (not_a_transporter transporter_id)
  pure stakeholder

-- `validateHashFormat`: a format check that keeps raw identifiers off the ledger.
unfoldable pub validate_hash_format : String → String → Result (Unit {0})
validate_hash_format value field =
    if ltb (js_length value) 8
    then err (not_a_hash field)
    else if has_space value
    then err (has_whitespace field)
    else if is_raw_numeric_id value
    then err (raw_identifier field)
    else ok tt

-- `monthFromTimestamp`: the `YYYY-MM` month of a timestamp.
unfoldable pub month_from_timestamp : Dates → String → Result String
month_from_timestamp dates timestamp = elim (dates.parse timestamp) [
  | none ↦ err (invalid_timestamp timestamp)
  | some time ↦ ok (show (dates.utc_full_year time) ++ ("-" ++ pad2 (dates.utc_month time + 1)))
]
