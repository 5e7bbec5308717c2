-- ===== src/Ledger/Dispatch.antt =====
-- `dispatchLot`.
use toomoki_cdac_pds.Prelude.{
  String, Bool, false, not, ◌&&◌, ◌||◌, Option, none, some, [], ◌∷◌, str_eq, is_some, truthy,
  non_empty, filter, find, sort_by, first, ◌otherwise◌, if◌then◌else◌,
}
use toomoki_cdac_pds.Prelude.Int.{ℤ, pos, leb_ℤ, ltb_ℤ}
use Prim.Native.String.{◌++◌}
use toomoki_cdac_pds.StringMap.{has, set, values}
use toomoki_cdac_pds.SharedTypes.{
  Stakeholder, CommodityLot, LotStatus, LotKind, TransferOrder, TransferStatus, Stage,
  ApprovalStatus, AlertType, EntityType, Value, lot_in_transit, is_stage_ii,
}
use toomoki_cdac_pds.SharedTypes.Events.{Approval, Body, LedgerEvent}
use toomoki_cdac_pds.SharedTypes.Routes.{is_commodity_route_edge_allowed}
use toomoki_cdac_pds.Ledger.State.{
  PdsLedger, already_exists, must_be_positive, lot_owned_by_other, exceeds_remaining,
  route_not_allowed, stage_ii_unauthorized,
}
use toomoki_cdac_pds.Ledger.State
use toomoki_cdac_pds.Ledger.Exec.{or_throw, Exec, pure, throw, gets, throw_if, modify, ◌>>=◌, ◌>>◌}
use toomoki_cdac_pds.Ledger.Checks.{
  must_get_lot, assert_active_stakeholder, resolve_active_transporter,
}
use toomoki_cdac_pds.Ledger.Record.{timestamp_or, record_event, raise_audit_flag, consume_stock}
use toomoki_cdac_pds.Ledger.Lots.{available_on, root_of, split_lot_for_partial_dispatch}

pub record DispatchInput : Type 0 where
  pub transfer_id : String
  pub lot_id : String
  pub from_org : String
  pub to_org : String
  pub dispatched_qty_kg : ℤ
  pub vehicle_no : String
  pub dispatch_timestamp : Option String
  pub stage : Option Stage
  pub ro_ref : Option String
  pub authorized_by : Option String
  pub transporter_id : String
  pub transformed_from_lot_id : Option String

abbrev names : Option String → String → Bool
names none id = false
names (some j) id = str_eq j id

-- Whether a lot is a slice of the same stock that the sender holds and that suffices.
unfoldable pub is_owned_slice : DispatchInput → CommodityLot → CommodityLot → Bool
is_owned_slice input lot item =
    str_eq item.commodity lot.commodity
    && str_eq item.current_owner input.from_org
    && not (lot_in_transit item.status)
    && leb_ℤ input.dispatched_qty_kg (available_on item)
    && (names item.root_lot_id (root_of lot)
        || names item.parent_lot_id lot.lot_id
        || str_eq item.lot_id (root_of lot))

-- The first slice in the order of lot ids.
unfoldable pub owned_slice : DispatchInput → CommodityLot → PdsLedger → Option CommodityLot
unfolding is_owned_slice
owned_slice input lot s = first (
    sort_by (λ left right. s.runtime.locale_le left.lot_id right.lot_id)
      (filter (is_owned_slice input lot) (values s.lots)))

-- The lot that the dispatch takes from: the one named, or a slice that the sender owns.
unfoldable pub choose_lot : DispatchInput → CommodityLot → Exec CommodityLot
unfolding owned_slice
choose_lot input lot = if str_eq lot.current_owner input.from_org then pure lot else (do
  slice ← gets (owned_slice input lot)
  or_throw slice (lot_owned_by_other lot.lot_id lot.current_owner input.from_org))

abbrev lot_kind : CommodityLot → LotKind
lot_kind lot = if truthy lot.transformed_from_lot_id then LotKind.transformed else LotKind.source

-- Whether an event authorizes the transfer.
abbrev authorizes : String → LedgerEvent → Bool
authorizes transfer_id event = elim event.body [
  | Body.authorize_movement a ↦ str_eq event.entity_id transfer_id && truthy (some a.authorized_by)
  | _ ↦ false
]

abbrev approval_in : LedgerEvent → Option Approval
approval_in event = elim event.body [ Body.authorize_movement a ↦ some a | _ ↦ none ]

-- `priorAuthorization`, by its payload.
unfoldable pub prior_authorization : String → PdsLedger → Option Approval
prior_authorization transfer_id s = elim (find (authorizes transfer_id) s.events) [
  | none ↦ none
  | some e ↦ approval_in e
]

abbrev pub lacks_authorization : DispatchInput → Option Approval → Bool
lacks_authorization input prior =
    elim input.stage [ none ↦ false | some stage ↦ is_stage_ii stage ]
    && (not (truthy input.ro_ref) || (not (truthy input.authorized_by) && not (is_some prior)))

-- A Stage-II dispatch without authorization raises a flag, which stays, and throws.
unfoldable pub check_stage_ii : DispatchInput → CommodityLot → Option Approval → Exec (Unit {0})
check_stage_ii input lot prior =
    if lacks_authorization input prior
    then (do
      raise_audit_flag AlertType.unauthorized_transaction input.transfer_id
          "Stage-II dispatch requires RO-lite authorization"
          (("transferId", Value.text input.transfer_id)
            ∷ ("lotId", Value.text input.lot_id)
            ∷ ("roRef", Value.text (input.ro_ref otherwise ""))
            ∷ ("authorized", Value.flag false)
            ∷ [])
      throw stage_ii_unauthorized)
    else pure tt

-- `{}` without an authorization; else who gave it, and when if that is known.
abbrev pub authorized_by_of : DispatchInput → Option Approval → Option String
authorized_by_of input none = non_empty input.authorized_by
authorized_by_of input (some a) =
    if truthy input.authorized_by
    then input.authorized_by
    else if truthy (some a.authorized_by)
    then some (input.authorized_by otherwise a.authorized_by)
    else none

abbrev pub authorized_at_of : DispatchInput → Option Approval → Option String
authorized_at_of input none = non_empty input.dispatch_timestamp
authorized_at_of input (some a) =
    if truthy (some a.authorized_at) || truthy input.dispatch_timestamp
    then some a.authorized_at
    else none

abbrev pub transfer_of :
    DispatchInput → Stakeholder → Option Approval → String → String → TransferOrder
transfer_of input transporter prior moving_lot_id dispatch_timestamp =
    let by = authorized_by_of input prior in
    record {
      transfer_id = input.transfer_id;
      lot_id = moving_lot_id;
      from_org = input.from_org;
      to_org = input.to_org;
      dispatched_qty_kg = input.dispatched_qty_kg;
      received_qty_kg = none;
      shortage_qty_kg = none;
      vehicle_no = input.vehicle_no;
      status = TransferStatus.dispatched;
      dispatch_timestamp = dispatch_timestamp;
      receive_timestamp = none;
      stage = input.stage;
      authorized_by = by;
      authorized_at = if is_some by then authorized_at_of input prior else none;
      approval_status = if is_some by then some ApprovalStatus.approved else none;
      ro_ref = non_empty input.ro_ref;
      transporter_id = transporter.stakeholder_id;
      transporter_name = transporter.name;
      transformed_from_lot_id = non_empty input.transformed_from_lot_id;
      provenance = none;
    }

abbrev pub set_transfer : TransferOrder → PdsLedger → PdsLedger
set_transfer transfer s = record s { transfers = set s.transfers transfer.transfer_id transfer }

abbrev pub child_lot_id_of : CommodityLot → String → String
child_lot_id_of lot transfer_id = lot.lot_id ++ ("-SPLIT-" ++ transfer_id)

-- The id of the lot that moves: the whole lot, or the child that is split off.
unfoldable pub moving_lot : CommodityLot → DispatchInput → Exec String
moving_lot lot input =
    if ltb_ℤ input.dispatched_qty_kg (available_on lot)
    then (do
      child ←
          split_lot_for_partial_dispatch lot (child_lot_id_of lot input.transfer_id)
            input.dispatched_qty_kg
      pure child.lot_id)
    else pure lot.lot_id

-- The tests before anything is written, apart from the flag of `check_stage_ii`.
unfoldable pub check_dispatch : DispatchInput → Exec (CommodityLot × Stakeholder × Option Approval)
unfolding choose_lot check_stage_ii
check_dispatch input = do
  known ← gets (λ s. has s.transfers input.transfer_id)
  throw_if known (already_exists "Transfer" input.transfer_id)
  named ← must_get_lot input.lot_id
  assert_active_stakeholder input.from_org
  assert_active_stakeholder input.to_org
  transporter ← resolve_active_transporter input.transporter_id
  throw_if (leb_ℤ input.dispatched_qty_kg (pos 0)) (must_be_positive "dispatchedQtyKg")
  lot ← choose_lot input named
  throw_if (lot_in_transit lot.status) (State.lot_in_transit lot.lot_id)
  throw_if (not (str_eq lot.current_owner input.from_org))
      (lot_owned_by_other lot.lot_id lot.current_owner input.from_org)
  throw_if (ltb_ℤ (available_on lot) input.dispatched_qty_kg) (exceeds_remaining lot.lot_id)
  throw_if
      (not
        (is_commodity_route_edge_allowed lot.commodity input.from_org input.to_org (lot_kind lot)))
      (route_not_allowed lot.commodity input.from_org input.to_org)
  prior ← gets (prior_authorization input.transfer_id)
  check_stage_ii input lot prior
  child_known ← gets (λ s. has s.lots (child_lot_id_of lot input.transfer_id))
  throw_if (ltb_ℤ input.dispatched_qty_kg (available_on lot) && child_known)
      (already_exists "Child lot" (child_lot_id_of lot input.transfer_id))
  pure (lot, transporter, prior)

-- The writes: the sender's stock, the split, the transfer, the moving lot and the event.
unfoldable pub commit_dispatch :
    DispatchInput → CommodityLot → Stakeholder → Option Approval → Exec TransferOrder
unfolding moving_lot
commit_dispatch input lot transporter prior = do
  consume_stock input.from_org lot.commodity input.dispatched_qty_kg
  moving_lot_id ← moving_lot lot input
  dispatch_timestamp ← timestamp_or input.dispatch_timestamp
  let transfer = transfer_of input transporter prior moving_lot_id dispatch_timestamp
  modify (set_transfer transfer)
  moving ← must_get_lot moving_lot_id
  modify (λ s. record s {
    lots =
        set s.lots moving_lot_id
          (record moving { status = LotStatus.dispatched; current_location = input.to_org });
  })
  record_event EntityType.transfer transfer.transfer_id (Body.dispatch_lot transfer)
  pure transfer

unfoldable pub dispatch_lot : DispatchInput → Exec TransferOrder
unfolding check_dispatch commit_dispatch
dispatch_lot input = do
  (lot, transporter, prior) ← check_dispatch input
  commit_dispatch input lot transporter prior
