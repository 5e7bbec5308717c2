-- ===== src/Ledger/Demo.antt =====
-- A small ledger for the tests: a depot, two godowns, a shop, a truck, one lot of rice.
use toomoki_cdac_pds.Ledger.Dispatch.{DispatchInput}
use toomoki_cdac_pds.Ledger.Receive.{ReceiveInput}
use toomoki_cdac_pds.Ledger.Allocate.{AllocateInput, FpsReceiptInput}
use toomoki_cdac_pds.Ledger.Distribute.{DistributionInput}
use toomoki_cdac_pds.Ledger.Lots.{split_lot_for_partial_dispatch}
use toomoki_cdac_pds.Ledger.Record.{
  timestamp_or, raise_audit_flag, record_event_with, record_event, draw_identifier, draw_timestamp,
  add_stock, consume_stock,
}
use toomoki_cdac_pds.SharedTypes.Routes.{is_commodity_route_edge_allowed}
use toomoki_cdac_pds.Ledger.Checks.{
  month_from_timestamp, validate_hash_format, entitlement_key, key_for, resolve_active_transporter,
  assert_active_stakeholder, must_get_entitlement_rule, must_get_grievance, must_get_ration_card,
  must_get_entitlement, must_get_allocation, must_get_transfer, must_get_lot,
}
use toomoki_cdac_pds.StringMap.{delete, set, get}
use toomoki_cdac_pds.Ledger.Exec.{◌>>=◌}
use Prim.Native.String.{String, ◌++◌ as append}
use toomoki_cdac_pds.Prelude.{true, none, some, [], ◌∷◌}
use toomoki_cdac_pds.Prelude.Int.{◌+ℤ◌, ◌-ℤ◌, pos}
use toomoki_cdac_pds.Prelude.Text.{
  show_ℤ, pad2, is_raw_numeric_id, has_space, js_length, is_blank, show,
}
use toomoki_cdac_pds.SharedTypes.{
  AuthResult, AuthMode, Stage, Stakeholder, StakeholderType, StakeholderStatus, CommodityLot,
  LotStatus, MonthlyEntitlement,
}
use toomoki_cdac_pds.Ledger.State.{Dates, Runtime, PdsLedger, empty_ledger}

-- Every date is read as the first of July 2026.
abbrev pub demo_dates : Dates
demo_dates = record {
  parse = λ _. some (pos 1782864000000);
  utc_full_year = λ _. 2026;
  utc_month = λ _. 6;
  utc_date = λ _. 1;
  utc_hours = λ _. 0;
  utc_minutes = λ _. 0;
  utc_seconds = λ _. 0;
  to_iso_string = λ _. "2026-07-08T00:00:00.000Z";
}

abbrev pub demo_runtime : Runtime
demo_runtime = record {
  timestamp = λ _. "2026-07-01T00:00:00.000Z";
  identifier = λ n. append "id-" (show n);
  dates = demo_dates;
  locale_le = λ a b. true;
  random_suffix = "abcd";
}

abbrev pub demo_stakeholder : String → StakeholderType → Stakeholder
demo_stakeholder id kind = record {
  stakeholder_id = id;
  stakeholder_type = kind;
  name = id;
  district = "Demo";
  license_no = "L-1";
  status = StakeholderStatus.active;
  jurisdiction = none;
  capacity_kg = none;
  dealer_name = none;
  dealer_id = none;
  shop_no = none;
  block_name = none;
  tehsil_name = none;
  location = none;
}

abbrev pub demo_lot : CommodityLot
demo_lot = record {
  lot_id = "LOT-1";
  commodity = "Rice";
  season = "Kharif 2026";
  quantity_kg = pos 1000;
  quality_grade = "A";
  source = "Depot";
  current_owner = "FCI-001";
  current_location = "Depot";
  status = LotStatus.created;
  transformed_from_lot_id = none;
  created_at = none;
  root_lot_id = none;
  parent_lot_id = none;
  original_quantity_kg = none;
  remaining_quantity_kg = none;
  unit = none;
  version = none;
}

abbrev pub demo_entitlement : MonthlyEntitlement
demo_entitlement = record {
  ration_card_hash = "card-hash-1";
  commodity = "Rice";
  month = "2026-07";
  monthly_entitlement_kg = pos 25;
  already_lifted_kg = pos 0;
  available_balance_kg = pos 25;
  active = true;
  category = none;
  ledger_tx_id = none;
  provenance = none;
}

abbrev pub demo : PdsLedger
demo = record (empty_ledger demo_runtime) {
  stakeholders =
      ("FCI-001", demo_stakeholder "FCI-001" StakeholderType.fci)
      ∷ ("GODOWN-S-001", demo_stakeholder "GODOWN-S-001" StakeholderType.state_godown)
      ∷ ("GODOWN-B-001", demo_stakeholder "GODOWN-B-001" StakeholderType.block_godown)
      ∷ ("FPS-101", demo_stakeholder "FPS-101" StakeholderType.fair_price_shop)
      ∷ ("TRUCK-1", demo_stakeholder "TRUCK-1" StakeholderType.transporter)
      ∷ [];
  lots = ("LOT-1", demo_lot) ∷ [];
  stock =
      ("FCI-001:Rice", pos 1000) ∷ ("GODOWN-B-001:Rice", pos 300) ∷ ("FPS-101:Rice", pos 40) ∷ [];
  entitlements =
      ("card-hash-1:Rice:2026-07", record { entitlement = demo_entitlement; shared_with = none })
      ∷ [];
}

-- A part of the lot leaves the depot.
abbrev pub demo_dispatch : DispatchInput
demo_dispatch = record {
  transfer_id = "TR-1";
  lot_id = "LOT-1";
  from_org = "FCI-001";
  to_org = "GODOWN-S-001";
  dispatched_qty_kg = pos 400;
  vehicle_no = "MH-01";
  dispatch_timestamp = none;
  stage = some Stage.stage_i;
  ro_ref = none;
  authorized_by = none;
  transporter_id = "TRUCK-1";
  transformed_from_lot_id = none;
}

abbrev pub demo_receipt : ReceiveInput
demo_receipt = record { transfer_id = "TR-1"; received_qty_kg = pos 390; receive_timestamp = none }

abbrev pub demo_allocation : AllocateInput
demo_allocation = record {
  allocation_id = "ALLOC-1";
  fps_id = "FPS-101";
  commodity = "Rice";
  allocated_qty_kg = pos 100;
  month = "2026-07";
  source_godown_id = "GODOWN-B-001";
  transporter_id = "TRUCK-1";
  vehicle_no = "MH-02";
  dispatch_timestamp = none;
}

abbrev pub demo_fps_receipt : FpsReceiptInput
demo_fps_receipt = record {
  allocation_id = "ALLOC-1";
  received_qty_kg = pos 95;
  receive_timestamp = none;
}

abbrev pub demo_distribution : DistributionInput
demo_distribution = record {
  distribution = record {
    distribution_id = "DIST-1";
    fps_id = "FPS-101";
    ration_card_hash = "card-hash-1";
    beneficiary_ref_hash = "beneficiary-1";
    commodity = "Rice";
    delivered_kg = pos 20;
    auth_mode = AuthMode.mock_otp;
    auth_result = AuthResult.success;
    auth_txn_ref_hash = "ref";
    dealer_id = "D-1";
    timestamp = "";
    ledger_tx_id = none;
    provenance = none;
  };
  timestamp = none;
}

-- A run of the engine unfolds what this names.
unfoldable pub engine : Unit {0}
unfolding ◌>>=◌ get set delete must_get_lot must_get_transfer must_get_allocation
    must_get_entitlement must_get_ration_card must_get_grievance must_get_entitlement_rule
    assert_active_stakeholder resolve_active_transporter is_blank is_commodity_route_edge_allowed
    consume_stock add_stock key_for entitlement_key split_lot_for_partial_dispatch draw_timestamp
    draw_identifier record_event record_event_with raise_audit_flag timestamp_or
    validate_hash_format js_length has_space is_raw_numeric_id month_from_timestamp pad2 show show_ℤ
    ◌-ℤ◌ ◌+ℤ◌
engine = tt
