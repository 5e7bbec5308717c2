-- ===== src/Contract/Demo.antt =====
-- A small world for the tests: two shops, a ration card, a grievance and two entitlement rules.
use toomoki_cdac_pds.Contract.Control.{TransferPayload}
use toomoki_cdac_pds.Ledger.Cards.{IssueInput}
use toomoki_cdac_pds.Ledger.Grievances.{FileInput}
use toomoki_cdac_pds.Ledger.Demo.{demo_stakeholder, demo_dates}
use toomoki_cdac_pds.Contract.Json.{Fields, Json}
use toomoki_cdac_pds.SharedTypes.{
  StakeholderType, GrievanceStatus, RationCardStatus, EntitlementRule, GrievanceType,
  RationCardType, EntitlementRuleStatus, Grievance, RationCard,
}
use toomoki_cdac_pds.Contract.Stub.{transaction_runtime, LedgerProof, World, Stub}
use toomoki_cdac_pds.Contract.Authorization.{shop, department, auditor}
use toomoki_cdac_pds.Prelude.{String, List, [], ◌∷◌, true, none, some}
use toomoki_cdac_pds.Prelude.Int.{pos}
use Prim.Native.String.{◌++◌ as append}
use toomoki_cdac_pds.Ledger.State.{empty_ledger, PdsLedger}

-- The attributes of a key with a bar between them.
abbrev pub demo_key : List String → String
demo_key [] = ""
demo_key (a ∷ []) = a
demo_key (a ∷ b ∷ rest) = append a (append "|" (demo_key (b ∷ rest)))

-- Every text has the same digest.
abbrev pub demo_digest : String
demo_digest = "0123456789abcdef0123456789abcdef0123456789abcdef0123456789abcdef"

-- A client of an MSP.
abbrev pub demo_stub : String → Stub
demo_stub msp_id = record {
  composite_key = demo_key;
  split_composite_key = λ k. k ∷ [];
  key_le = λ a b. true;
  tx_id = "tx-1";
  seconds = 1782864000;
  msp_id = msp_id;
  dates = demo_dates;
  locale_le = λ a b. true;
  random_suffix = "abcd";
  texts = record { quote = λ s. append "\"" (append s "\""); to_lower_case = λ s. s };
  sha256_hex = λ _. demo_digest;
}

abbrev pub empty_world : World
empty_world = record {
  stakeholders = [];
  lots = [];
  transfers = [];
  allocations = [];
  entitlements = [];
  auth_transactions = [];
  distributions = [];
  alerts = [];
  events = [];
  stock = [];
  ration_cards = [];
  grievances = [];
  entitlement_rules = [];
  proofs = [];
}

abbrev pub demo_card : RationCard
demo_card = record {
  ration_card_hash = "card-hash-1";
  card_type = RationCardType.phh;
  assigned_fps_id = "FPS-101";
  issued_at = "2026-06-01T00:00:00.000Z";
  status = RationCardStatus.active;
  suspended_at = none;
  suspend_reason = none;
  cancelled_at = none;
  transfer_history = [];
}

abbrev pub demo_grievance : Grievance
demo_grievance = record {
  grievance_id = "GRV-1";
  ration_card_hash = "card-hash-1";
  fps_id = "FPS-101";
  grievance_type = GrievanceType.quantity_short;
  description = "Two kilograms short";
  status = GrievanceStatus.open_;
  filed_at = "2026-06-01T00:00:00.000Z";
  sla_deadline_at = "2026-06-08T00:00:00.000Z";
  acknowledged_at = none;
  escalated_at = none;
  resolved_at = none;
  resolved_by = none;
  resolution_note = none;
}

abbrev pub demo_rule : String → EntitlementRuleStatus → EntitlementRule
demo_rule id status = record {
  rule_id = id;
  category = RationCardType.phh;
  commodity = "Rice";
  monthly_kg = pos 25;
  effective_from = "2026-07";
  effective_to = none;
  proposed_by = "FoodAndCivilSuppliesMSP";
  approved_by = none;
  status = status;
}

abbrev pub demo_world : World
demo_world = record empty_world {
  stakeholders =
      ("FPS-101", demo_stakeholder "FPS-101" StakeholderType.fair_price_shop)
      ∷ ("FPS-102", demo_stakeholder "FPS-102" StakeholderType.fair_price_shop)
      ∷ [];
  ration_cards = ("card-hash-1", demo_card) ∷ [];
  grievances = ("GRV-1", demo_grievance) ∷ [];
  entitlement_rules =
      ("RULE-1", demo_rule "RULE-1" EntitlementRuleStatus.active)
      ∷ ("RULE-2", demo_rule "RULE-2" EntitlementRuleStatus.pending_approval)
      ∷ [];
}

-- The ledger that holds what the world holds, at the start of a transaction.
abbrev pub demo_mirror : Stub → PdsLedger
demo_mirror stub = record (empty_ledger (transaction_runtime stub)) {
  stakeholders = demo_world.stakeholders;
  ration_cards = demo_world.ration_cards;
  grievances = demo_world.grievances;
  entitlement_rules = demo_world.entitlement_rules;
}

-- `{ "lotId": "LOT-1", "quantityKg": 400 }` and the same with its fields swapped.
abbrev pub demo_payload : Json
demo_payload = Json.obj (
    Fields.field "lotId" (Json.text "LOT-1")
      (Fields.field "quantityKg" (Json.num (pos 400)) Fields.end))

abbrev pub swapped_payload : Json
swapped_payload = Json.obj (
    Fields.field "quantityKg" (Json.num (pos 400))
      (Fields.field "lotId" (Json.text "LOT-1") Fields.end))

abbrev pub demo_proof : LedgerProof
demo_proof = record {
  event_id = "EV-1";
  operation_id = "OP-1";
  event_type = "DispatchLot";
  schema_version = pos 1;
  entity_type = "lot";
  entity_id = "LOT-1";
  actor = record {
    subject = "clerk";
    application_role = "warehouse";
    submitting_organization = "GodownWarehouseMSP";
  };
  payload_hash = demo_digest;
  proof_payload = demo_payload;
  business_timestamp = "2026-07-01T00:00:00.000Z";
}

abbrev pub shop_stub : Stub
shop_stub = demo_stub shop

abbrev pub department_stub : Stub
department_stub = demo_stub department

abbrev pub auditor_stub : Stub
auditor_stub = demo_stub auditor

abbrev pub new_complaint : FileInput
new_complaint = record {
  grievance_id = "GRV-2";
  ration_card_hash = "card-hash-1";
  fps_id = "FPS-101";
  grievance_type = GrievanceType.quantity_short;
  description = "One kilogram short";
  filed_at = none;
}

abbrev pub new_card : IssueInput
new_card = record {
  ration_card_hash = "card-hash-2";
  card_type = RationCardType.phh;
  assigned_fps_id = "FPS-101";
  issued_at = none;
}

abbrev pub move : TransferPayload
move = record {
  input = record {
    ration_card_hash = "card-hash-1";
    to_fps_id = "FPS-102";
    authorized_by = "OFFICER-1";
    transferred_at = none;
  };
  new_fps_id = some "FPS-102";
}
