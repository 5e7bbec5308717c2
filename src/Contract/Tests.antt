-- ===== src/Contract/Tests.antt =====
-- The theorems on the contracts at the demo world.
mod Refinement
use toomoki_cdac_pds.Contract.Control.Rollovers.{rollover_unclaimed_quota_transaction-forgets}
use toomoki_cdac_pds.Ledger.Rules.{RolloverInput}
use toomoki_cdac_pds.Ledger.Demo.{demo_entitlement}
use toomoki_cdac_pds.Contract.Control.Transfers.{
  transfer_ration_card_transaction-refuses, IsRefused,
}
use toomoki_cdac_pds.Contract.Control.Approvals.{
  approve_entitlement_rule_transaction-supersedes_none,
}
use toomoki_cdac_pds.SharedTypes.{EntitlementRuleStatus}
use toomoki_cdac_pds.Prelude.Int.{pos}
use toomoki_cdac_pds.Ledger.Checks.{entitlement_key}
use toomoki_cdac_pds.Contract.Collections.{query_state}
use toomoki_cdac_pds.StringMap.{set}
use toomoki_cdac_pds.Contract.Json.Canonical.{Reordered, SameJson, canonical_json-reordered}
use toomoki_cdac_pds.Contract.ProofStore.{
  record_ledger_proof_transaction-again, record_ledger_proof_transaction-keeps_proofs,
}
use toomoki_cdac_pds.Contract.Sensitive.Exact.{sensitive_field-exact, Occurs}
use toomoki_cdac_pds.Contract.ProofStore.Sound.{
  record_ledger_proof_transaction-AllChecked, AllChecked,
}
use toomoki_cdac_pds.Contract.Demo.{
  department_stub, new_complaint, new_card, swapped_payload, demo_rule, demo_payload, demo_proof,
  demo_stub, shop_stub, auditor_stub, demo_world, move,
}
use toomoki_cdac_pds.Contract.Calls.{
  submit-outsider, operation_of, submit-unauthorized, Call, submit,
}
use toomoki_cdac_pds.TextOrder.{text_le}
use toomoki_cdac_pds.Contract.Sensitive.{is_prohibited, sensitive_field}
use toomoki_cdac_pds.Contract.Json.{canonical_json, Fields, Json}
use toomoki_cdac_pds.Contract.Proofs.{record_ledger_proof_transaction}
use toomoki_cdac_pds.Contract.Stub.{Operation, Outcome, world_after, World}
use toomoki_cdac_pds.StringMap.{get}
use toomoki_cdac_pds.Contract.Control.{
  rollover_unclaimed_quota_transaction, transfer_ration_card_transaction,
  approve_entitlement_rule_transaction, TransferPayload,
}
use toomoki_cdac_pds.Prelude.{
  ◌⊎◌, String, List, Option, [], ◌∷◌, true, false, none, some, ◌≡◌, refl,
}
use toomoki_cdac_pds.Ledger.Grievances
use toomoki_cdac_pds.Ledger.Cards
use toomoki_cdac_pds.Contract.Authorization

-- The two fields name different shops.
abbrev split_move : TransferPayload
split_move = record move { new_fps_id = some "FPS-101" }

transfer_ration_card_transaction-refuses_example :
    IsRefused (transfer_ration_card_transaction department_stub split_move demo_world)
unfolding get
transfer_ration_card_transaction-refuses_example =
    transfer_ration_card_transaction-refuses department_stub demo_world split_move "FPS-101" refl
      refl refl

approve_entitlement_rule_transaction-supersedes_none_example :
    get
      (world_after
        (approve_entitlement_rule_transaction auditor_stub "RULE-2" demo_world)
        demo_world).entitlement_rules
      "RULE-1"
    ≡ some (demo_rule "RULE-1" EntitlementRuleStatus.active)
unfolding get
approve_entitlement_rule_transaction-supersedes_none_example =
    approve_entitlement_rule_transaction-supersedes_none auditor_stub demo_world "RULE-2" "RULE-1"
      refl refl

-- The world with the proof.
abbrev proven : World
proven = record demo_world {
  proofs = ("EV-1", record { proof = demo_proof; fabric_tx_id = "tx-1" }) ∷ [];
}

proof_run :
    record_ledger_proof_transaction auditor_stub demo_proof demo_world
    ≡ Outcome.committed
        (record { event_id = "EV-1"; fabric_tx_id = "tx-1"; duplicate = false })
        proven
unfolding record_ledger_proof_transaction Authorization.authorized is_prohibited get set
proof_run = refl

record_ledger_proof_transaction-keeps_proofs_example :
    get
      (world_after (record_ledger_proof_transaction auditor_stub demo_proof proven) proven).proofs
      "EV-1"
    ≡ some (record { proof = demo_proof; fabric_tx_id = "tx-1" })
unfolding get
record_ledger_proof_transaction-keeps_proofs_example =
    record_ledger_proof_transaction-keeps_proofs auditor_stub demo_proof proven "EV-1"
      (record { proof = demo_proof; fabric_tx_id = "tx-1" }) refl

record_ledger_proof_transaction-again_example :
    record_ledger_proof_transaction (record auditor_stub { tx_id = "tx-2" }) demo_proof proven
    ≡ Outcome.committed
        (record { event_id = "EV-1"; fabric_tx_id = "tx-1"; duplicate = true })
        proven
unfolding record_ledger_proof_transaction Authorization.authorized is_prohibited get canonical_json
    set
record_ledger_proof_transaction-again_example =
    record_ledger_proof_transaction-again auditor_stub demo_proof demo_world "tx-2"

record_ledger_proof_transaction-AllChecked_example :
    AllChecked auditor_stub
      (world_after (record_ledger_proof_transaction auditor_stub demo_proof demo_world) demo_world)
unfolding get
record_ledger_proof_transaction-AllChecked_example =
    record_ledger_proof_transaction-AllChecked auditor_stub demo_proof demo_world (λ k. tt)

-- `{ "beneficiary": { "mobileNo": "98" } }`
abbrev leaking : Json
leaking = Json.obj (
    Fields.field "beneficiary" (Json.obj (Fields.field "mobileno" (Json.text "98") Fields.end))
      Fields.end)

sensitive_field-exact_example :
    (sensitive_field auditor_stub.texts leaking ≡ none
      → Occurs "mobileno" leaking
      → is_prohibited auditor_stub.texts "mobileno" ≡ false)
    × (sensitive_field auditor_stub.texts leaking ≡ some "mobileno"
        → Occurs "mobileno" leaking × (is_prohibited auditor_stub.texts "mobileno" ≡ true))
sensitive_field-exact_example = sensitive_field-exact auditor_stub.texts leaking "mobileno"

canonical_json-reordered_example :
    canonical_json auditor_stub.texts demo_payload
    ≡ canonical_json auditor_stub.texts swapped_payload
unfolding text_le
canonical_json-reordered_example =
    canonical_json-reordered auditor_stub.texts demo_payload swapped_payload
      (SameJson.obj (Reordered.swap "lotId" "quantityKg" _ _ Fields.end refl))

submit-unauthorized_example :
    submit shop_stub (Call.issue_ration_card new_card) demo_world ≡ demo_world
submit-unauthorized_example =
    submit-unauthorized shop_stub (Call.issue_ration_card new_card) demo_world refl

submit-outsider_example :
    (submit (demo_stub "OtherMSP") (Call.issue_ration_card new_card) demo_world ≡ demo_world)
    ⊎ (operation_of (Call.issue_ration_card new_card) ≡ Operation.file_grievance)
submit-outsider_example =
    submit-outsider (demo_stub "OtherMSP") (Call.issue_ration_card new_card) demo_world (record {
      miller_ = refl;
      warehouse_ = refl;
      shop_ = refl;
      department_ = refl;
      auditor_ = refl;
    })

-- July's entitlement is not claimed, August's is lifted in part.
abbrev two_months : World
two_months = record demo_world {
  entitlements =
      ("card-hash-1|Rice|2026-07", demo_entitlement)
      ∷ (
        "card-hash-1|Rice|2026-08",
        record demo_entitlement {
          month = "2026-08";
          already_lifted_kg = pos 10;
          available_balance_kg = pos 15;
        },
      )
      ∷ [];
}

abbrev rollover : RolloverInput
rollover = record {
  from_month = "2026-07";
  to_month = "2026-08";
  commodity = "Rice";
  rollover_pct = pos 20;
}

-- Five kilograms are carried, and the ten that were lifted are forgotten.
rollover_unclaimed_quota_transaction-forgets_example :
    get
      (world_after
        (rollover_unclaimed_quota_transaction department_stub rollover two_months)
        two_months).entitlements
      "card-hash-1|Rice|2026-08"
    ≡ some (record demo_entitlement {
      month = "2026-08";
      monthly_entitlement_kg = pos 5;
      available_balance_kg = pos 5;
    })
unfolding query_state entitlement_key
rollover_unclaimed_quota_transaction-forgets_example =
    rollover_unclaimed_quota_transaction-forgets department_stub two_months rollover
      demo_entitlement refl refl refl refl refl refl
