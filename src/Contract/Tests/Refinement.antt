-- ===== src/Contract/Tests/Refinement.antt =====
-- The refinement theorems at the demo world.
use toomoki_cdac_pds.Contract.Refinement.CardWorld.{StoredCard, MirrorsStakeholder, MirrorsCard}
use toomoki_cdac_pds.Contract.Claims.{
  resolve_grievance_transaction, acknowledge_grievance_transaction, file_grievance_transaction,
}
use toomoki_cdac_pds.Contract.Collections.{Submitted}
use toomoki_cdac_pds.Contract.Stub.{tx_timestamp, Outcome}
use toomoki_cdac_pds.Ledger.State.{PdsLedger}
use toomoki_cdac_pds.SharedTypes.{RationCard}
use toomoki_cdac_pds.Contract.Refinement.Cards.{card_transactions-refine}
use toomoki_cdac_pds.Contract.Demo.{
  move, new_complaint, demo_mirror, new_card, department_stub, demo_world, shop_stub,
}
use toomoki_cdac_pds.Contract.Refinement.Grievances.{
  grievance_transactions-refine, StoredGrievance, MirrorsGrievance,
}
use toomoki_cdac_pds.Ledger.Exec.{Result}
use toomoki_cdac_pds.Contract.Control.{
  transfer_ration_card_transaction, suspend_ration_card_transaction,
  activate_ration_card_transaction, issue_ration_card_transaction, SuspendPayload,
}
use toomoki_cdac_pds.Contract.Refinement.{Matches}
use toomoki_cdac_pds.StringMap.{get}
use toomoki_cdac_pds.Ledger.Grievances.{ResolveInput}
use toomoki_cdac_pds.Prelude.{none, some, refl}
use toomoki_cdac_pds.Ledger.Grievances
use toomoki_cdac_pds.Ledger.Cards

abbrev settlement : ResolveInput
settlement = record {
  grievance_id = "GRV-1";
  resolved_by = "FPS-101";
  resolution_note = "Delivered";
  resolved_at = none;
}

mirrors_new : MirrorsGrievance shop_stub demo_world (demo_mirror shop_stub) "GRV-2"
unfolding get
mirrors_new = record {
  runtime = refl;
  timestamps = refl;
  identifiers = refl;
  record_ = refl;
  own_id = tt;
}

mirrors_known : MirrorsGrievance shop_stub demo_world (demo_mirror shop_stub) "GRV-1"
unfolding get
mirrors_known = record {
  runtime = refl;
  timestamps = refl;
  identifiers = refl;
  record_ = refl;
  own_id = refl;
}

grievance_transactions-refine_example :
    Matches shop_stub
      (StoredGrievance shop_stub (demo_mirror shop_stub) demo_world)
      (Grievances.file_grievance
        (record new_complaint { filed_at = some (tx_timestamp shop_stub) })
        (demo_mirror shop_stub))
      (file_grievance_transaction shop_stub new_complaint demo_world)
    × Matches shop_stub
        (StoredGrievance shop_stub (demo_mirror shop_stub) demo_world)
        (Grievances.acknowledge_grievance "GRV-1"
          (some (tx_timestamp shop_stub))
          (demo_mirror shop_stub))
        (acknowledge_grievance_transaction shop_stub "GRV-1" demo_world)
    × Matches shop_stub
        (StoredGrievance shop_stub (demo_mirror shop_stub) demo_world)
        (Grievances.resolve_grievance
          (record settlement { resolved_at = some (tx_timestamp shop_stub) })
          (demo_mirror shop_stub))
        (resolve_grievance_transaction shop_stub settlement demo_world)
grievance_transactions-refine_example =
    grievance_transactions-refine shop_stub demo_world (demo_mirror shop_stub) new_complaint "GRV-1"
      settlement refl mirrors_new mirrors_known mirrors_known

abbrev suspension : SuspendPayload
suspension = record {
  ration_card_hash = "card-hash-1";
  suspend_reason = "Duplicate";
  alert_id = none;
}

mirrors_new_card :
    MirrorsCard department_stub demo_world (demo_mirror department_stub) "card-hash-2"
unfolding get
mirrors_new_card = record {
  runtime = refl;
  timestamps = refl;
  identifiers = refl;
  record_ = refl;
  own_id = tt;
}

mirrors_card : MirrorsCard department_stub demo_world (demo_mirror department_stub) "card-hash-1"
unfolding get
mirrors_card = record {
  runtime = refl;
  timestamps = refl;
  identifiers = refl;
  record_ = refl;
  own_id = refl;
}

mirrors_shop : MirrorsStakeholder department_stub demo_world (demo_mirror department_stub) "FPS-102"
unfolding get
mirrors_shop = record { record_ = refl; own_id = refl }

abbrev CardMatch : Result RationCard × PdsLedger → Outcome (Submitted RationCard) → Type 0
CardMatch =
    Matches department_stub (StoredCard department_stub (demo_mirror department_stub) demo_world)

card_transactions-refine_example :
    CardMatch
      (Cards.issue_ration_card
        (record new_card { issued_at = some (tx_timestamp department_stub) })
        (demo_mirror department_stub))
      (issue_ration_card_transaction department_stub new_card demo_world)
    × CardMatch
        (Cards.activate_ration_card "card-hash-1" (demo_mirror department_stub))
        (activate_ration_card_transaction department_stub "card-hash-1" demo_world)
    × CardMatch
        (Cards.suspend_ration_card "card-hash-1" "Duplicate"
          (some (tx_timestamp department_stub))
          (demo_mirror department_stub))
        (suspend_ration_card_transaction department_stub suspension demo_world)
    × CardMatch
        (Cards.transfer_ration_card
          (record move.input { transferred_at = some (tx_timestamp department_stub) })
          (demo_mirror department_stub))
        (transfer_ration_card_transaction department_stub move demo_world)
card_transactions-refine_example =
    card_transactions-refine department_stub demo_world (demo_mirror department_stub) new_card
      "card-hash-1" suspension move refl mirrors_new_card mirrors_card mirrors_card mirrors_card
      mirrors_shop refl
