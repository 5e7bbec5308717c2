-- ===== src/Ledger/Locality/Operations.antt =====
-- The operations that read and write only a few keys.
use toomoki_cdac_pds.SharedTypes.Events.{LedgerEvent}
use toomoki_cdac_pds.SharedTypes.{RationCard}
use toomoki_cdac_pds.Ledger.Grievances.{
  ResolveInput, FileInput, resolve_grievance, acknowledge_grievance, file_grievance,
}
use toomoki_cdac_pds.Ledger.Cards.{
  CardTransferInput, IssueInput, transfer_ration_card, suspend_ration_card, activate_ration_card,
  activate_card, issue_ration_card,
}
use toomoki_cdac_pds.Prelude.{String, List, Option}
use toomoki_cdac_pds.Ledger.Locality.{Keys, Among, IsLocal}
use toomoki_cdac_pds.Ledger.Locality.Writes.{write_rules}
use toomoki_cdac_pds.Ledger.Locality.Reads.{read_rules}

module _ {keys : Keys} {before : List LedgerEvent × List LedgerEvent} where
  pub issue_ration_card-Local :
      (input : IssueInput)
      → Among input.ration_card_hash keys.ration_cards
      → IsLocal keys before (issue_ration_card input)
  unfolding issue_ration_card
  issue_ration_card-Local input card = search (write_rules, read_rules) depth 30

  activate_card-Local : (c : RationCard) → IsLocal keys before (activate_card c)
  unfolding activate_card
  activate_card-Local c = search write_rules depth 20

  pub activate_ration_card-Local :
      (hash : String)
      → Among hash keys.ration_cards
      → IsLocal keys before (activate_ration_card hash)
  unfolding activate_ration_card
  activate_ration_card-Local hash card =
      search (write_rules, read_rules, activate_card-Local) depth 30

  pub suspend_ration_card-Local :
      (hash reason : String) (at : Option String)
      → Among hash keys.ration_cards
      → IsLocal keys before (suspend_ration_card hash reason at)
  unfolding suspend_ration_card
  suspend_ration_card-Local hash reason at card = search (write_rules, read_rules) depth 30

  pub transfer_ration_card-Local :
      (input : CardTransferInput)
      → Among input.ration_card_hash keys.ration_cards
      → Among input.to_fps_id keys.stakeholders
      → IsLocal keys before (transfer_ration_card input)
  unfolding transfer_ration_card
  transfer_ration_card-Local input card shop = search (write_rules, read_rules) depth 30

  pub file_grievance-Local :
      (input : FileInput)
      → Among input.grievance_id keys.grievances
      → IsLocal keys before (file_grievance input)
  unfolding file_grievance
  file_grievance-Local input known = search (write_rules, read_rules) depth 40

  pub acknowledge_grievance-Local :
      (id : String) (at : Option String)
      → Among id keys.grievances
      → IsLocal keys before (acknowledge_grievance id at)
  unfolding acknowledge_grievance
  acknowledge_grievance-Local id at known = search (write_rules, read_rules) depth 30

  pub resolve_grievance-Local :
      (input : ResolveInput)
      → Among input.grievance_id keys.grievances
      → IsLocal keys before (resolve_grievance input)
  unfolding resolve_grievance
  resolve_grievance-Local input known = search (write_rules, read_rules) depth 30
