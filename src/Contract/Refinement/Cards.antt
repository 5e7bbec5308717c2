-- ===== src/Contract/Refinement/Cards.antt =====
-- The transactions on ration cards are the engine's operations on the whole ledger.
use toomoki_cdac_pds.Contract.Refinement.CardWorld.{
  transfer-Agree, with_stakeholders, transfer_keys, loaded-Agree, with_alerts, card_keys,
  MirrorsStakeholder, StoredCard, MirrorsCard,
}
use toomoki_cdac_pds.Contract.Refinement.CardWrites.{
  transfer-Kept, suspend-Kept, activate-Kept, issue-Kept, Kept,
}
use toomoki_cdac_pds.Ledger.Locality.Operations.{
  transfer_ration_card-Local, suspend_ration_card-Local, activate_ration_card-Local,
  issue_ration_card-Local,
}
use toomoki_cdac_pds.Contract.Control.{
  named_alert, transfer_ration_card_transaction, suspend_ration_card_transaction,
  activate_ration_card_transaction, issue_ration_card_transaction, TransferPayload, SuspendPayload,
  save_card, load_card,
}
use toomoki_cdac_pds.Ledger.State.{PdsLedger}
use toomoki_cdac_pds.Contract.Stub.{tx_timestamp, Stub, World}
use toomoki_cdac_pds.Contract.Collections.{save_alerts, transact, build_engine, read_ids, id_key}
use toomoki_cdac_pds.Ledger.Locality.{IsLocal, Keys, Agree}
use toomoki_cdac_pds.Ledger.Cards.{set_card, CardTransferInput, IssueInput, activate_card}
use toomoki_cdac_pds.SharedTypes.{RationCard}
use mathlib.Core.Path.{subst}
use toomoki_cdac_pds.Prelude.{eq_refl, String, some, [], ◌∷◌, ◌≡◌, refl, sym, ◌∙◌, inl}
use toomoki_cdac_pds.StringMap.{get-set, get}
use toomoki_cdac_pds.Ledger.Persist.{PdsLedgerState, export_state}
use toomoki_cdac_pds.StringMap.Keys.{IfFound}
use toomoki_cdac_pds.Ledger.Exec.{Exec}
use toomoki_cdac_pds.Ledger.Exec.Ends.{IfReturned, returned}
use toomoki_cdac_pds.Contract.Authorization.{authorized, department}
use toomoki_cdac_pds.Contract.Refinement.{Agree-SameEvents, transact-Matches, Matches}
use toomoki_cdac_pds.Ledger.Cards
use toomoki_cdac_pds.Ledger.Cards

written :
    (stub : Stub) (c : RationCard) (state : PdsLedgerState) (w : World)
    → get (save_card stub c state w).ration_cards (id_key stub c.ration_card_hash) ≡ some c
written stub c state w =
    get-set _ (id_key stub c.ration_card_hash) (id_key stub c.ration_card_hash) c
    ∙ rw (eq_refl (id_key stub c.ration_card_hash)) refl

module _ (stub : Stub) (w : World) (s : PdsLedger) (keys : Keys) where
  -- What is saved before the card and the events does not touch them.
  card_transaction-Matches :
      (partial : PdsLedgerState) (act : Exec RationCard) (flags : PdsLedgerState → World → World)
      → IsLocal keys (s.events, []) act
      → Agree keys (s.events, []) s (build_engine stub partial)
      → IfReturned Kept (act s)
      → ((state : PdsLedgerState) → (flags state w).events ≡ w.events)
      → Matches stub
          (StoredCard stub s w)
          (act s)
          (transact stub partial act (λ c state v. save_card stub c state (flags state v)) w)
  unfolding export_state
  card_transaction-Matches partial act flags local agree kept apart =
      transact-Matches stub (StoredCard stub s w) partial act
        (λ c state v. save_card stub c state (flags state v)) w s local agree
        (λ c p e after. (
          returned Kept (act s).0 (act s).1 c e kept,
          written stub c (export_state p) (flags (export_state p) w),
          rw (apart (export_state p)) (Agree-SameEvents stub keys s (act s).1 p w after),
        ))

module _ (stub : Stub) (w : World) (s : PdsLedger) (issue : IssueInput) (hash : String)
    (suspend : SuspendPayload) (transfer : TransferPayload) where
  -- A transaction on a ration card ends as the engine's operation on the whole ledger does: with
  -- its error, or with its result, which then stands in the world, and with the same events. The
  -- submitter is the department, the ledger holds what the world holds under the keys concerned,
  -- its callbacks are those of the transaction, and a transfer names its shop twice.
  pub card_transactions-refine :
      stub.msp_id ≡ department
      → MirrorsCard stub w s issue.ration_card_hash
      → MirrorsCard stub w s hash
      → MirrorsCard stub w s suspend.ration_card_hash
      → MirrorsCard stub w s transfer.input.ration_card_hash
      → MirrorsStakeholder stub w s transfer.input.to_fps_id
      → transfer.new_fps_id ≡ some transfer.input.to_fps_id
      → Matches stub
          (StoredCard stub s w)
          (Cards.issue_ration_card (record issue { issued_at = some (tx_timestamp stub) }) s)
          (issue_ration_card_transaction stub issue w)
        × Matches stub
            (StoredCard stub s w)
            (Cards.activate_ration_card hash s)
            (activate_ration_card_transaction stub hash w)
        × Matches stub
            (StoredCard stub s w)
            (Cards.suspend_ration_card suspend.ration_card_hash suspend.suspend_reason
              (some (tx_timestamp stub))
              s)
            (suspend_ration_card_transaction stub suspend w)
        × Matches stub
            (StoredCard stub s w)
            (Cards.transfer_ration_card
              (record transfer.input { transferred_at = some (tx_timestamp stub) })
              s)
            (transfer_ration_card_transaction stub transfer w)
  unfolding authorized issue_ration_card_transaction activate_ration_card_transaction
      suspend_ration_card_transaction transfer_ration_card_transaction
  card_transactions-refine msp issued known suspended moved shop twice = (
    rw msp (
        card_transaction-Matches stub w s (card_keys issue.ration_card_hash)
          (with_alerts (load_card stub issue.ration_card_hash w) []) _ (λ _ v. v)
          (issue_ration_card-Local _ (inl refl)) (loaded-Agree stub w s _ issued [])
          ((issue-Kept _).with s) (λ _. refl)),
    rw msp (
        card_transaction-Matches stub w s (card_keys hash) (with_alerts (load_card stub hash w) [])
          _ (λ _ v. v) (activate_ration_card-Local hash (inl refl))
          (loaded-Agree stub w s hash known [])
          (activate-Kept hash s
            (subst (IfFound (λ c. c.ration_card_hash ≡ hash)) (sym known.record_) known.own_id))
          (λ _. refl)),
    rw msp (
        card_transaction-Matches stub w s (card_keys suspend.ration_card_hash)
          (with_alerts (load_card stub suspend.ration_card_hash w)
            (read_ids stub w.alerts (named_alert suspend.alert_id)))
          _ (save_alerts stub) (suspend_ration_card-Local _ _ _ (inl refl))
          (loaded-Agree stub w s _ suspended
            (read_ids stub w.alerts (named_alert suspend.alert_id)))
          ((suspend-Kept _ _ _).with s) (λ _. refl)),
    rw (msp, twice)
        (card_transaction-Matches stub w s
          (transfer_keys transfer.input.ration_card_hash transfer.input.to_fps_id)
          (with_stakeholders (load_card stub transfer.input.ration_card_hash w)
            (read_ids stub w.stakeholders (transfer.input.to_fps_id ∷ [])))
          _ (λ _ v. v) (transfer_ration_card-Local _ (inl refl) (inl refl))
          (transfer-Agree stub w s _ moved _ shop) ((transfer-Kept _).with s) (λ _. refl)),
  )
