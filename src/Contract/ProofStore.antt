-- ===== src/Contract/ProofStore.antt =====
-- What `RecordLedgerProof` keeps of the proofs that are stored.
pub mod Sound
use toomoki_cdac_pds.Contract.Collections.{id_key}
use toomoki_cdac_pds.Contract.Authorization.{operation_msp_allowlist, admits, authorized}
use toomoki_cdac_pds.Contract.Proofs.{
  guarded, proof_refusal, canonical_proof, record_ledger_proof_transaction, store_proof,
}
use toomoki_cdac_pds.Contract.Stub.{
  IfCommitted, world_after, Operation, StoredLedgerProof, LedgerProof, Stub, World, Outcome,
}
use toomoki_cdac_pds.Prelude.{
  eq_iff, eq_refl, is_some, str_eq, String, ◌≡◌, refl, sym, ap, ◌∙◌, some, none, inl, inr, true,
  false, Bool-cases, Option-cases,
}
use toomoki_cdac_pds.StringMap.{get, set, get-set}
use mathlib.Core.Bool.{true≢false}

module _ (stub : Stub) (p : LedgerProof) where
  store-stays :
      (w : World) (k : String) (stored : StoredLedgerProof)
      → get w.proofs k ≡ some stored
      → get (world_after (store_proof stub p (get w.proofs (id_key stub p.event_id)) w) w).proofs k
        ≡ some stored
  unfolding store_proof
  store-stays w k stored there = elim (Option-cases (get w.proofs (id_key stub p.event_id))) [
    | inr (old, e) ↦
        rw (e, store_proof)
          (elim (Bool-cases (str_eq (canonical_proof stub old.proof) (canonical_proof stub p))) [
            | inl same ↦ rw same there
            | inr other ↦ rw other there
          ])
    | inl fresh ↦
        rw (fresh, store_proof)
          (elim (Bool-cases (str_eq (id_key stub p.event_id) k)) [
            | inr apart ↦
                rw
                  (
                    get-set w.proofs (id_key stub p.event_id) k
                        (record { proof = p; fabric_tx_id = stub.tx_id }),
                    apart,
                  )
                  there
            | inl hit ↦ absurd (
                true≢false (
                  ap is_some (
                    sym there
                    ∙ sym (ap (get w.proofs) ((eq_iff (id_key stub p.event_id) k).0 hit))
                    ∙ fresh)))
          ])
  ]

  -- A proof that is stored under a key stays as it is, whatever is submitted later.
  pub record_ledger_proof_transaction-keeps_proofs :
      (w : World) (k : String) (stored : StoredLedgerProof)
      → get w.proofs k ≡ some stored
      → get (world_after (record_ledger_proof_transaction stub p w) w).proofs k ≡ some stored
  unfolding record_ledger_proof_transaction authorized
  record_ledger_proof_transaction-keeps_proofs w k stored there =
      elim (Bool-cases
        (admits (operation_msp_allowlist Operation.record_ledger_proof) stub.msp_id)) [
          | inr denied ↦ rw denied there
          | inl admitted ↦ rw admitted (elim (Option-cases (proof_refusal stub p)) [
            | inr (r, e) ↦ rw (e, guarded) there
            | inl passed ↦ rw (passed, guarded) (store-stays w k stored there)
          ])
        ]

  again-duplicate :
      (w : World) (tx_id : String)
      → IfCommitted
          (λ receipt w'.
            store_proof
              (record stub { tx_id = tx_id })
              p
              (get w'.proofs (id_key stub p.event_id))
              w'
            ≡ Outcome.committed
                (record {
                  event_id = p.event_id;
                  fabric_tx_id = receipt.fabric_tx_id;
                  duplicate = true;
                })
                w')
          (store_proof stub p (get w.proofs (id_key stub p.event_id)) w)
  unfolding store_proof
  again-duplicate w tx_id = elim (Option-cases (get w.proofs (id_key stub p.event_id))) [
    | inr (old, e) ↦
        rw (e, store_proof)
          (elim (Bool-cases (str_eq (canonical_proof stub old.proof) (canonical_proof stub p))) [
            | inl same ↦ rw (same, e, store_proof) (rw same refl)
            | inr other ↦ rw other tt
          ])
    | inl fresh ↦
        rw (fresh, store_proof)
          (rw
            (
              get-set w.proofs (id_key stub p.event_id) (id_key stub p.event_id)
                  (record { proof = p; fabric_tx_id = stub.tx_id }),
              eq_refl (id_key stub p.event_id),
            )
            (rw (eq_refl (canonical_proof stub p)) refl))
  ]

  -- A proof that was accepted and is submitted again by the same client in the world right after,
  -- in a transaction of any id, is a duplicate: it changes nothing and gives back the transaction that stored the proof.
  pub record_ledger_proof_transaction-again :
      (w : World) (tx_id : String)
      → IfCommitted
          (λ receipt w'.
            record_ledger_proof_transaction (record stub { tx_id = tx_id }) p w'
            ≡ Outcome.committed
                (record {
                  event_id = p.event_id;
                  fabric_tx_id = receipt.fabric_tx_id;
                  duplicate = true;
                })
                w')
          (record_ledger_proof_transaction stub p w)
  unfolding record_ledger_proof_transaction authorized proof_refusal
  record_ledger_proof_transaction-again w tx_id =
      elim (Bool-cases
        (admits (operation_msp_allowlist Operation.record_ledger_proof) stub.msp_id)) [
          | inr denied ↦ rw denied tt
          | inl admitted ↦ rw (admitted) (elim (Option-cases (proof_refusal stub p)) [
            | inr (r, e) ↦ rw (e, guarded) tt
            | inl passed ↦ rw (passed, guarded) (again-duplicate w tx_id)
          ])
        ]
