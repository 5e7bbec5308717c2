-- ===== src/Contract/ProofStore/Sound.antt =====
-- Every proof that is stored was checked.
use toomoki_cdac_pds.Contract.Collections.{id_key}
use toomoki_cdac_pds.Contract.Sensitive.{sensitive_field, is_prohibited}
use toomoki_cdac_pds.Contract.Authorization.{operation_msp_allowlist, admits, authorized}
use toomoki_cdac_pds.Contract.Sensitive.Exact.{sensitive_field-exact, Occurs}
use toomoki_cdac_pds.StringMap.Keys.{IfFound}
use toomoki_cdac_pds.Contract.Proofs.{
  canonical_proof, guarded, lacks_actor, lacks_identifiers, record_ledger_proof_transaction,
  store_proof, proof_refusal, payload_digest,
}
use toomoki_cdac_pds.Contract.Stub.{
  world_after, Operation, Refusal, LedgerProof, World, StoredLedgerProof, Stub,
}
use toomoki_cdac_pds.Prelude.{
  is_some, str_eq, eq_iff, ◌≡◌, ap, some, none, inl, inr, false, Bool-cases, Option-cases, String,
}
use toomoki_cdac_pds.StringMap.{get, get-set}
use mathlib.Core.Bool.{true≢false}

-- The digest is that of the payload, and no field of the payload at any depth holds personal data.
abbrev pub IsChecked : Stub → StoredLedgerProof → Type 0
IsChecked stub stored =
    (payload_digest stub stored.proof ≡ stored.proof.payload_hash)
    × ((key : String)
        → Occurs key stored.proof.proof_payload
        → is_prohibited stub.texts key ≡ false)

abbrev pub AllChecked : Stub → World → Type 0
AllChecked stub w = (k : String) → IfFound (IsChecked stub) (get w.proofs k)

module _ (stub : Stub) (p : LedgerProof) where
  accepted :
      proof_refusal stub p ≡ none → IsChecked stub (record { proof = p; fabric_tx_id = stub.tx_id })
  unfolding proof_refusal
  accepted e = elim (Bool-cases (lacks_identifiers p)) [
    | inl bad ↦
        let no : some (Refusal.invalid_proof "identifiers") ≡ none = rw bad at e in
        absurd (true≢false (ap is_some no))
    | inr named ↦ elim (Bool-cases (lacks_actor p)) [
      | inl bad ↦
          let no : some (Refusal.invalid_proof "actor") ≡ none = rw (named, bad) at e in
          absurd (true≢false (ap is_some no))
      | inr signed ↦ elim (Option-cases (sensitive_field stub.texts p.proof_payload)) [
        | inr (key, hit) ↦
            let no : some (Refusal.prohibited_personal_data key) ≡ none =
              rw (named, signed, hit, proof_refusal) at e in
            absurd (true≢false (ap is_some no))
        | inl clean ↦ elim (Bool-cases (str_eq (payload_digest stub p) p.payload_hash)) [
          | inl same ↦ (
            (eq_iff (payload_digest stub p) p.payload_hash).0 same,
            λ key at. (sensitive_field-exact stub.texts p.proof_payload key).0 clean at,
          )
          | inr other ↦
              let no : some (Refusal.invalid_proof "payloadHash") ≡ none =
                rw (named, signed, clean, proof_refusal, other) at e in
              absurd (true≢false (ap is_some no))
        ]
      ]
    ]
  ]

  store-AllChecked :
      (w : World)
      → IsChecked stub (record { proof = p; fabric_tx_id = stub.tx_id })
      → AllChecked stub w
      → AllChecked stub
          (world_after (store_proof stub p (get w.proofs (id_key stub p.event_id)) w) w)
  unfolding store_proof
  store-AllChecked w good all k = elim (Option-cases (get w.proofs (id_key stub p.event_id))) [
    | inr (old, e) ↦
        rw (e, store_proof)
          (elim (Bool-cases (str_eq (canonical_proof stub old.proof) (canonical_proof stub p))) [
            | inl same ↦ rw same (all k)
            | inr other ↦ rw other (all k)
          ])
    | inl fresh ↦
        rw (fresh, store_proof)
          (elim (Bool-cases (str_eq (id_key stub p.event_id) k)) [
            | inr apart ↦
                rw
                  (
                    get-set w.proofs (id_key stub p.event_id) k
                        (record { proof = p; fabric_tx_id = stub.tx_id }),
                    apart,
                  )
                  (all k)
            | inl hit ↦
                rw
                  (
                    get-set w.proofs (id_key stub p.event_id) k
                        (record { proof = p; fabric_tx_id = stub.tx_id }),
                    hit,
                  )
                  good
          ])
  ]

  -- Whatever is submitted, the proofs in the store have the digest of their payloads and no field,
  -- at any depth, whose name is prohibited, where they did before.
  pub record_ledger_proof_transaction-AllChecked :
      (w : World)
      → AllChecked stub w
      → AllChecked stub (world_after (record_ledger_proof_transaction stub p w) w)
  unfolding record_ledger_proof_transaction authorized
  record_ledger_proof_transaction-AllChecked w all =
      elim (Bool-cases
        (admits (operation_msp_allowlist Operation.record_ledger_proof) stub.msp_id)) [
          | inr denied ↦ rw denied all
          | inl admitted ↦ rw admitted (elim (Option-cases (proof_refusal stub p)) [
            | inr (r, e) ↦ rw (e, guarded) all
            | inl clean ↦ rw (clean, guarded) (store-AllChecked w (accepted clean) all)
          ])
        ]
