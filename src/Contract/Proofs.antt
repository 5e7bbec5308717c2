-- ===== src/Contract/Proofs.antt =====
-- `RecordLedgerProof` of blockchain/chaincode/pds-chaincode/src/contract.ts with its helpers
-- `assertNoSensitiveProofFields` and `proofAsLedgerEvent`, and the queries on proofs.
use toomoki_cdac_pds.Contract.Sensitive.{sensitive_field}
use toomoki_cdac_pds.Contract.Collections.{id_key, query_state}
use toomoki_cdac_pds.Prelude.Int.{negsuc, pos, ℤ}
use toomoki_cdac_pds.Contract.Stub.{
  Operation, Outcome, World, Transaction, StoredLedgerProof, Refusal, Stub, LedgerProof,
  LedgerProofActor,
}
use toomoki_cdac_pds.Prelude.Text.{codes}
use toomoki_cdac_pds.Contract.Json.{canonical_json, Fields, Json}
use Prim.Native.String.{String}
use toomoki_cdac_pds.Prelude.{
  map, if◌then◌else◌, ◌==◌, ◌&&◌, false, ◌||◌, length, leb, true, Bool, List, Option, some, none,
  str_eq, any, not,
}
use toomoki_cdac_pds.StringMap.{get, set}
use toomoki_cdac_pds.Contract.Authorization.{authorized}

abbrev pub actor_json : LedgerProofActor → Json
actor_json a = Json.obj (
    Fields.field "subject" (Json.text a.subject) (
      Fields.field "applicationRole" (Json.text a.application_role)
        (Fields.field "submittingOrganization" (Json.text a.submitting_organization) Fields.end)))

unfoldable pub proof_json : LedgerProof → Json
proof_json p = Json.obj (
    Fields.field "eventId" (Json.text p.event_id) (
      Fields.field "operationId" (Json.text p.operation_id) (
        Fields.field "eventType" (Json.text p.event_type) (
          Fields.field "schemaVersion" (Json.num p.schema_version) (
            Fields.field "entityType" (Json.text p.entity_type) (
              Fields.field "entityId" (Json.text p.entity_id) (
                Fields.field "actor" (actor_json p.actor) (
                  Fields.field "payloadHash" (Json.text p.payload_hash) (
                    Fields.field "proofPayload" p.proof_payload (
                      Fields.field "businessTimestamp" (Json.text p.business_timestamp)
                        Fields.end))))))))))

abbrev pub is_empty : String → Bool
is_empty s = str_eq s ""

abbrev is_one : ℤ → Bool
is_one (pos n) = n == 1
is_one (negsuc n) = false

unfoldable pub lacks_identifiers : LedgerProof → Bool
lacks_identifiers p =
    is_empty p.event_id
    || is_empty p.operation_id
    || is_empty p.entity_id
    || is_empty p.event_type
    || not (is_one p.schema_version)

-- `/^[a-f0-9]{64}$/`
unfoldable pub is_sha256_hex : String → Bool
is_sha256_hex s =
    (length (codes s) == 64)
    && not (any (λ c. not ((leb b'a' c && leb c b'f') || (leb b'0' c && leb c b'9'))) (codes s))

unfoldable pub lacks_actor : LedgerProof → Bool
unfolding is_sha256_hex
lacks_actor p =
    not (is_sha256_hex p.payload_hash)
    || is_empty p.actor.subject
    || is_empty p.actor.application_role
    || is_empty p.actor.submitting_organization

pub record ProofReceipt : Type 0 where
  pub event_id : String
  pub fabric_tx_id : String
  pub duplicate : Bool

abbrev pub payload_digest : Stub → LedgerProof → String
payload_digest stub p = stub.sha256_hex (canonical_json stub.texts p.proof_payload)

abbrev pub canonical_proof : Stub → LedgerProof → String
canonical_proof stub p = canonical_json stub.texts (proof_json p)

-- What the guards say, in their order.
unfoldable pub proof_refusal : Stub → LedgerProof → Option Refusal
unfolding lacks_identifiers lacks_actor sensitive_field
proof_refusal stub p =
    if lacks_identifiers p
    then some (Refusal.invalid_proof "identifiers")
    else if lacks_actor p
    then some (Refusal.invalid_proof "actor")
    else elim (sensitive_field stub.texts p.proof_payload) [
      | some key ↦ some (Refusal.prohibited_personal_data key)
      | none ↦
          if not (str_eq (payload_digest stub p) p.payload_hash)
          then some (Refusal.invalid_proof "payloadHash")
          else none
    ]

-- A proof that is stored under the event's id, or none.
unfoldable pub store_proof :
    Stub → LedgerProof → Option StoredLedgerProof → Transaction ProofReceipt
store_proof stub p (some existing) world =
    if not (str_eq (canonical_proof stub existing.proof) (canonical_proof stub p))
    then Outcome.refused (Refusal.conflicting_proof p.event_id)
    else Outcome.committed
        (record { event_id = p.event_id; fabric_tx_id = existing.fabric_tx_id; duplicate = true })
        world
store_proof stub p none world =
    Outcome.committed
      (record { event_id = p.event_id; fabric_tx_id = stub.tx_id; duplicate = false })
      (record world {
        proofs =
            set world.proofs (id_key stub p.event_id)
              (record { proof = p; fabric_tx_id = stub.tx_id });
      })

abbrev pub guarded : Option Refusal → Transaction ProofReceipt → Transaction ProofReceipt
guarded none rest world = rest world
guarded (some r) rest world = Outcome.refused r

unfoldable pub record_ledger_proof_transaction : Stub → LedgerProof → Transaction ProofReceipt
unfolding proof_refusal store_proof
record_ledger_proof_transaction stub p = authorized Operation.record_ledger_proof stub (λ world.
    guarded (proof_refusal stub p) (store_proof stub p (get world.proofs (id_key stub p.event_id)))
      world)

-- A proof as the ledger event that it stands for.
pub record ProofEvent : Type 0 where
  pub ledger_tx_id : String
  pub entity_type : String
  pub entity_id : String
  pub event_type : String
  pub payload : Json
  pub timestamp : String

abbrev pub proof_as_ledger_event : StoredLedgerProof → ProofEvent
proof_as_ledger_event stored = record {
  ledger_tx_id = stored.proof.event_id;
  entity_type = stored.proof.entity_type;
  entity_id = stored.proof.entity_id;
  event_type = stored.proof.event_type;
  payload = stored.proof.proof_payload;
  timestamp = stored.proof.business_timestamp;
}

abbrev pub proof_of : String → String → StoredLedgerProof → Bool
proof_of kind id stored = str_eq stored.proof.entity_type kind && str_eq stored.proof.entity_id id

-- `GetLotHistory`
unfoldable pub query_lot_history : Stub → String → World → List ProofEvent
unfolding query_state
query_lot_history stub lot_id world =
    map proof_as_ledger_event (query_state stub (proof_of "lot" lot_id) world.proofs)

-- `GetDistributionHistory`
unfoldable pub query_distribution_history : Stub → String → World → List ProofEvent
unfolding query_state
query_distribution_history stub distribution_id world =
    map proof_as_ledger_event
      (query_state stub (proof_of "distribution" distribution_id) world.proofs)
