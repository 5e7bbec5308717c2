-- ===== src/Contract/Stub.antt =====
-- The world state that a transaction reads and writes, and what the contracts take from Fabric:
-- the stub, the client's identity and the transaction's clock.
use Prim.Native.String.{String, ◌++◌ as append}
use toomoki_cdac_pds.Prelude.{List, Bool, ℕ, ◌*◌}
use toomoki_cdac_pds.Prelude.Int.{ℤ, pos}
use toomoki_cdac_pds.Prelude.Text.{show}
use toomoki_cdac_pds.StringMap.{StringMap}
use toomoki_cdac_pds.SharedTypes.{
  Stakeholder, CommodityLot, TransferOrder, FpsAllocation, MonthlyEntitlement, AuthTransaction,
  DistributionTransaction, AuditAlert, RationCard, Grievance, EntitlementRule,
}
use toomoki_cdac_pds.SharedTypes.Events.{LedgerEvent}
use toomoki_cdac_pds.Ledger.State.{Dates, Runtime, Error}
use toomoki_cdac_pds.Contract.Json.{Json, Texts}

pub record LedgerProofActor : Type 0 where
  pub subject : String
  pub application_role : String
  pub submitting_organization : String

pub record LedgerProof : Type 0 where
  pub event_id : String
  pub operation_id : String
  pub event_type : String
  pub schema_version : ℤ
  pub entity_type : String
  pub entity_id : String
  pub actor : LedgerProofActor
  pub payload_hash : String
  pub proof_payload : Json
  pub business_timestamp : String

-- A proof with the transaction that stored it.
pub record StoredLedgerProof : Type 0 where
  pub proof : LedgerProof
  pub fabric_tx_id : String

-- One map for each prefix of composite keys. A key of a map is the composite key.
pub record World : Type 0 where
  pub stakeholders : StringMap Stakeholder
  pub lots : StringMap CommodityLot
  pub transfers : StringMap TransferOrder
  pub allocations : StringMap FpsAllocation
  pub entitlements : StringMap MonthlyEntitlement
  pub auth_transactions : StringMap AuthTransaction
  pub distributions : StringMap DistributionTransaction
  pub alerts : StringMap AuditAlert
  pub events : StringMap LedgerEvent
  pub stock : StringMap ℤ
  pub ration_cards : StringMap RationCard
  pub grievances : StringMap Grievance
  pub entitlement_rules : StringMap EntitlementRule
  pub proofs : StringMap StoredLedgerProof

-- `ctx.stub` and `ctx.clientIdentity`, with what the engine takes from the platform.
pub record Stub : Type 0 where
  -- `createCompositeKey`, on the attributes behind a prefix
  pub composite_key : List String → String
  -- the attributes that `splitCompositeKey` gives back
  pub split_composite_key : String → List String
  -- the order in which a range of keys is read
  pub key_le : String → String → Bool
  pub tx_id : String
  -- `getTxTimestamp().seconds`
  pub seconds : ℕ
  pub msp_id : String
  pub dates : Dates
  pub locale_le : String → String → Bool
  pub random_suffix : String
  pub texts : Texts
  -- `createHash('sha256')…digest('hex')`
  pub sha256_hex : String → String

unfoldable pub tx_timestamp : Stub → String
tx_timestamp stub = stub.dates.to_iso_string (pos (stub.seconds * 1000))

-- The callbacks of `buildEngine`.
unfoldable pub transaction_runtime : Stub → Runtime
unfolding tx_timestamp
transaction_runtime stub = record {
  timestamp = λ _. tx_timestamp stub;
  identifier = λ n. append stub.tx_id (append "-" (show n));
  dates = stub.dates;
  locale_le = stub.locale_le;
  random_suffix = stub.random_suffix;
}

-- `ChaincodeOperation`
pub data Operation : Type 0 where
  register_stakeholder create_commodity_lot dispatch_lot receive_lot : Operation
  allocate_to_fps record_fps_receipt : Operation
  register_beneficiary_hash create_monthly_entitlement record_distribution : Operation
  check_duplicate_claim raise_audit_flag resolve_audit_flag record_ledger_proof : Operation
  issue_ration_card activate_ration_card suspend_ration_card transfer_ration_card : Operation
  file_grievance acknowledge_grievance resolve_grievance : Operation
  escalate_overdue_grievances : Operation
  propose_entitlement_rule approve_entitlement_rule rollover_unclaimed_quota : Operation
  get_lot_history get_distribution_history get_current_stock verify_database_hash : Operation
  get_ration_card_history get_active_entitlement_rules get_entity_history : Operation
  get_distributions_by_fps get_stakeholders_by_type : Operation

pub data Refusal : Type 0 where
  engine_error : Error → Refusal
  unauthorized : Operation → String → Refusal
  record_missing : String → String → Refusal
  stakeholder_conflict : String → Refusal
  invalid_proof : String → Refusal
  prohibited_personal_data : String → Refusal
  conflicting_proof : String → Refusal

-- How a transaction ends: with a value and the world that it writes, or with an error, and then
-- the peers drop what it wrote.
pub data Outcome (A : Type 0) : Type 0 where
  committed : A → World → Outcome A
  refused : Refusal → Outcome A

abbrev pub Transaction : Type 0 → Type 0
Transaction A = World → Outcome A

-- The world after a transaction: what it wrote, or the world as it was.
abbrev pub world_after : {A : Type 0} → Outcome A → World → World
world_after (Outcome.committed a w') w = w'
world_after (Outcome.refused r) w = w

-- A transaction that commits, and what it then gives back.
abbrev pub IfCommitted : {A : Type 0} → (A → World → Type 0) → Outcome A → Type 0
IfCommitted P (Outcome.committed a w) = P a w
IfCommitted P (Outcome.refused r) = Unit
