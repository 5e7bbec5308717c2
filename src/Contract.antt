-- ===== src/Contract.antt =====
-- The chaincode contracts of blockchain/chaincode/pds-chaincode/src: `PdsControlContract` and
-- `PdsDataContract` of contract.ts over the helpers of contract-base.ts, with the operations of
-- operations.ts and the allow list of authorization.ts.
pub mod Json
pub mod Stub
pub mod Demo
pub mod Authorization
pub mod Collections
pub mod StakeholderJson
pub mod Control
pub mod Data
pub mod Claims
pub mod Sensitive
pub mod Proofs
pub mod ProofStore
pub mod Refinement
pub mod Outsiders
pub mod Calls
mod Tests
