-- ===== src/Ledger.antt =====
-- The class `PdsLedgerEngine` of blockchain/chaincode/pds-chaincode/src/index.ts.
pub mod State
pub mod Exec
pub mod Checks
pub mod Record
pub mod Lots
pub mod Dispatch
pub mod Receive
pub mod Allocate
pub mod Distribute
pub mod Cards
pub mod Grievances
pub mod Rules
pub mod Alerts
pub mod History
pub mod Queries
pub mod Seed
pub mod Reset
pub mod Replay
pub mod Persist
pub mod Balance
pub mod Quiet
pub mod Keyed
pub mod Entitlements
pub mod Session
pub mod Stock
pub mod Atomic
pub mod RuleBook
pub mod Idempotence
pub mod Split
pub mod Escalation
pub mod GrievanceStates
pub mod CardStates
pub mod RoundTrip
pub mod Dashboard
pub mod Locality
pub mod Demo
mod Tests
