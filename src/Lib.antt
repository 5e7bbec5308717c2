-- ===== src/Lib.antt =====
-- The chaincode of a public distribution system: the class `PdsLedgerEngine` of
-- blockchain/chaincode/pds-chaincode/src/index.ts, the types that it takes from
-- packages/shared-types/src/index.ts, and the two Fabric contracts over the engine, contract.ts and
-- contract-base.ts, with operations.ts and authorization.ts beside them. The engine carries the
-- rules of the trade: who may move what, what a stock position, an entitlement or a ration card may
-- become, and which events and alerts tell of it. A transaction of a contract loads a few records
-- from the world state, runs one method of the engine on them and saves the collections again.
--
-- Parts and files:
--   * Prelude and its children: Boolean tests, whole numbers with a sign (ℤ), JavaScript texts
--     (`js_length` counts UTF-16 units), and `hashReference` with its FNV-1a (Prelude/Hash).
--   * StringMap: a JavaScript `Map` with string keys, in insertion order; Sums and Keys have its
--     lemmas. Members: what filtering and sorting keep of a list. TextOrder: the order of texts by
--     their UTF-16 units, in which keys are sorted and deadlines are compared.
--   * SharedTypes: the enumerations, the records and the events, and the commodity routes with
--     `isCommodityRouteEdgeAllowed`.
--   * Ledger/State: the engine's fields. Ledger/Exec: a method is a function of the state to a
--     result or an error and the state it leaves; what was written before a throw stays written.
--     Exec/Keeps, Runs, Gives and Refuses have the rules by which a block is shown to keep a
--     predicate, not to throw, to find something out, and to change nothing when it throws.
--   * Ledger/Checks and Ledger/Record: `mustGet…`, `assertActiveStakeholder`, `validateHashFormat`,
--     `recordEvent`, `raiseAuditFlag`, `consumeStock`, `addStock`.
--   * Ledger/Lots, Dispatch, Receive, Allocate, Distribute: `createCommodityLot`, `dispatchLot` with
--     `splitLotForPartialDispatch`, `authorizeMovement`, `receiveLot`, `allocateToFps`,
--     `recordFpsReceipt`, `simulateAuthentication`, the entitlements and `recordDistribution`. A
--     long method is its tests (`check_…`) followed by its writes (`commit_…`), in the source's
--     order.
--   * Ledger/Cards, Grievances, Rules, Alerts: the ration cards, the grievances with their
--     escalation, the entitlement rules with the rollover, the alerts and the dashboard.
--   * Ledger/History, Queries: `getLotHistory` with its visits, and the other queries.
--   * Ledger/Seed: `seedDemoData`, with the fixtures as arguments, and `snapshot`.
--   * Ledger/Reset, Replay, Persist: `resetTransactionalData`, `applyLedgerEvent` with
--     `projectEventToState`, `exportState` and `restoreState`.
--   * Ledger/Balance: the accounted quantity and what each movement does to it. Ledger/Quiet:
--     predicates that the clock, the log and the alerts do not touch. Ledger/Keyed: every record
--     under its own id. Ledger/Session: any sequence of 23 commands, neither the reset nor the
--     replay of foreign events. Ledger/Stock: no negative stock. Ledger/Entitlements: quotas.
--     Ledger/Atomic: calls that throw. Ledger/RuleBook: one rule in force. Ledger/Idempotence:
--     events applied twice. Ledger/Split: the split of a lot. Ledger/RoundTrip: export and restore.
--     Ledger/Dashboard: the shops at high risk. Ledger/CardStates: cards that are cancelled.
--     Ledger/GrievanceStates: grievances that are resolved. Ledger/Escalation: grievances past
--     their deadline. Ledger/Demo and Ledger/Tests: a small ledger and the theorems at it.
--     Ledger/Locality: what a method reads and writes, so that an engine with fewer records does the
--     same.
--   * Contract/Stub: the world state, the stub, the operations, and how a transaction ends.
--     Contract/Collections: contract-base.ts. Contract/Authorization: authorization.ts and the
--     queries of operations.ts.
--   * Contract/Control: `PdsControlContract`. Contract/Data, Claims: the movements, and the
--     entitlements, flags and grievances of `PdsDataContract`. Contract/Proofs with Json and
--     Sensitive: `RecordLedgerProof`, `canonicalJson`, `assertNoSensitiveProofFields`.
--     Contract/StakeholderJson: the texts by which two stakeholder records are compared.
--   * Contract/Refinement: transactions against the engine on the whole ledger. Contract/ProofStore:
--     the stored proofs. Contract/Control/Transfers, Approvals and Rollovers: transactions that load
--     less than the engine reads. Contract/Outsiders and Calls: all transactions, by client.
--     Contract/Demo and Contract/Tests: a small world and the theorems at it.
--
-- How the model stands to the code: a quantity is a whole number of kilograms, so neither fractions
-- nor `NaN` occur. The callbacks `timestamp` and `identifier` are streams with a counter each, and
-- JavaScript's dates, `localeCompare` and `Math.random` are parameters (`Runtime`). An error is a
-- constructor with the ids that its message names. A loop over a `Map` that writes only to keys it
-- has visited reads the values that the map held at its start. An event's type and payload are one
-- value (`Body`), of the shape that the engine writes under that type; a payload of another shape is
-- not modelled. An entitlement remembers the replayed event whose payload is the same object, since
-- the engine changes entitlements in place. The loops are structural recursion; only the visits of
-- `getLotHistory` take fuel, the number of the lots' ids and one, which is enough.
--
-- The world state is one map for each prefix of composite keys. `createCompositeKey`,
-- `splitCompositeKey`, the order of a range of keys, SHA-256, `JSON.stringify` of a text and the
-- client's identity are parameters (`Stub`). A record is stored and read as it is: the fields
-- `docType` and `fabricTxId` that are added on saving, and the JSON text between, are left out. What
-- a transaction writes before it throws is dropped, as the peers do. Reads that are awaited together
-- are taken in the order in which they are written. A text is a list of code points, compared by its
-- UTF-16 units.
--
-- Not modelled: the emitted chaincode events and `GetEntityHistory` of the contracts, which are the
-- peers' work; invoker.ts and server.ts; the API, the web interface and the mock services, which
-- call the chaincode.
pub mod Prelude
pub mod StringMap
pub mod Members
pub mod TextOrder
pub mod SharedTypes
pub mod Ledger
pub mod Contract
