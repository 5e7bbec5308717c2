-- ===== src/Ledger/Queries.antt =====
-- The queries of the engine: the lists, the lookups, a lot's trace and the digest of the log.
use toomoki_cdac_pds.SharedTypes.Events.{LedgerEvent}
use toomoki_cdac_pds.SharedTypes.{
  DistributionTransaction, FpsAllocation, TransferOrder, MonthlyEntitlement, AuthTransaction,
  CommodityLot,
}
use toomoki_cdac_pds.Ledger.Checks.{key_for, must_get_lot, entitlement_key}
use toomoki_cdac_pds.Ledger.History.{
  payload_distribution, or_else, is_text, get_lot_history, extra_text,
}
use toomoki_cdac_pds.Ledger.State.{not_found, PdsLedger}
use toomoki_cdac_pds.Prelude.{
  map, Option, String, Bool, List, ◌||◌, sort_by, filter, str_eq, ◌otherwise◌,
}
use toomoki_cdac_pds.Prelude.Int.{ℤ, pos}
use toomoki_cdac_pds.Prelude.Hash.{hash_reference}
use Prim.Native.String.{◌++◌ as append}
use toomoki_cdac_pds.StringMap.{get, values}
use toomoki_cdac_pds.Ledger.Exec.{pure, or_throw, gets, Exec, ◌>>=◌}

-- `sort` by the texts that `localeCompare` compares.
abbrev sorted : {A : Type 0} → PdsLedger → (A → String) → List A → List A
sorted s text items = sort_by (λ a b. s.runtime.locale_le (text a) (text b)) items

unfoldable pub get_distribution_history : String → PdsLedger → List LedgerEvent
unfolding extra_text
get_distribution_history distribution_id s =
    filter
      (λ e.
        str_eq e.entity_id distribution_id
        || is_text (or_else (payload_distribution e.body) (extra_text e.extras "distributionId"))
            distribution_id)
      s.events

unfoldable pub list_ledger_events : PdsLedger → List LedgerEvent
list_ledger_events s = sorted s (λ e. e.timestamp) s.events

unfoldable pub get_auth_transaction : String → Exec AuthTransaction
get_auth_transaction auth_txn_id = do
  found ← gets (λ s. get s.auth_transactions auth_txn_id)
  or_throw found (not_found "Auth transaction" auth_txn_id)

unfoldable pub list_entitlements : PdsLedger → List MonthlyEntitlement
unfolding entitlement_key
list_entitlements s =
    sorted s (λ e. entitlement_key e.month e.ration_card_hash e.commodity)
      (map (λ c. c.entitlement) (values s.entitlements))

-- `getTraceForLot`
pub record LotTrace : Type 0 where
  pub lot : CommodityLot
  pub history : Option (List LedgerEvent)
  pub stock_kg : ℤ

unfoldable pub get_trace_for_lot : String → Exec LotTrace
unfolding get_lot_history
get_trace_for_lot lot_id = do
  lot ← must_get_lot lot_id
  history ← gets (get_lot_history lot_id)
  stock ← gets (λ s. get s.stock (key_for lot.current_owner lot.commodity))
  pure (record { lot = lot; history = history; stock_kg = stock otherwise pos 0 })

unfoldable pub list_lots : PdsLedger → List CommodityLot
list_lots s = sorted s (λ l. l.lot_id) (values s.lots)

unfoldable pub list_transfers : PdsLedger → List TransferOrder
list_transfers s = sorted s (λ t. t.dispatch_timestamp) (values s.transfers)

unfoldable pub list_allocations : PdsLedger → List FpsAllocation
list_allocations s =
    sorted s (λ a. append a.month (append ":" a.allocation_id)) (values s.allocations)

unfoldable pub list_auth_transactions : PdsLedger → List AuthTransaction
list_auth_transactions s = sorted s (λ a. a.timestamp) (values s.auth_transactions)

unfoldable pub list_distributions : PdsLedger → List DistributionTransaction
list_distributions s = sorted s (λ d. d.timestamp) (values s.distributions)

unfoldable pub get_distribution_receipt : String → Exec DistributionTransaction
get_distribution_receipt distribution_id = do
  found ← gets (λ s. get s.distributions distribution_id)
  or_throw found (not_found "Distribution" distribution_id)

-- `getLedgerDigest`, with `JSON.stringify` as a parameter.
unfoldable pub get_ledger_digest : (List LedgerEvent → String) → PdsLedger → String
unfolding hash_reference
get_ledger_digest stringify s = hash_reference (stringify s.events)

unfoldable pub verify_database_hash :
    (List LedgerEvent → String) → String → PdsLedger → Bool × String
unfolding get_ledger_digest
verify_database_hash stringify digest s =
    let own = get_ledger_digest stringify s in (str_eq own digest, own)
