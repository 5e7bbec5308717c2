-- ===== src/Contract/Collections.antt =====
-- contract-base.ts: reading and writing the collections of the world state, `loadSelective`,
-- `queryState` and `buildEngine`.
use toomoki_cdac_pds.Ledger.State.{empty_ledger, PdsLedger}
use toomoki_cdac_pds.Ledger.Exec.{err, ok, Exec, Result}
use toomoki_cdac_pds.Ledger.Persist.{export_state, keyed, restore_state, PdsLedgerState, set_each}
use toomoki_cdac_pds.Ledger.Checks.{key_for}
use toomoki_cdac_pds.SharedTypes.{MonthlyEntitlement}
use Prim.Native.Char.{code}
use Prim.Native.String.{String}
use toomoki_cdac_pds.Prelude.{
  first, Option, ◌otherwise◌, Bool, List, [], ◌∷◌, none, some, map, sort_by, filter, if◌then◌else◌,
  ◌==◌,
}
use toomoki_cdac_pds.Prelude.Int.{ℤ}
use toomoki_cdac_pds.StringMap.{StringMap, get, values}
use toomoki_cdac_pds.Contract.Stub.{Stub, World, Transaction, Outcome, Refusal, transaction_runtime}

-- The composite key of a record with one id.
abbrev pub id_key : Stub → String → String
id_key stub id = stub.composite_key (id ∷ [])

abbrev pub entitlement_attributes : String → String → String → List String
entitlement_attributes card commodity month = card ∷ commodity ∷ month ∷ []

-- `stockKey.split(':')`: what stands before the first colon, and what stands between it and the
-- next.
unfoldable pub before_colon : String → String
before_colon String.[] = ""
before_colon (String.◌∷◌ c s) =
    let rest = before_colon s in if code c == b':' then "" else String.◌∷◌ c rest

unfoldable pub after_colon : String → String
after_colon String.[] = ""
after_colon (String.◌∷◌ c s) =
    let rest = after_colon s in if code c == b':' then before_colon s else rest

-- `getEntityCompositeKey`, for stock and for entitlements.
unfoldable pub stock_composite_key : Stub → String → String
unfolding before_colon after_colon
stock_composite_key stub key = stub.composite_key (before_colon key ∷ after_colon key ∷ [])

abbrev pub entitlement_composite_key : Stub → MonthlyEntitlement → String
entitlement_composite_key stub e =
    stub.composite_key (entitlement_attributes e.ration_card_hash e.commodity e.month)

module _ {V : Type 0} where
  -- `readState` of several keys, without those that are absent.
  unfoldable pub read_each : StringMap V → List String → List V
  read_each m [] = []
  read_each m (k ∷ ks) =
      let rest = read_each m ks in elim (get m k) [ none ↦ rest | some x ↦ x ∷ rest ]

  -- `loadCollection`: a range of keys, in the stub's order.
  unfoldable pub load_collection : Stub → StringMap V → List V
  load_collection stub m = values (sort_by (λ a b. stub.key_le a.0 b.0) m)

  -- `queryState`: the records that the selector fits.
  unfoldable pub query_state : Stub → (V → Bool) → StringMap V → List V
  unfolding load_collection
  query_state stub selector m = filter selector (load_collection stub m)

abbrev pub read_ids : {V : Type 0} → Stub → StringMap V → List String → List V
read_ids stub m ids = read_each m (map (id_key stub) ids)

-- The stock positions that `loadSelective` reads, each under its key in the engine.
unfoldable pub read_stock : Stub → World → List (String × String) → List (String × ℤ)
read_stock stub world [] = []
read_stock stub world ((org, commodity) ∷ rest) =
    let others = read_stock stub world rest in
    elim (get world.stock (stub.composite_key (org ∷ commodity ∷ []))) [
      | none ↦ others
      | some qty ↦ (key_for org commodity, qty) ∷ others
    ]

-- An attribute, as the template string shows it.
abbrev attribute : Option String → String
attribute none = "undefined"
attribute (some a) = a

abbrev second : List String → Option String
second [] = none
second (_ ∷ rest) = first rest

-- `loadCollection` for the stock: the positions, each under the key of the two attributes.
unfoldable pub load_stock : Stub → World → List (String × ℤ)
load_stock stub world =
    map
      (λ e. (
        key_for (attribute (first (stub.split_composite_key e.0)))
            (attribute (second (stub.split_composite_key e.0))),
        e.1,
      ))
      (sort_by (λ a b. stub.key_le a.0 b.0) world.stock)

-- `saveCollection` for a collection with one id.
abbrev pub save_ids : {V : Type 0} → Stub → (V → String) → List V → StringMap V → StringMap V
save_ids stub id items m = set_each m (keyed (λ x. id_key stub (id x)) items)

abbrev pub save_stakeholders : Stub → PdsLedgerState → World → World
save_stakeholders stub s w = record w {
  stakeholders = save_ids stub (λ x. x.stakeholder_id) s.stakeholders w.stakeholders;
}

abbrev pub save_lots : Stub → PdsLedgerState → World → World
save_lots stub s w = record w { lots = save_ids stub (λ x. x.lot_id) s.lots w.lots }

abbrev pub save_transfers : Stub → PdsLedgerState → World → World
save_transfers stub s w = record w {
  transfers = save_ids stub (λ x. x.transfer_id) s.transfers w.transfers;
}

abbrev pub save_allocations : Stub → PdsLedgerState → World → World
save_allocations stub s w = record w {
  allocations = save_ids stub (λ x. x.allocation_id) s.allocations w.allocations;
}

abbrev pub save_entitlements : Stub → PdsLedgerState → World → World
save_entitlements stub s w = record w {
  entitlements = set_each w.entitlements (keyed (entitlement_composite_key stub) s.entitlements);
}

abbrev pub save_auth_transactions : Stub → PdsLedgerState → World → World
save_auth_transactions stub s w = record w {
  auth_transactions = save_ids stub (λ x. x.auth_txn_id) s.auth_transactions w.auth_transactions;
}

abbrev pub save_distributions : Stub → PdsLedgerState → World → World
save_distributions stub s w = record w {
  distributions = save_ids stub (λ x. x.distribution_id) s.distributions w.distributions;
}

abbrev pub save_alerts : Stub → PdsLedgerState → World → World
save_alerts stub s w = record w { alerts = save_ids stub (λ x. x.alert_id) s.alerts w.alerts }

abbrev pub save_events : Stub → PdsLedgerState → World → World
save_events stub s w = record w { events = save_ids stub (λ x. x.ledger_tx_id) s.events w.events }

-- The entries of the stock, each under the key of its two parts.
abbrev pub stock_entries : Stub → List (String × ℤ) → List (String × ℤ)
stock_entries stub [] = []
stock_entries stub ((key, qty) ∷ rest) =
    (stock_composite_key stub key, qty) ∷ stock_entries stub rest

abbrev pub save_stock : Stub → PdsLedgerState → World → World
save_stock stub s w = record w { stock = set_each w.stock (stock_entries stub s.stock) }

abbrev pub save_ration_cards : Stub → PdsLedgerState → World → World
save_ration_cards stub s w = record w {
  ration_cards =
      save_ids stub (λ x. x.ration_card_hash) (s.ration_cards otherwise []) w.ration_cards;
}

abbrev pub save_grievances : Stub → PdsLedgerState → World → World
save_grievances stub s w = record w {
  grievances = save_ids stub (λ x. x.grievance_id) (s.grievances otherwise []) w.grievances;
}

abbrev pub save_entitlement_rules : Stub → PdsLedgerState → World → World
save_entitlement_rules stub s w = record w {
  entitlement_rules =
      save_ids stub (λ x. x.rule_id) (s.entitlement_rules otherwise []) w.entitlement_rules;
}

-- `emptyState()`
abbrev pub empty_state : PdsLedgerState
empty_state = record {
  stakeholders = [];
  lots = [];
  transfers = [];
  allocations = [];
  entitlements = [];
  auth_transactions = [];
  distributions = [];
  alerts = [];
  events = [];
  stock = [];
  ration_cards = some [];
  grievances = some [];
  entitlement_rules = some [];
  series_id = some "POC";
}

-- `buildEngine`, of a state that has the collections that were not loaded empty.
unfoldable pub build_engine : Stub → PdsLedgerState → PdsLedger
unfolding transaction_runtime restore_state
build_engine stub partial = restore_state partial (empty_ledger (transaction_runtime stub))

-- What a transaction gives back: the engine's result, and the transaction's id as `ledgerTxId`.
abbrev pub Submitted : Type 0 → Type 0
Submitted A = A × String

abbrev pub settle :
    {A : Type 0}
    → Stub
    → Result A
    → PdsLedgerState
    → (A → PdsLedgerState → World → World)
    → Transaction (Submitted A)
settle stub (ok a) state save world = Outcome.committed (a, stub.tx_id) (save a state world)
settle stub (err e) state save world = Outcome.refused (Refusal.engine_error e)

-- Runs the engine on what was loaded, and saves the collections.
unfoldable pub transact :
    {A : Type 0}
    → Stub
    → PdsLedgerState
    → Exec A
    → (A → PdsLedgerState → World → World)
    → Transaction (Submitted A)
unfolding build_engine
transact stub partial call save world =
    let (outcome, after) = call (build_engine stub partial) in
    settle stub outcome (export_state after) save world
