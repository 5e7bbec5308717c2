-- ===== src/Ledger/History/Answer.antt =====
-- What the answer keeps of the events that were found: filters, sorts and one event for each id.
use toomoki_cdac_pds.Prelude.{
  is_some, String, ◌≡◌, refl, sym, ap, inl, inr, true, List, [], ◌∷◌, some, Bool-cases,
  Option-cases, eq_refl, str_eq,
}
use toomoki_cdac_pds.StringMap.{StringMap, get, set, get-set, has, values}
use toomoki_cdac_pds.StringMap.Keys.{KeyedBy, KeyedBy-set, KeyedBy-get}
use toomoki_cdac_pds.Ledger.History.{unique_events}
use toomoki_cdac_pds.SharedTypes.Events.{LedgerEvent}
use mathlib.Core.Option.{some-injective}
use mathlib.Core.Path.{subst}
use mathlib.Core.Bool.{true≢false}
use mathlib.Core.List.{Memᴰ}
use mathlib.Core.List.Memᴰ

abbrev ById : StringMap LedgerEvent → Type 0
ById = KeyedBy (λ e. e.ledger_tx_id)

unique_events-ById :
    (events : List LedgerEvent) (m : StringMap LedgerEvent) → ById m → ById (unique_events events m)
unfolding unique_events
unique_events-ById [] m h = h
unique_events-ById (e ∷ events) m h =
    unique_events-ById events (set m e.ledger_tx_id e)
      (KeyedBy-set (λ x. x.ledger_tx_id) m e.ledger_tx_id e h refl)

unique_events-has :
    (events : List LedgerEvent) (m : StringMap LedgerEvent) (k : String)
    → has m k ≡ true
    → has (unique_events events m) k ≡ true
unfolding unique_events
unique_events-has [] m k h = h
unique_events-has (e ∷ events) m k h =
    unique_events-has events (set m e.ledger_tx_id e) k
      (elim (Bool-cases (str_eq e.ledger_tx_id k)) [
        | inl same ↦ rw (get-set m e.ledger_tx_id k e, same) refl
        | inr other ↦ rw (get-set m e.ledger_tx_id k e, other) h
      ])

unique_events-found :
    (events : List LedgerEvent) (m : StringMap LedgerEvent) (e : LedgerEvent)
    → Memᴰ e events
    → has (unique_events events m) e.ledger_tx_id ≡ true
unfolding unique_events
unique_events-found [] m e h = absurd (Memᴰ.not-nil h)
unique_events-found (x ∷ events) m e h = elim (Memᴰ.cases_cons h) [
  | inr later ↦ unique_events-found events (set m x.ledger_tx_id x) e later
  | inl same ↦ unique_events-has events (set m x.ledger_tx_id x) e.ledger_tx_id (
      subst (λ y. has (set m x.ledger_tx_id x) y.ledger_tx_id ≡ true) (sym same)
        (rw (get-set m x.ledger_tx_id x.ledger_tx_id x, eq_refl x.ledger_tx_id) refl))
]

get-Memᴰ :
    {V : Type 0} (m : StringMap V) (k : String) (v : V) → get m k ≡ some v → Memᴰ v (values m)
unfolding get
get-Memᴰ [] k v e = absurd (true≢false (sym (ap is_some e)))
get-Memᴰ ((j, w) ∷ m) k v e = elim (Bool-cases (str_eq j k)) [
  | inl here ↦ Memᴰ.head (sym (some-injective w v (rw here at e)))
  | inr other ↦ Memᴰ.tail (get-Memᴰ m k v (rw other at e))
]

-- For every event that was found, the answer has one of the same transaction.
pub unique_events-keeps :
    (events : List LedgerEvent) (e : LedgerEvent)
    → Memᴰ e events
    → (h : LedgerEvent) × Memᴰ h (values (unique_events events []))
      × (h.ledger_tx_id ≡ e.ledger_tx_id)
unique_events-keeps events e m =
    elim (Option-cases (get (unique_events events []) e.ledger_tx_id)) [
      | inl absent ↦
          let no = unique_events-found events [] e m in absurd (true≢false (rw absent at (sym no)))
      | inr (h, hit) ↦ (
        h,
        get-Memᴰ (unique_events events []) e.ledger_tx_id h hit,
        KeyedBy-get (λ x. x.ledger_tx_id) (unique_events events []) e.ledger_tx_id
            (unique_events-ById events [] tt) hit,
      )
    ]
