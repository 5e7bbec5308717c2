-- ===== src/Ledger/History/Complete.antt =====
-- The history of a lot has the events of every lot that is linked to the lot.
use toomoki_cdac_pds.Ledger.History.Fuel.{collected, Came}
use toomoki_cdac_pds.Ledger.History.Visits.{IsFinished, Visited, Between}
use toomoki_cdac_pds.Ledger.History.{values, children_of, lot_ids, collect, parents_of}
use toomoki_cdac_pds.Ledger.State.{PdsLedger}
use toomoki_cdac_pds.SharedTypes.Events.{LedgerEvent}
use toomoki_cdac_pds.Prelude.{
  String, ◌≡◌, refl, sym, inl, inr, true, suc, List, [], some, Option-cases, length,
}
use toomoki_cdac_pds.Ledger.History.{
  concerns_lot, get_lot_history, by_time, unique_events, direct_events,
}
use toomoki_cdac_pds.Ledger.History.Answer.{unique_events-keeps}
use toomoki_cdac_pds.Members.{filter-Memᴰ, sort_by-Memᴰ}
use mathlib.Core.Path.{subst}
use mathlib.Core.Bool.{true≢false}
use mathlib.Core.List.{Memᴰ}
use toomoki_cdac_pds.StringMap.{values}

-- The lots that a chain of transformations links to a lot.
pub data Linked (s : PdsLedger) (lot_id : String) : String → Type 0 where
  itself : Linked s lot_id lot_id
  parent : {id x : String} → Linked s lot_id id → Memᴰ x (parents_of s id) → Linked s lot_id x
  child : {id x : String} → Linked s lot_id id → Memᴰ x (children_of s id) → Linked s lot_id x

module _ (s : PdsLedger) (lot_id : String) where
  IsFinished-Visited :
      {found : List LedgerEvent} {after : List String}
      → Between s [] found after
      → (x : String) → Visited x after
      → IsFinished s found after x
  IsFinished-Visited between x marked = elim (between.finished x marked) [
    | inl none_before ↦ absurd (true≢false (sym none_before))
    | inr f ↦ f
  ]

  Linked-Visited :
      {found : List LedgerEvent} {after : List String} {x : String}
      → Between s [] found after
      → Visited lot_id after
      → Linked s lot_id x
      → Visited x after × IsFinished s found after x
  Linked-Visited between start itself = (start, IsFinished-Visited between lot_id start)
  Linked-Visited between start (parent {id} {x} link m) =
      let marked = (Linked-Visited between start link).1.parents x m in
      (marked, IsFinished-Visited between x marked)
  Linked-Visited between start (child {id} {x} link m) =
      let marked = (Linked-Visited between start link).1.children x m in
      (marked, IsFinished-Visited between x marked)

  -- The history of a lot is found, and it has an event of the same transaction for every event that
  -- concerns the lot or a lot that a chain of transformations links to it.
  pub get_lot_history_complete :
      (history : List LedgerEvent) × (get_lot_history lot_id s ≡ some history)
      × ((x : String) (e : LedgerEvent)
          → Linked s lot_id x
          → Memᴰ e s.events
          → concerns_lot x e ≡ true
          → (h : LedgerEvent) × Memᴰ h history × (h.ledger_tx_id ≡ e.ledger_tx_id))
  unfolding get_lot_history direct_events
  get_lot_history_complete =
      elim (Option-cases (collect s (suc (length (lot_ids s lot_id))) lot_id [])) [
        | inl out ↦ absurd (subst (Came _) out (collected s lot_id))
        | inr ((found, visited), e) ↦
            let (between, start) =
              subst (Came (λ f a. Between s [] f a × Visited lot_id a)) e (collected s lot_id) in
            (
              by_time s (values (unique_events found [])),
              rw e refl,
              λ x event link m concerns.
                  let here =
                    (Linked-Visited between start link).1.events event
                      (filter-Memᴰ (concerns_lot x) s.events event m concerns) in
                  let (h, kept, same) = unique_events-keeps found event here in
                  (h, sort_by-Memᴰ _ _ h kept, same),
            )
      ]
