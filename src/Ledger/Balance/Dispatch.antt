-- ===== src/Ledger/Balance/Dispatch.antt =====
-- `dispatchLot` moves the quantity from the sender's stock onto the road.
use toomoki_cdac_pds.Ledger.Record.{timestamp_or}
use toomoki_cdac_pds.Ledger.Balance.Moves.{
  accounted-set_transfer_new, Keeps-must_get_lot, Runs-set_lot, quiet_finish, accounted-taken,
  accounted-SameQuantities, consume_stock-then, taken,
}
use toomoki_cdac_pds.StringMap.{get, set}
use toomoki_cdac_pds.Prelude.{inl, ap, inr, some, Option-cases, none, ◌≡◌, String, Option, arith}
use toomoki_cdac_pds.Prelude.Int.{int_laws, ℤ}
use toomoki_cdac_pds.SharedTypes.{Stakeholder, TransferOrder, CommodityLot}
use toomoki_cdac_pds.SharedTypes.Events.{Approval}
use toomoki_cdac_pds.Ledger.State.{PdsLedger}
use toomoki_cdac_pds.Ledger.Exec.{◌>>=◌, modify}
use toomoki_cdac_pds.Ledger.Exec.Keeps.{Keeps-then, Keeps-modify, Keeps, keeps_rules}
use toomoki_cdac_pds.Ledger.Exec.Runs.{modify-then, Runs-then, runs_rules, Runs}
use toomoki_cdac_pds.Ledger.Lots.{split_lot_for_partial_dispatch}
use toomoki_cdac_pds.Ledger.Dispatch.{
  dispatch_lot, transfer_of, set_transfer, commit_dispatch, DispatchInput, choose_lot,
  check_stage_ii, moving_lot, check_dispatch,
}
use toomoki_cdac_pds.Ledger.Balance.Quantities.{
  SameQuantities-refl, Runs-timestamp_or, accounted, quiet_runs, quiet_rules, SameQuantities,
  Keeps-raise_audit_flag,
}

module _ {a : PdsLedger} where
  Keeps-choose_lot :
      (input : DispatchInput) (lot : CommodityLot) → Keeps (SameQuantities a) (choose_lot input lot)
  unfolding choose_lot
  Keeps-choose_lot input lot = search keeps_rules

  Keeps-check_stage_ii :
      (input : DispatchInput) (lot : CommodityLot) (prior : Option Approval)
      → Keeps (SameQuantities a) (check_stage_ii input lot prior)
  unfolding check_stage_ii
  Keeps-check_stage_ii input lot prior = search (keeps_rules, Keeps-raise_audit_flag)

  Keeps-place_lot :
      (id : String) (lot : CommodityLot)
      → Keeps (SameQuantities a) (modify (λ s. record s { lots = set s.lots id lot }))
  Keeps-place_lot id lot = Keeps-modify _ (λ s h. ground arith)

  Runs-split :
      (lot : CommodityLot) (child : String) (qty : ℤ)
      → Runs (SameQuantities a) (split_lot_for_partial_dispatch lot child qty)
  unfolding split_lot_for_partial_dispatch
  Runs-split lot child qty = search (quiet_runs, Runs-set_lot) depth 9

  Runs-moving_lot :
      (lot : CommodityLot) (input : DispatchInput) → Runs (SameQuantities a) (moving_lot lot input)
  unfolding moving_lot
  Runs-moving_lot lot input = search (runs_rules, Runs-split)

  Keeps-check_dispatch : (input : DispatchInput) → Keeps (SameQuantities a) (check_dispatch input)
  unfolding check_dispatch
  Keeps-check_dispatch input =
      search (quiet_rules, Keeps-must_get_lot, Keeps-choose_lot, Keeps-check_stage_ii) depth 40

module _ (input : DispatchInput) (lot : CommodityLot) (transporter : Stakeholder)
    (prior : Option Approval) (a : PdsLedger)
    (fresh : get a.transfers input.transfer_id ≡ none) where
  abbrev Conserved : PdsLedger → Type 0
  Conserved s = accounted s ≡ accounted a

  -- The transfer is written at a state that holds what is left after the withdrawal.
  set_transfer-conserves :
      (id at : String) (s₀ s : PdsLedger)
      → SameQuantities a s₀
      → SameQuantities (taken input.from_org lot.commodity input.dispatched_qty_kg s₀) s
      → Conserved (set_transfer (transfer_of input transporter prior id at) s)
  set_transfer-conserves id at s₀ s h₀ h =
      let t = transfer_of input transporter prior id at in
      grind (
        int_laws,
        accounted-set_transfer_new t s (rw (h.transfers, h₀.transfers) fresh),
        accounted-taken input.from_org lot.commodity input.dispatched_qty_kg s₀,
        accounted-SameQuantities h,
        accounted-SameQuantities h₀,
      )

  -- The writes of a dispatch, the withdrawal included, conserve the accounted quantity.
  commit_dispatch-conserves :
      (s : PdsLedger)
      → SameQuantities a s
      → Conserved (commit_dispatch input lot transporter prior s).1
  unfolding commit_dispatch
  commit_dispatch-conserves s h =
      let b = taken input.from_org lot.commodity input.dispatched_qty_kg s in
      consume_stock-then Conserved input.from_org lot.commodity input.dispatched_qty_kg _ s
        (accounted-SameQuantities h)
        (Runs-then (SameQuantities b) Conserved (moving_lot lot input) _ (Runs-moving_lot lot input)
          (λ id.
            Runs-then (SameQuantities b) Conserved (timestamp_or input.dispatch_timestamp) _
              (Runs-timestamp_or input.dispatch_timestamp)
              (λ at s₂ h₂. modify-then Conserved _ _ s₂ (
                quiet_finish _ _ _
                  (search (quiet_rules, Keeps-must_get_lot, Keeps-place_lot) depth 9)
                  (set_transfer-conserves id at s s₂ h h₂))))
          b (SameQuantities-refl b))

-- A known transfer id is refused before anything is written.
dispatch_known :
    (input : DispatchInput) (s : PdsLedger) {t : TransferOrder}
    → get s.transfers input.transfer_id ≡ some t
    → (dispatch_lot input s).1 ≡ s
unfolding dispatch_lot ◌>>=◌
dispatch_known input s e = rw e

-- A dispatch, whether it succeeds or throws, neither makes nor loses grain: what leaves the
-- sender's stock is on the road.
pub dispatch_lot-conserves :
    (input : DispatchInput) (s : PdsLedger) → accounted (dispatch_lot input s).1 ≡ accounted s
unfolding dispatch_lot
dispatch_lot-conserves input s = elim (Option-cases (get s.transfers input.transfer_id)) [
  | inr (t, e) ↦ ap accounted (dispatch_known input s e)
  | inl fresh ↦
      Keeps-then (SameQuantities s) (λ s'. accounted s' ≡ accounted s) (check_dispatch input) _
        (Keeps-check_dispatch input) (λ s' h. accounted-SameQuantities h)
        (λ (lot, transporter, prior) s' h.
          commit_dispatch-conserves input lot transporter prior s fresh s' h)
        s (SameQuantities-refl s)
]
