-- ===== src/Ledger/Atomic/Dispatch.antt =====
-- A dispatch that throws changes nothing but the clock, the log and the alerts.
use toomoki_cdac_pds.Ledger.Keyed.{IsKeyed, lots_keyed}
use toomoki_cdac_pds.Ledger.Atomic.{SameBusiness-refl, SameBusiness}
use toomoki_cdac_pds.Ledger.Exec.Runs.{Runs, Runs-modify}
use toomoki_cdac_pds.Ledger.Quiet.{IsQuiet, log_runs}
use toomoki_cdac_pds.SharedTypes.{TransferOrder}
use toomoki_cdac_pds.Ledger.Dispatch.{child_lot_id_of, set_transfer}
use toomoki_cdac_pds.Prelude.Int.{ℤ, ltb_ℤ}
use toomoki_cdac_pds.Ledger.Exec.Runs.{Returned}
use toomoki_cdac_pds.Ledger.Exec.Refuses.{IfThrown, Refuses-found}
use toomoki_cdac_pds.Ledger.Dispatch.{moving_lot}
use toomoki_cdac_pds.Ledger.Lots.{split_lot_for_partial_dispatch, available_on}
use toomoki_cdac_pds.Ledger.Record.{record_event, draw_timestamp, consume_stock, stock_at}
use toomoki_cdac_pds.Ledger.Balance.Moves.{taken}
use toomoki_cdac_pds.Ledger.Exec.{Exec, Result, ok, err, modify, ◌>>=◌}
use toomoki_cdac_pds.Ledger.Checks.{must_get_lot}
use toomoki_cdac_pds.Ledger.Dispatch.{DispatchInput, check_dispatch, commit_dispatch, dispatch_lot}
use toomoki_cdac_pds.SharedTypes.Events.{Approval}
use toomoki_cdac_pds.Prelude.{String, Option, ◌≡◌, refl, true, inl, inr, Bool-cases, arith}
use toomoki_cdac_pds.StringMap.{StringMap, set, has, get-set_self}
use toomoki_cdac_pds.Ledger.State.{PdsLedger}
use toomoki_cdac_pds.SharedTypes.{CommodityLot, Stakeholder}
use toomoki_cdac_pds.Ledger.Atomic.Stored.{Stored, check_dispatch-Stored}

has-set_self :
    (m : StringMap CommodityLot) (k : String) (v : CommodityLot) → has (set m k v) k ≡ true
has-set_self m k v = rw (get-set_self m k v) refl

-- The lot is there.
unfoldable HasLot : String → PdsLedger → Type 0
HasLot id s = has s.lots id ≡ true

HasLot-quiet : (id : String) → IsQuiet (HasLot id)
unfolding HasLot
HasLot-quiet id = record { clock = λ t i s h. h; log = λ e s h. h; alert = λ x s h. h }

HasLot-set_transfer : (id : String) (t : TransferOrder) → Runs (HasLot id) (modify (set_transfer t))
unfolding HasLot
HasLot-set_transfer id t = Runs-modify _ (λ s h. h)

HasLot-place :
    (id : String) (lot : CommodityLot)
    → Runs (HasLot id) (modify (λ s. record s { lots = set s.lots id lot }))
unfolding HasLot
HasLot-place id lot = Runs-modify _ (λ s h. rw (get-set_self s.lots id lot) refl)

HasLot-must_get : (id : String) → Runs (HasLot id) (must_get_lot id)
unfolding must_get_lot ◌>>=◌ HasLot
HasLot-must_get id = record { at = λ s h. ground (arith, h) }

ruleset lot_runs = (log_runs, HasLot-quiet, HasLot-set_transfer, HasLot-place, HasLot-must_get)

module _ {B : Type 0} (G : PdsLedger → Type 0) where
  found-IfThrown :
      (P : PdsLedger → Type 0) (r : Result B) (s : PdsLedger)
      → Returned P (r, s)
      → IfThrown G (r, s)
  found-IfThrown P (ok x) s h = tt
  found-IfThrown P (err e) s h = absurd h

  run-IfThrown :
      (P : PdsLedger → Type 0) (m : Exec B) → Runs P m → (s : PdsLedger) → P s → IfThrown G (m s)
  run-IfThrown P m run s h = let (r, s') = m s in found-IfThrown P r s' (run.at s h)

  -- The lot that moves is there, whether it was split off or is the whole lot.
  moving_lot-then :
      (lot : CommodityLot) (input : DispatchInput) (f : String → Exec B)
      → ((id : String) → Runs (HasLot id) (f id))
      → (s : PdsLedger) → HasLot lot.lot_id s
      → IfThrown G ((moving_lot lot input >>= f) s)
  unfolding moving_lot split_lot_for_partial_dispatch ◌>>=◌ record_event draw_timestamp HasLot
  moving_lot-then lot input f run s h =
      elim (Bool-cases (ltb_ℤ input.dispatched_qty_kg (available_on lot))) [
        | inr whole ↦
            rw whole (run-IfThrown (HasLot lot.lot_id) (f lot.lot_id) (run lot.lot_id) s h)
        | inl part ↦
            let id = child_lot_id_of lot input.transfer_id in
            rw part (run-IfThrown (HasLot id) (f id) (run id) _ (has-set_self _ id _))
      ]

  consume_stock-then :
      (id commodity : String) (qty : ℤ) (f : Unit {0} → Exec B) (s : PdsLedger)
      → G s
      → IfThrown G (f tt (taken id commodity qty s))
      → IfThrown G ((consume_stock id commodity qty >>= f) s)
  unfolding consume_stock ◌>>=◌
  consume_stock-then id commodity qty f s stop go =
      elim (Bool-cases (ltb_ℤ (stock_at id commodity s) qty)) [
        | inl short ↦ rw short stop
        | inr enough ↦ rw enough go
      ]

commit_dispatch-IfThrown :
    (G : PdsLedger → Type 0) (input : DispatchInput) (lot : CommodityLot)
    (transporter : Stakeholder) (prior : Option Approval) (s : PdsLedger)
    → HasLot lot.lot_id s
    → G s
    → IfThrown G (commit_dispatch input lot transporter prior s)
unfolding commit_dispatch HasLot
commit_dispatch-IfThrown G input lot transporter prior s there h =
    consume_stock-then G input.from_org lot.commodity input.dispatched_qty_kg _ s h (
      moving_lot-then G lot input _ (λ id. search lot_runs depth 30)
        (taken input.from_org lot.commodity input.dispatched_qty_kg s) there)

Stored-HasLot :
    (a s : PdsLedger) (lot : CommodityLot)
    → SameBusiness a s
    → Stored a.lots lot
    → HasLot lot.lot_id s
unfolding HasLot
Stored-HasLot a s lot same stored = rw same.lots stored

-- A dispatch that throws changes nothing but the clock, the log and the alerts, in a ledger whose
-- records stand under their own ids.
pub dispatch_lot-refuses :
    (input : DispatchInput) (s : PdsLedger)
    → IsKeyed s
    → IfThrown (SameBusiness s) (dispatch_lot input s)
unfolding dispatch_lot
dispatch_lot-refuses input s keyed =
    (Refuses-found (λ found. Stored s.lots found.0) (SameBusiness s) (check_dispatch input) _
        (check_dispatch-Stored s (lots_keyed s keyed) input)
        (λ (lot, transporter, prior) s' stored same.
          commit_dispatch-IfThrown (SameBusiness s) input lot transporter prior s'
            (Stored-HasLot s s' lot same stored) same)).within
      s (SameBusiness-refl s)
