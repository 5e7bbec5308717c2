-- ===== src/Ledger/Split.antt =====
-- A partial dispatch splits a lot: what stays and what leaves.
use toomoki_cdac_pds.Prelude.{String, Option, ◌≡◌, refl, none, some, false, str_eq}
use toomoki_cdac_pds.Prelude.Int.{ℤ, pos, ◌+ℤ◌, ◌-ℤ◌, int_laws}
use toomoki_cdac_pds.StringMap.{get, set, get-set, get-set_self}
use toomoki_cdac_pds.SharedTypes.{CommodityLot}
use toomoki_cdac_pds.Ledger.State.{PdsLedger}
use toomoki_cdac_pds.Ledger.Exec.{◌>>=◌}
use toomoki_cdac_pds.Ledger.Record.{record_event}
use toomoki_cdac_pds.Ledger.Lots.{
  available_on, root_of, split_lot_for_partial_dispatch, child_slice, parent_rest,
}

-- What the lot under an id holds, and its root.
abbrev pub held : Option CommodityLot → ℤ
held none = pos 0
held (some lot) = available_on lot

abbrev pub rooted : Option CommodityLot → Option String
rooted none = none
rooted (some lot) = some (root_of lot)

split_sum : (all part : ℤ) → (all -ℤ part) +ℤ part ≡ all
split_sum all part = omega int_laws

-- After a split under an id of its own, the two lots hold together what the lot held, both have
-- its root, and the slice holds what was dispatched.
pub split_lot_for_partial_dispatch-parts :
    (parent : CommodityLot) (child : String) (qty : ℤ) (s : PdsLedger)
    → str_eq child parent.lot_id ≡ false
    → let lots = (split_lot_for_partial_dispatch parent child qty s).1.lots in
      (held (get lots parent.lot_id) +ℤ held (get lots child) ≡ available_on parent)
      × (rooted (get lots parent.lot_id) ≡ some (root_of parent))
      × (rooted (get lots child) ≡ some (root_of parent))
      × (held (get lots child) ≡ qty)
unfolding split_lot_for_partial_dispatch ◌>>=◌ record_event
split_lot_for_partial_dispatch-parts parent child qty s apart =
    let at = s.runtime.timestamp s.timestamps_drawn in
    let rest = parent_rest parent qty in
    let slice = child_slice parent child qty at in
    let both = set s.lots parent.lot_id rest in
    rw
      (
        get-set both child parent.lot_id slice,
        apart,
        get-set_self s.lots parent.lot_id rest,
        get-set_self both child slice,
      )
      (split_sum (available_on parent) qty, refl, refl, refl)
