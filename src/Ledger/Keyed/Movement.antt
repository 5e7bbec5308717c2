-- ===== src/Ledger/Keyed/Movement.antt =====
-- The movements of grain keep every record under its own id.
use toomoki_cdac_pds.Ledger.Allocate.{
  FpsReceiptInput, AllocateInput, commit_fps_receipt, flag_short_fps_receipt, commit_allocation,
}
use toomoki_cdac_pds.Ledger.Receive.{
  AuthorizeInput, stamped, ReceiveInput, commit_receipt, flag_short_receipt, close_root_lot,
  stamp_transfer,
}
use toomoki_cdac_pds.StringMap.Keys.{KeyedBy-get}
use toomoki_cdac_pds.StringMap.{get}
use toomoki_cdac_pds.SharedTypes.Events.{Approval}
use toomoki_cdac_pds.Ledger.Exec.Gives.{Keeps-bind_found, Gives}
use toomoki_cdac_pds.Ledger.Exec.{Exec, modify, ◌>>=◌}
use toomoki_cdac_pds.Ledger.Checks.{must_get_lot}
use toomoki_cdac_pds.Ledger.Dispatch.{DispatchInput, dispatch_lot, commit_dispatch, moving_lot}
use toomoki_cdac_pds.Prelude.{
  ◌otherwise◌, truthy, Bool-cases, ◌∙◌, inr, inl, Option-cases, Option, ◌≡◌, String,
}
use toomoki_cdac_pds.SharedTypes.{CommodityLot, Stakeholder}
use toomoki_cdac_pds.Prelude.Int.{pos, leb_ℤ, ℤ}
use toomoki_cdac_pds.Ledger.Exec.Keeps.{Keeps-bind, Keeps-modify, Keeps, keeps_rules}
use toomoki_cdac_pds.Ledger.Quiet.{log_rules}
use toomoki_cdac_pds.Ledger.Record.{consume_stock, add_stock}
use toomoki_cdac_pds.Ledger.Lots.{
  available_on, split_lot_for_partial_dispatch, create_commodity_lot,
}
use toomoki_cdac_pds.Ledger.Quiet.Checks.{
  check_fps_receipt-Keeps, check_allocation-Keeps, check_receipt-Keeps, check_dispatch-Keeps,
  lookup_rules,
}
use toomoki_cdac_pds.Ledger.Receive.{authorize_movement, receive_lot}
use toomoki_cdac_pds.Ledger.Allocate.{allocate_to_fps, record_fps_receipt}
use toomoki_cdac_pds.Ledger.Keyed.{
  IsKeyed-set_lot, transfers_keyed, FpsAllocation, PdsLedger, TransferOrder, lots_keyed,
  KeyedBy-set, IsKeyed-quiet, set, IsKeyed, keyed_writes,
}

pub consume_stock-IsKeyed :
    (id commodity : String) (qty : ℤ) → Keeps IsKeyed (consume_stock id commodity qty)
unfolding consume_stock
consume_stock-IsKeyed id commodity qty = search (keeps_rules, keyed_writes) depth 9

add_stock-IsKeyed : (id commodity : String) (qty : ℤ) → Keeps IsKeyed (add_stock id commodity qty)
unfolding add_stock
add_stock-IsKeyed id commodity qty = search (keeps_rules, keyed_writes) depth 9

pub create_commodity_lot-IsKeyed :
    (input : CommodityLot) → Keeps IsKeyed (create_commodity_lot input)
unfolding create_commodity_lot
create_commodity_lot-IsKeyed input =
    search (log_rules, keyed_writes, add_stock-IsKeyed, lookup_rules) depth 30

split-IsKeyed :
    (parent : CommodityLot) (child : String) (qty : ℤ)
    → Keeps IsKeyed (split_lot_for_partial_dispatch parent child qty)
unfolding split_lot_for_partial_dispatch
split-IsKeyed parent child qty = search (log_rules, keyed_writes) depth 20

moving_lot-IsKeyed :
    (lot : CommodityLot) (input : DispatchInput) → Keeps IsKeyed (moving_lot lot input)
unfolding moving_lot
moving_lot-IsKeyed lot input = search (log_rules, split-IsKeyed) depth 9

-- The lot that a lookup finds in a keyed ledger has the id that was looked up.
must_get_lot-own : (id : String) → Gives IsKeyed (λ lot. lot.lot_id ≡ id) (must_get_lot id)
unfolding must_get_lot ◌>>=◌ IsKeyed
must_get_lot-own id = record {
  at = λ s h. elim (Option-cases (get s.lots id)) [
    | inl absent ↦ rw absent h
    | inr (lot, e) ↦ rw e (KeyedBy-get _ s.lots id (lots_keyed s h) e, h)
  ];
}

place_lot-IsKeyed :
    (id : String) (lot : CommodityLot)
    → lot.lot_id ≡ id
    → Keeps IsKeyed (modify (λ s. record s { lots = set s.lots id lot }))
unfolding IsKeyed
place_lot-IsKeyed id lot own = Keeps-modify _ (λ s ((lo, tf, al, di, en), registers, others).
    ((KeyedBy-set _ s.lots id lot lo own, tf, al, di, en), registers, others))

-- A lot is looked up and written again under the id that found it.
replace_lot-IsKeyed :
    {B : Type 0} (id : String) (change : CommodityLot → CommodityLot) (next : Unit {0} → Exec B)
    → ((lot : CommodityLot) → (change lot).lot_id ≡ lot.lot_id)
    → ((x : Unit {0}) → Keeps IsKeyed (next x))
    → Keeps IsKeyed (
        must_get_lot id >>= λ lot.
        modify (λ s. record s { lots = set s.lots id (change lot) }) >>= next)
replace_lot-IsKeyed id change next same rest =
    Keeps-bind_found _ _ _ (must_get_lot-own id)
      (λ lot own. Keeps-bind _ _ (place_lot-IsKeyed id (change lot) (same lot ∙ own)) rest)

commit_dispatch-IsKeyed :
    (input : DispatchInput) (lot : CommodityLot) (transporter : Stakeholder)
    (prior : Option Approval)
    → Keeps IsKeyed (commit_dispatch input lot transporter prior)
unfolding commit_dispatch
commit_dispatch-IsKeyed input lot transporter prior =
    search (log_rules, keyed_writes, consume_stock-IsKeyed, moving_lot-IsKeyed, replace_lot-IsKeyed)
      depth 20

pub dispatch_lot-IsKeyed : (input : DispatchInput) → Keeps IsKeyed (dispatch_lot input)
unfolding dispatch_lot
dispatch_lot-IsKeyed input =
    search (keeps_rules, IsKeyed-quiet, check_dispatch-Keeps, commit_dispatch-IsKeyed) depth 9

place_transfer-IsKeyed :
    (id : String) (t : TransferOrder) (s : PdsLedger)
    → t.transfer_id ≡ id
    → IsKeyed s
    → IsKeyed (record s { transfers = set s.transfers id t })
unfolding IsKeyed
place_transfer-IsKeyed id t s own ((lo, tf, al, di, en), registers, others) =
    ((lo, KeyedBy-set _ s.transfers id t tf own, al, di, en), registers, others)

stamp_transfer-IsKeyed :
    (id by at : String) (ro_ref : Option String) (s : PdsLedger)
    → IsKeyed s
    → IsKeyed (stamp_transfer id by at ro_ref s)
unfolding stamp_transfer
stamp_transfer-IsKeyed id by at ro_ref s h = elim (Option-cases (get s.transfers id)) [
  | inl absent ↦ rw (absent, stamp_transfer) h
  | inr (t, e) ↦
      rw (e, stamp_transfer)
        (place_transfer-IsKeyed id (stamped t by at ro_ref) s
          (KeyedBy-get _ s.transfers id (transfers_keyed s h) e) h)
]

pub authorize_movement-IsKeyed : (input : AuthorizeInput) → Keeps IsKeyed (authorize_movement input)
unfolding authorize_movement
authorize_movement-IsKeyed input =
    search (log_rules, keyed_writes, lookup_rules, stamp_transfer-IsKeyed) depth 20

close_root_lot-IsKeyed :
    (lot : CommodityLot) (to_org : String) (shortage : ℤ) (s : PdsLedger)
    → IsKeyed s
    → IsKeyed (close_root_lot lot to_org shortage s)
unfolding close_root_lot
close_root_lot-IsKeyed lot to_org shortage s h = elim (Bool-cases (truthy lot.root_lot_id)) [
  | inr whole ↦ rw (whole, close_root_lot) h
  | inl slice ↦ elim (Option-cases (get s.lots (lot.root_lot_id otherwise ""))) [
    | inl absent ↦ rw (slice, absent, close_root_lot) h
    | inr (root, e) ↦ elim (Bool-cases (leb_ℤ (available_on root) (pos 0))) [
      | inr rest ↦ rw (slice, e, rest, close_root_lot) h
      | inl empty ↦ rw (slice, e, empty, close_root_lot) (IsKeyed-set_lot _ s h)
    ]
  ]
]

flag_short_receipt-Keeps :
    (t : TransferOrder) (received shortage : ℤ)
    → Keeps IsKeyed (flag_short_receipt t received shortage)
unfolding flag_short_receipt
flag_short_receipt-Keeps t received shortage = search (log_rules, IsKeyed-quiet) depth 12

commit_receipt-IsKeyed :
    (input : ReceiveInput) (t : TransferOrder) (lot : CommodityLot)
    → Keeps IsKeyed (commit_receipt input t lot)
unfolding commit_receipt
commit_receipt-IsKeyed input t lot =
    search
      (log_rules, keyed_writes, add_stock-IsKeyed, close_root_lot-IsKeyed, flag_short_receipt-Keeps)
      depth 30

pub receive_lot-IsKeyed : (input : ReceiveInput) → Keeps IsKeyed (receive_lot input)
unfolding receive_lot
receive_lot-IsKeyed input =
    search (keeps_rules, IsKeyed-quiet, check_receipt-Keeps, commit_receipt-IsKeyed) depth 9

commit_allocation-IsKeyed :
    (input : AllocateInput) (transporter : Stakeholder)
    → Keeps IsKeyed (commit_allocation input transporter)
unfolding commit_allocation
commit_allocation-IsKeyed input transporter =
    search (log_rules, keyed_writes, consume_stock-IsKeyed) depth 30

pub allocate_to_fps-IsKeyed : (input : AllocateInput) → Keeps IsKeyed (allocate_to_fps input)
unfolding allocate_to_fps
allocate_to_fps-IsKeyed input =
    search (keeps_rules, IsKeyed-quiet, check_allocation-Keeps, commit_allocation-IsKeyed) depth 9

flag_short_fps_receipt-Keeps :
    (t : FpsAllocation) (received shortage : ℤ)
    → Keeps IsKeyed (flag_short_fps_receipt t received shortage)
unfolding flag_short_fps_receipt
flag_short_fps_receipt-Keeps t received shortage = search (log_rules, IsKeyed-quiet) depth 12

commit_fps_receipt-IsKeyed :
    (input : FpsReceiptInput) (t : FpsAllocation) → Keeps IsKeyed (commit_fps_receipt input t)
unfolding commit_fps_receipt
commit_fps_receipt-IsKeyed input t =
    search (log_rules, keyed_writes, add_stock-IsKeyed, flag_short_fps_receipt-Keeps) depth 30

pub record_fps_receipt-IsKeyed :
    (input : FpsReceiptInput) → Keeps IsKeyed (record_fps_receipt input)
unfolding record_fps_receipt
record_fps_receipt-IsKeyed input =
    search (keeps_rules, IsKeyed-quiet, check_fps_receipt-Keeps, commit_fps_receipt-IsKeyed) depth 9
