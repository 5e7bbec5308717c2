-- ===== src/Ledger/Tests.antt =====
-- Runs on the demo ledger, and the balance theorems at them.
mod Invariants
mod Registers
mod History
use toomoki_cdac_pds.Ledger.Balance.Distribute.{record_distribution-conserves}
use toomoki_cdac_pds.Ledger.Balance.FpsReceipt.{record_fps_receipt-conserves}
use toomoki_cdac_pds.Ledger.Balance.Receive.{receive_lot-conserves}
use toomoki_cdac_pds.Ledger.Balance.Allocate.{allocate_to_fps-conserves}
use toomoki_cdac_pds.Ledger.Balance.Quantities.{accounted}
use toomoki_cdac_pds.Ledger.Distribute.{record_distribution, DistributionInput}
use toomoki_cdac_pds.Ledger.Allocate.{
  record_fps_receipt, FpsReceiptInput, allocate_to_fps, AllocateInput,
}
use toomoki_cdac_pds.Ledger.Receive.{receive_lot, ReceiveInput}
use toomoki_cdac_pds.Prelude.{String, List, Option, ◌≡◌, refl, none, some, [], ◌∷◌}
use toomoki_cdac_pds.Prelude.Int.{ℤ, pos}
use toomoki_cdac_pds.SharedTypes.{Stage, AuthMode, AuthResult}
use toomoki_cdac_pds.Ledger.State.{PdsLedger}
use toomoki_cdac_pds.Ledger.Exec.{Result, ok, err}
use toomoki_cdac_pds.Ledger.Dispatch.{DispatchInput, dispatch_lot}
use toomoki_cdac_pds.Ledger.Demo.{
  demo_dispatch, demo_receipt, demo_allocation, demo_fps_receipt, demo_distribution, engine, demo,
}
use toomoki_cdac_pds.Ledger.Balance.Dispatch.{dispatch_lot-conserves}

abbrev on_the_road : PdsLedger
on_the_road = (dispatch_lot demo_dispatch demo).1

abbrev allocated : PdsLedger
allocated = (allocate_to_fps demo_allocation demo).1

-- What a run left in stock, on the road and delivered.
abbrev stock_after : {A : Type 0} → Result A × PdsLedger → Option (List (String × ℤ))
stock_after (ok _, s) = some s.stock
stock_after (err _, s) = none

dispatch_run :
    stock_after (dispatch_lot demo_dispatch demo)
    ≡ some
        (("FCI-001:Rice", pos 600) ∷ ("GODOWN-B-001:Rice", pos 300) ∷ ("FPS-101:Rice", pos 40) ∷ [])
unfolding engine dispatch_lot
dispatch_run = refl

dispatch_lot-conserves_example : accounted on_the_road ≡ accounted demo
dispatch_lot-conserves_example = dispatch_lot-conserves demo_dispatch demo

receive_lot-conserves_example :
    accounted (receive_lot demo_receipt on_the_road).1 ≡ accounted on_the_road
unfolding engine dispatch_lot
receive_lot-conserves_example = receive_lot-conserves demo_receipt on_the_road (refl, tt)

allocate_to_fps-conserves_example : accounted allocated ≡ accounted demo
allocate_to_fps-conserves_example = allocate_to_fps-conserves demo_allocation demo

record_fps_receipt-conserves_example :
    accounted (record_fps_receipt demo_fps_receipt allocated).1 ≡ accounted allocated
unfolding engine allocate_to_fps
record_fps_receipt-conserves_example =
    record_fps_receipt-conserves demo_fps_receipt allocated (refl, tt)

record_distribution-conserves_example :
    accounted (record_distribution demo_distribution demo).1 ≡ accounted demo
record_distribution-conserves_example = record_distribution-conserves demo_distribution demo
