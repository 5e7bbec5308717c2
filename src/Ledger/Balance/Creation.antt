-- ===== src/Ledger/Balance/Creation.antt =====
-- `createCommodityLot` brings the lot's quantity into the ledger.
use toomoki_cdac_pds.Ledger.Balance.Moves.{accounted-added}
use toomoki_cdac_pds.Ledger.Record.{record_event, add_stock, draw_timestamp, timestamp_or}
use toomoki_cdac_pds.Ledger.Checks.{assert_active_stakeholder}
use toomoki_cdac_pds.Prelude.{◌≡◌, arith}
use toomoki_cdac_pds.Prelude.Int.{+ℤ-zero, ℤ, pos, ◌+ℤ◌}
use toomoki_cdac_pds.SharedTypes.{CommodityLot}
use toomoki_cdac_pds.Ledger.State.{PdsLedger}
use toomoki_cdac_pds.Ledger.Exec.{Result, ok, err, ◌>>=◌}
use toomoki_cdac_pds.Ledger.Lots.{create_commodity_lot}
use toomoki_cdac_pds.Ledger.Balance.Quantities.{accounted}

-- What a creation brought in: the quantity of the lot, or nothing when it threw.
abbrev pub brought_in : Result CommodityLot → ℤ
brought_in (ok lot) = lot.quantity_kg
brought_in (err _) = pos 0

-- A lot that is created adds exactly its quantity; a creation that throws adds nothing.
pub create_commodity_lot-adds :
    (input : CommodityLot) (s : PdsLedger)
    → let (r, s') = create_commodity_lot input s in accounted s' ≡ accounted s +ℤ brought_in r
unfolding create_commodity_lot ◌>>=◌ assert_active_stakeholder timestamp_or draw_timestamp add_stock
    record_event
create_commodity_lot-adds input s = ground (
  arith,
  accounted-added input.current_owner input.commodity input.quantity_kg s,
  +ℤ-zero (accounted s),
)
