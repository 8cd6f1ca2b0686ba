-- ===== src/Stock/Adjust.antt =====
-- Corrections and moves of one lot (wms/domain/stock.py, `adjust_stock` and `transfer_stock`).
pub mod Laws
use asf_wms.Prelude.{
  ℕ, ◌+◌, ◌==◌, ℤ, pos, pos_part, neg_part, ◌+ℤ◌, ltb_ℤ, eqb_ℤ, ◌&&◌, Option, none, some, List, [],
  ◌∷◌, if◌then◌else◌, Result, ok, ◌>>=◌, ◌>>◌, raise_if,
}
use asf_wms.Prelude.Table.{update}
use asf_wms.Errors.{
  StockError, null_quantity, insufficient_for_adjustment, reserved_stock, already_at_location,
}
use asf_wms.Stock.Model.{Text, ProductLot, Stock, adjust, transfer, lot_pk}

-- `abs(delta)`: one of the two parts is 0.
abbrev pub abs : ℤ → ℤ
abs d = pos (pos_part d + neg_part d)

-- The writes of `adjust_stock`.
unfoldable pub write_adjustment :
    Option ℕ → ProductLot → ℤ → Text → Text → Stock → ProductLot × Stock
write_adjustment user lot delta reason_code reason_notes s =
    let new_quantity = lot.quantity_on_hand +ℤ delta in
    (
      record lot { quantity_on_hand = new_quantity },
      record s {
        lots = update lot_pk lot.id (λ row. record row { quantity_on_hand = new_quantity }) s.lots;
        movements =
            record {
              movement_type = adjust;
              product = lot.product;
              product_lot = lot.id;
              quantity = abs delta;
              from_location = if ltb_ℤ delta (pos 0) then some lot.location else none;
              to_location = if ltb_ℤ (pos 0) delta then some lot.location else none;
              reason_code = reason_code;
              reason_notes = reason_notes;
              related_carton = none;
              related_shipment = none;
              created_by = user;
            }
            ∷ s.movements;
      },
    )

-- An absent reason is the empty text.
unfoldable pub adjust_stock :
    Option ℕ → ProductLot → ℤ → Text → Text → Stock → Result StockError (ProductLot × Stock)
adjust_stock user lot delta reason_code reason_notes s = do
  let new_quantity = lot.quantity_on_hand +ℤ delta
  raise_if (eqb_ℤ delta (pos 0)) null_quantity
  raise_if (ltb_ℤ new_quantity (pos 0)) insufficient_for_adjustment
  raise_if (ltb_ℤ delta (pos 0) && ltb_ℤ new_quantity lot.quantity_reserved) reserved_stock
  ok (write_adjustment user lot delta reason_code reason_notes s)

-- The writes of `transfer_stock`.
unfoldable pub write_transfer : Option ℕ → ProductLot → ℕ → Stock → ProductLot × Stock
write_transfer user lot to_location s = (
  record lot { location = to_location },
  record s {
    lots = update lot_pk lot.id (λ row. record row { location = to_location }) s.lots;
    movements =
        record {
          movement_type = transfer;
          product = lot.product;
          product_lot = lot.id;
          quantity = lot.quantity_on_hand;
          from_location = some lot.location;
          to_location = some to_location;
          reason_code = [];
          reason_notes = [];
          related_carton = none;
          related_shipment = none;
          created_by = user;
        }
        ∷ s.movements;
  },
)

unfoldable pub transfer_stock :
    Option ℕ → ProductLot → ℕ → Stock → Result StockError (ProductLot × Stock)
transfer_stock user lot to_location s = do
  raise_if (lot.location == to_location) already_at_location
  ok (write_transfer user lot to_location s)
