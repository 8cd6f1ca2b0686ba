-- ===== src/Stock/Consume.antt =====
-- First expired, first out (wms/domain/stock.py, `fefo_lots` and `consume_stock`).
pub mod Loop
pub mod Places
pub mod Correct
pub mod Product
pub mod First
use asf_wms.Prelude.{
  ℕ, zero, suc, ◌+◌, ◌-◌, ◌==◌, min, ℤ, pos, pos_part, ◌-ℤ◌, ltb_ℤ, leb_ℤ, Bool, true, false, ◌&&◌,
  Option, none, some, List, [], ◌∷◌, filter, if◌then◌else◌, is_some, Result, ok, err, ◌>>=◌, ◌>>◌,
  raise_if,
}
use asf_wms.Prelude.Table.{update}
use asf_wms.Prelude.OrderBy.{null_first, order_by}
use asf_wms.Errors.{StockError, invalid_quantity, insufficient_stock}
use asf_wms.Stock.Model.{
  Text, MovementType, ProductLot, StockMovement, Stock, lot_pk, available_quantity, is_available,
}

-- `Case(When(expires_on__isnull=True, then=1), default=0)`
abbrev pub expires_null : ProductLot → ℕ
expires_null l = if is_some l.expires_on then 0 else 1

-- `order_by("expires_null", "expires_on", "received_on", "id")`
abbrev pub fefo_key : ProductLot → List ℕ
fefo_key l = expires_null l ∷ null_first l.expires_on ∷ null_first l.received_on ∷ l.id ∷ []

abbrev pub is_candidate : ℕ → ProductLot → Bool
is_candidate product l =
    l.product == product && is_available l.status && ltb_ℤ (pos 0) (available_quantity l)

unfoldable pub fefo_lots : ℕ → List ProductLot → List ProductLot
fefo_lots product lots = order_by fefo_key (filter (is_candidate product) lots)

-- `sum(max(0, lot.quantity_on_hand - lot.quantity_reserved) for lot in lots)`
abbrev pub available_total : List ProductLot → ℕ
available_total [] = 0
available_total (l ∷ ls) = pos_part (available_quantity l) + available_total ls

-- The keyword arguments of `consume_stock`, but the quantity.
pub record ConsumeRequest : Type 0 where
  pub user : Option ℕ
  pub product : ℕ
  pub movement_type : MovementType
  pub shipment : Option ℕ
  pub carton : Option ℕ
  pub reason_code : Text
  pub reason_notes : Text

pub record StockConsumeResult : Type 0 where
  pub lot : ProductLot
  pub quantity : ℕ

-- The writes of one round: the lot's new quantity and the movement.
unfoldable pub take_from_lot : ConsumeRequest → ProductLot → ℕ → Stock → Stock
take_from_lot r lot n s = record s {
  lots =
      update lot_pk lot.id (λ row. record row { quantity_on_hand = lot.quantity_on_hand -ℤ pos n })
        s.lots;
  movements =
      record {
        movement_type = r.movement_type;
        product = r.product;
        product_lot = lot.id;
        quantity = pos n;
        from_location = some lot.location;
        to_location = none;
        reason_code = r.reason_code;
        reason_notes = r.reason_notes;
        related_carton = r.carton;
        related_shipment = r.shipment;
        created_by = r.user;
      }
      ∷ s.movements;
}

-- The loop over the lots; `remaining` starts above 0 and never falls below it.
unfoldable pub consume_loop :
    ConsumeRequest → List ProductLot → ℕ → Stock → List StockConsumeResult × Stock
consume_loop r [] remaining s = ([], s)
consume_loop r (lot ∷ lots) remaining s =
    let n = min remaining (pos_part (available_quantity lot)) in
    let skip = consume_loop r lots remaining s in
    let rest = consume_loop r lots (remaining - n) (take_from_lot r lot n s) in
    let used : StockConsumeResult = record {
      lot = record lot { quantity_on_hand = lot.quantity_on_hand -ℤ pos n };
      quantity = n;
    } in
    if remaining == 0 then ([], s) else if n == 0 then skip else (used ∷ rest.0, rest.1)

unfoldable pub consume_stock :
    ConsumeRequest → ℤ → Stock → Result StockError (List StockConsumeResult × Stock)
consume_stock r quantity s = do
  raise_if (leb_ℤ quantity (pos 0)) invalid_quantity
  let lots = fefo_lots r.product s.lots
  raise_if (ltb_ℤ (pos (available_total lots)) quantity) (insufficient_stock (available_total lots))
  ok (consume_loop r lots (pos_part quantity) s)
