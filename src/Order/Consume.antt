-- ===== src/Order/Consume.antt =====
-- Consuming reserved stock (wms/domain/orders.py, `consume_reserved_stock`).
pub mod Loop
pub mod Stale
use asf_wms.Prelude.{
  ℕ, suc, ◌+◌, ◌-◌, ◌==◌, min, ltb, leb_ℤ, ℤ, pos, pos_part, ◌-ℤ◌, Bool, true, false, Option, none,
  some, List, [], ◌∷◌, if◌then◌else◌, Result, ok, ◌>>=◌, ◌>>◌, raise_if,
}
use asf_wms.Prelude.Table.{update}
use asf_wms.Errors.{StockError, invalid_quantity, reservation_insufficient}
use asf_wms.Stock.{ProductLot, Stock, MovementType, lot_pk}
use asf_wms.Stock.Consume.{StockConsumeResult}
use asf_wms.Order.Model.{OrderLine, Store, Held, line_pk, line_reservations}
use asf_wms.Order.Release.{settle}

-- The keyword arguments of `consume_reserved_stock`, but the quantity.
pub record ConsumeReserved : Type 0 where
  pub user : Option ℕ
  pub line : OrderLine
  pub movement_type : MovementType
  pub shipment : Option ℕ
  pub carton : Option ℕ

-- The lot object after `quantity_reserved -= take` and `quantity_on_hand -= take`.
abbrev pub drawn : ProductLot → ℕ → ProductLot
drawn l n = record l {
  quantity_on_hand = l.quantity_on_hand -ℤ pos n;
  quantity_reserved = l.quantity_reserved -ℤ pos n;
}

-- The writes of one round, with the lot as the query read it.
unfoldable pub draw_held : ConsumeReserved → Held → ℕ → Store → Store
draw_held r h n s = record s {
  reservations = settle h.reservation n s.reservations;
  stock = record s.stock {
    lots =
        update lot_pk h.lot.id
          (λ row. record row {
            quantity_on_hand = h.lot.quantity_on_hand -ℤ pos n;
            quantity_reserved = h.lot.quantity_reserved -ℤ pos n;
          })
          s.stock.lots;
    movements =
        record {
          movement_type = r.movement_type;
          product = r.line.product;
          product_lot = h.lot.id;
          quantity = pos n;
          from_location = some h.lot.location;
          to_location = none;
          reason_code = [];
          reason_notes = [];
          related_carton = r.carton;
          related_shipment = r.shipment;
          created_by = r.user;
        }
        ∷ s.stock.movements;
  };
}

pub record Drawn : Type 0 where
  pub consumed : List StockConsumeResult
  pub remaining : ℕ
  pub store : Store

unfoldable pub draw_loop : ConsumeReserved → List Held → ℕ → Store → Drawn
draw_loop r [] remaining s = record { consumed = []; remaining = remaining; store = s }
draw_loop r (h ∷ hs) remaining s =
    let n = min remaining h.reservation.quantity in
    let skip = draw_loop r hs remaining s in
    let rest = draw_loop r hs (remaining - n) (draw_held r h n s) in
    let used : StockConsumeResult = record { lot = drawn h.lot n; quantity = n } in
    if remaining == 0
    then record { consumed = []; remaining = remaining; store = s }
    else if n == 0
    then skip
    else record { consumed = used ∷ rest.consumed; remaining = rest.remaining; store = rest.store }

-- `max(0, reserved - quantity)` and `prepared + quantity`
abbrev pub fulfil : OrderLine → ℕ → Store → Store
fulfil line quantity s = record s {
  lines =
      update line_pk line.id
        (λ l. record l {
          reserved_quantity = line.reserved_quantity - quantity;
          prepared_quantity = line.prepared_quantity + quantity;
        })
        s.lines;
}

unfoldable pub consume_reserved_stock :
    ConsumeReserved → ℤ → Store → Result StockError (List StockConsumeResult × Store)
consume_reserved_stock r quantity s = do
  raise_if (leb_ℤ quantity (pos 0)) invalid_quantity
  let d = draw_loop r (line_reservations r.line s) (pos_part quantity) s
  raise_if (ltb 0 d.remaining) reservation_insufficient
  ok (d.consumed, fulfil r.line (pos_part quantity) d.store)
