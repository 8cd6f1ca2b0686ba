-- ===== src/Order/Reserve.antt =====
-- Reserving stock for an order (wms/domain/orders.py, `reserve_stock_for_order`).
pub mod Loop
pub mod Fulfilled
pub mod Entries
pub mod Products
use asf_wms.Prelude.{
  ℕ, suc, ◌+◌, ◌-◌, ◌==◌, min, ltb, ℤ, pos, pos_part, ◌+ℤ◌, Bool, true, false, List, [], ◌∷◌,
  if◌then◌else◌, Result, ok, ◌>>=◌, ◌>>◌, raise_if, filter,
}
use asf_wms.Prelude.Table.{update}
use asf_wms.Errors.{StockError, order_locked, insufficient_for_line}
use asf_wms.Stock.{ProductLot, Stock, lot_pk, available_quantity}
use asf_wms.Stock.Consume.{fefo_lots, available_total}
use asf_wms.Order.Model.{OrderStatus, Order, OrderLine, OrderReservation, Store, order_pk, line_pk}

-- The writes of one round: the lot's reserved quantity and the new reservation.
unfoldable pub reserve_lot : OrderLine → ProductLot → ℕ → Store → Store
reserve_lot line lot n s = record s {
  stock = record s.stock {
    lots =
        update lot_pk lot.id
          (λ row. record row { quantity_reserved = lot.quantity_reserved +ℤ pos n }) s.stock.lots;
  };
  reservations =
      record { id = s.next_reservation; order_line = line.id; product_lot = lot.id; quantity = n }
      ∷ s.reservations;
  next_reservation = suc s.next_reservation;
}

unfoldable pub reserve_loop : OrderLine → List ProductLot → ℕ → Store → Store
reserve_loop line [] remaining s = s
reserve_loop line (lot ∷ lots) remaining s =
    let available = pos_part (available_quantity lot) in
    let n = min remaining available in
    let skip = reserve_loop line lots remaining s in
    let rest = reserve_loop line lots (remaining - n) (reserve_lot line lot n s) in
    if remaining == 0 then s else if available == 0 then skip else rest

-- `line.reserved_quantity += needed`
abbrev pub book : OrderLine → ℕ → Store → Store
book line needed s = record s {
  lines =
      update line_pk line.id (λ l. record l { reserved_quantity = line.reserved_quantity + needed })
        s.lines;
}

-- One line of the order; `needed` is negative in the program where it is 0 here.
unfoldable pub reserve_line : OrderLine → Store → Result StockError Store
reserve_line line s =
    let needed = line.quantity - line.reserved_quantity in
    let lots = fefo_lots line.product s.stock.lots in
    if needed == 0 then ok s else (do
      raise_if (ltb (available_total lots) needed)
          (insufficient_for_line line.product (available_total lots))
      ok (book line needed (reserve_loop line lots needed s)))

unfoldable pub reserve_lines : List OrderLine → Store → Result StockError Store
reserve_lines [] s = ok s
reserve_lines (line ∷ lines) s = reserve_line line s >>= reserve_lines lines

abbrev pub is_final : OrderStatus → Bool
is_final OrderStatus.cancelled = true
is_final OrderStatus.ready = true
is_final _ = false

-- `order.status = OrderStatus.RESERVED`
abbrev pub closed : Order → Store → Store
closed order s = record s {
  orders = update order_pk order.id (λ o. record o { status = OrderStatus.reserved }) s.orders;
}

-- `order.lines.all()`: the lines stand in the table in the order of their products.
unfoldable pub reserve_stock_for_order : Order → Store → Result StockError Store
reserve_stock_for_order order s = do
  raise_if (is_final order.status) order_locked
  s' ← reserve_lines (filter (λ (l : OrderLine). l.order == order.id) s.lines) s
  ok (closed order s')
