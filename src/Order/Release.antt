-- ===== src/Order/Release.antt =====
-- Giving reserved stock back (wms/domain/orders.py, `release_reserved_stock`).
pub mod Laws
use asf_wms.Prelude.{
  ℕ, ◌-◌, ◌==◌, min, leb, ltb, ltb_ℤ, ℤ, pos, ◌-ℤ◌, List, [], ◌∷◌, if◌then◌else◌, Result, ok, ◌>>◌,
  raise_if,
}
use asf_wms.Prelude.Table.{update, delete}
use asf_wms.Errors.{StockError, release_insufficient}
use asf_wms.Stock.{lot_pk}
use asf_wms.Order.Model.{
  OrderLine, OrderReservation, Store, Held, line_pk, reservation_pk, line_reservations,
}

-- A reservation that is used up is deleted, and else lowered.
unfoldable pub settle : OrderReservation → ℕ → List OrderReservation → List OrderReservation
settle r n rs =
    if leb r.quantity n
    then delete reservation_pk r.id rs
    else update reservation_pk r.id (λ row. record row { quantity = r.quantity - n }) rs

abbrev pub at_least_zero : ℤ → ℤ
at_least_zero q = if ltb_ℤ q (pos 0) then pos 0 else q

-- The writes of one round, with the lot as the query read it.
unfoldable pub release_held : Held → ℕ → Store → Store
unfolding settle
release_held h n s = record s {
  reservations = settle h.reservation n s.reservations;
  stock = record s.stock {
    lots =
        update lot_pk h.lot.id
          (λ row. record row {
            quantity_reserved = at_least_zero (h.lot.quantity_reserved -ℤ pos n);
          })
          s.stock.lots;
  };
}

-- The loop, with what is left to release.
unfoldable pub release_loop : List Held → ℕ → Store → ℕ × Store
release_loop [] remaining s = (remaining, s)
release_loop (h ∷ hs) remaining s =
    let n = min remaining h.reservation.quantity in
    let rest = release_loop hs (remaining - n) (release_held h n s) in
    if remaining == 0 then (remaining, s) else rest

-- The quantity is not negative where the program calls the function.
unfoldable pub release_reserved_stock : OrderLine → ℕ → Store → Result StockError Store
release_reserved_stock line quantity s =
    let (remaining, s') = release_loop (line_reservations line s) quantity s in
    if quantity == 0 then ok s else (do
      raise_if (ltb 0 remaining) release_insufficient
      ok (record s' {
        lines =
            update line_pk line.id
              (λ l. record l {
                reserved_quantity = line.reserved_quantity - (quantity - remaining);
              })
              s'.lines;
      }))
