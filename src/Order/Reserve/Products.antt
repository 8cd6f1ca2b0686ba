-- ===== src/Order/Reserve/Products.antt =====
-- The products that a reservation reserves (wms/domain/orders.py, `reserve_stock_for_order`).
use asf_wms.Prelude.{
  All-filter, ℕ, ◌+◌, ◌-◌, ◌==◌, ◌≤◌, min, ◌≡◌, sym, ap, ◌∙◌, inl, inr, ℤ, pos, pos_part, ◌+ℤ◌,
  int_laws, parts_of_eq, Bool-cases, some, List, [], ◌∷◌, All, filter, arith, if◌then◌else◌, ok,
  raise_if,
}
use asf_wms.Prelude.Results.{>>=-eq-ok}
use asf_wms.Prelude.Table.{
  find, update, Distinct, find-key, find-update_self, All-found, filter-Distinct,
}
use asf_wms.Errors.{order_locked}
use asf_wms.Stock.{ProductLot, lot_pk, available_quantity, reserved_of}
use asf_wms.Stock.Consume.{fefo_lots, available_total}
use asf_wms.Stock.Consume.Loop.{AreStored}
use asf_wms.Stock.Consume.Places.{IsSound}
use asf_wms.Stock.Consume.Product.{AreOf, fefo-AreOf, share}
use asf_wms.Stock.Consume.Correct.{fefo-AreStored, fefo-Distinct}
use asf_wms.Order.Model.{Order, OrderLine, OrderStatus, Store, order_pk, line_pk}
use asf_wms.Order.Reserve.{
  reserve_lot, reserve_loop, book, reserve_line, reserve_lines, is_final, closed,
  reserve_stock_for_order,
}
use asf_wms.Order.Reserve.Entries.{Enters, wanted_by, reserve_lines-Enters}
use asf_wms.Order.Reserve.Fulfilled.{fulfilled, reserve_lines-fulfilled}
use asf_wms.Order.Reserve.Loop.{
  Reserves, wanted, reserve_lot-AreStored, reserve_line-Reserves, reserve_stock_for_order-Reserves,
}

reserved_of-update :
    (p k : ℕ) (q : ℤ) (ls : List ProductLot) {row : ProductLot}
    → find lot_pk k ls ≡ some row
    → reserved_of p (update lot_pk k (λ r. record r { quantity_reserved = q }) ls)
        +ℤ (if row.product == p then row.quantity_reserved else pos 0)
      ≡ reserved_of p ls +ℤ (if row.product == p then q else pos 0)
reserved_of-update p k q [] h = cc
reserved_of-update p k q (l ∷ ls) {row} h =
    grind (int_laws, reserved_of-update p k q ls {row = row})

module _ (p : ℕ) (line : OrderLine) where
  reserve_lot-reserved_of :
      (l : ProductLot) (n : ℕ) (s : Store)
      → find lot_pk l.id s.stock.lots ≡ some l
      → l.product ≡ line.product
      → reserved_of p (reserve_lot line l n s).stock.lots
        ≡ reserved_of p s.stock.lots +ℤ pos (share line.product p n)
  unfolding reserve_lot
  reserve_lot-reserved_of l n s h mine =
      let e = reserved_of-update p l.id (l.quantity_reserved +ℤ pos n) s.stock.lots h in
      grind (int_laws, e, mine)

  reserve_loop-reserved_of :
      (ls : List ProductLot) (n : ℕ) (s : Store)
      → n ≤ available_total ls
      → Distinct lot_pk ls
      → AreStored s.stock ls
      → AreOf line.product ls
      → reserved_of p (reserve_loop line ls n s).stock.lots
        ≡ reserved_of p s.stock.lots +ℤ pos (share line.product p n)
  unfolding reserve_loop
  reserve_loop-reserved_of [] n s h d st mine = grind (int_laws)
  reserve_loop-reserved_of (l ∷ ls) n s h d st mine =
      let m = min n (pos_part (available_quantity l)) in
      grind (
        int_laws,
        reserve_loop-reserved_of ls n s,
        reserve_loop-reserved_of ls (n - m) (reserve_lot line l m s),
        reserve_lot-AreStored line l m s ls d.0 st.1,
        reserve_lot-reserved_of l m s st.0 mine.0,
      )

  reserve_line-reserved_of :
      (s : Store) {s' : Store}
      → Distinct lot_pk s.stock.lots
      → reserve_line line s ≡ ok s'
      → reserved_of p s'.stock.lots
        ≡ reserved_of p s.stock.lots
          +ℤ pos (share line.product p (line.quantity - line.reserved_quantity))
  unfolding reserve_line
  reserve_line-reserved_of s {s'} d h =
      let n = line.quantity - line.reserved_quantity in
      let ls = fefo_lots line.product s.stock.lots in
      elim (Bool-cases (n == 0)) [
        | inl none_needed ↦
            let e : n ≡ 0 = ground arith in
            let same : s ≡ s' = ground arith in rw (e, ← same) (grind int_laws)
        | inr needed ↦
            let enough : n ≤ available_total ls = ground arith in
            let done : book line n (reserve_loop line ls n s) ≡ s' = ground arith in
            rw (← done) (
              reserve_loop-reserved_of ls n s enough (fefo-Distinct line.product s.stock d)
                (fefo-AreStored line.product s.stock d) (fefo-AreOf line.product s.stock.lots))
      ]

-- The units of a product that the lines of an order still want.
abbrev pub wanted_of : ℕ → List OrderLine → ℕ
wanted_of p [] = 0
wanted_of p (l ∷ ls) = share l.product p (l.quantity - l.reserved_quantity) + wanted_of p ls

reserve_lines-reserved_of :
    (p : ℕ) (lines : List OrderLine) (s : Store) {s' : Store}
    → Distinct lot_pk s.stock.lots
    → All IsSound s.stock.lots
    → reserve_lines lines s ≡ ok s'
    → reserved_of p s'.stock.lots ≡ reserved_of p s.stock.lots +ℤ pos (wanted_of p lines)
unfolding reserve_lines
reserve_lines-reserved_of p [] s {s'} d sound h =
    let same : s ≡ s' = cc in rw (← same) (omega int_laws)
reserve_lines-reserved_of p (l ∷ ls) s {s'} d sound h =
    let (t, first, rest) = >>=-eq-ok (reserve_line l s) (reserve_lines ls) h in
    let r = reserve_line-Reserves l s {s' = t} d sound first in
    let e = reserve_line-reserved_of p l s {s' = t} d first in
    let e' = reserve_lines-reserved_of p ls t {s' = s'} r.distinct r.sound rest in
    omega (int_laws, parts_of_eq e, parts_of_eq e')

-- From lots and lines with distinct keys, no lot with a negative quantity or more reserved than on hand,
-- the reservation of a stored order that succeeds reserves just what its lines still want: on the lots of
-- each product what the lines of the product want, over all lots and in the reservations what all lines
-- want, with the physical stock as before and the lots again as described. What each lot has reserved
-- changes as the reservations on it do, and the reservations of each line have what it wanted more. Each
-- of the lines is then stored with all that it asks for reserved, and the order is stored as reserved.
pub reserve_stock_for_order_by_product :
    (order : Order) (s : Store) (p j k : ℕ) {row : Order} {s' : Store}
    → Distinct lot_pk s.stock.lots
    → All IsSound s.stock.lots
    → Distinct line_pk s.lines
    → find order_pk order.id s.orders ≡ some row
    → reserve_stock_for_order order s ≡ ok s'
    → let lines = filter (λ (l : OrderLine). l.order == order.id) s.lines in
      (reserved_of p s'.stock.lots ≡ reserved_of p s.stock.lots +ℤ pos (wanted_of p lines))
      × Reserves (wanted lines) s s'
      × Enters j k (wanted_by k lines) s s'
      × All (λ l. find line_pk l.id s'.lines ≡ some (fulfilled l)) lines
      × (find order_pk order.id s'.orders ≡ some (record row { status = OrderStatus.reserved }))
unfolding reserve_stock_for_order
reserve_stock_for_order_by_product order s p j k {row} {s'} d sound keys st h =
    let own = λ (l : OrderLine). l.order == order.id in
    let lines = filter own s.lines in
    let (_, _, h1) = >>=-eq-ok (raise_if (is_final order.status) order_locked) _ h in
    let (t, booked, h2) = >>=-eq-ok (reserve_lines lines s) _ h1 in
    let done : closed order t ≡ s' = cc in
    let entered = reserve_lines-Enters j k lines s d sound booked in
    let stored =
      All-filter (λ l. find line_pk l.id s.lines ≡ some l) own s.lines
        (All-found line_pk s.lines keys) in
    let (all, _, orders) =
      reserve_lines-fulfilled lines s {s' = t} (filter-Distinct line_pk own s.lines keys) stored
        booked in
    (
      ap (λ u. reserved_of p u.stock.lots) (sym done)
          ∙ reserve_lines-reserved_of p lines s d sound booked,
      reserve_stock_for_order-Reserves order s d sound h,
      rw (← done) (record { on_lot = entered.on_lot; for_line = entered.for_line }),
      rw (← done) all,
      rw (← done) (
          find-update_self order_pk order.id _ t.orders (find-key order_pk order.id s.orders st)
            (ap (find order_pk order.id) orders ∙ st)),
    )
