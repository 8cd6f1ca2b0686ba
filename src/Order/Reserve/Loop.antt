-- ===== src/Order/Reserve/Loop.antt =====
-- The loops of a reservation (wms/domain/orders.py, `reserve_stock_for_order`).
use asf_wms.Prelude.{
  ℕ, ◌+◌, ◌-◌, ◌≤◌, ◌==◌, min, ◌≡◌, refl, ◌∙◌, inl, inr, ℤ, pos, pos_part, ◌+ℤ◌, int_laws,
  parts_of_eq, parts_exclusive, some, List, [], ◌∷◌, All, arith, Bool-cases, ok, raise_if, filter,
}
use mathlib.Core.Path.{subst}
use asf_wms.Prelude.Results.{>>=-eq-ok}
use asf_wms.Prelude.Table.{
  find, update, Fresh, Distinct, update-found, update-Distinct, All-update, find-All,
}
use asf_wms.Errors.{order_locked}
use asf_wms.Stock.{ProductLot, lot_pk, available_quantity, total_on_hand}
use asf_wms.Stock.Consume.{fefo_lots, available_total}
use asf_wms.Stock.Consume.Loop.{AreStored}
use asf_wms.Stock.Consume.Places.{IsSound}
use asf_wms.Stock.Consume.Correct.{fefo-AreStored, fefo-Distinct}
use asf_wms.Order.Model.{Order, OrderLine, Store, lots_reserved, reservations_total}
use asf_wms.Order.Reserve.{
  reserve_lot, reserve_loop, book, reserve_line, reserve_lines, is_final, closed,
  reserve_stock_for_order,
}

pub lots_reserved-update :
    (k : ℕ) (q : ℤ) (ls : List ProductLot) {row : ProductLot}
    → find lot_pk k ls ≡ some row
    → (lots_reserved (update lot_pk k (λ r. record r { quantity_reserved = q }) ls)
          +ℤ row.quantity_reserved
        ≡ lots_reserved ls +ℤ q)
      × (total_on_hand (update lot_pk k (λ r. record r { quantity_reserved = q }) ls)
          ≡ total_on_hand ls)
lots_reserved-update k q [] h = cc
lots_reserved-update k q (l ∷ ls) {row} h =
    grind (int_laws, lots_reserved-update k q ls {row = row})

-- What a reservation of `n` units does: the lots and the reservations each count `n` more as
-- reserved, the physical stock is as before, the keys are distinct, and no lot has a negative
-- quantity or more reserved than on hand.
pub record Reserves (n : ℕ) (s s' : Store) : Type 0 where
  pub on_lots : lots_reserved s'.stock.lots ≡ lots_reserved s.stock.lots +ℤ pos n
  pub on_reservations : reservations_total s'.reservations ≡ reservations_total s.reservations + n
  pub on_hand : total_on_hand s'.stock.lots ≡ total_on_hand s.stock.lots
  pub distinct : Distinct lot_pk s'.stock.lots
  pub sound : All IsSound s'.stock.lots

Reserves-trans : (m n : ℕ) (s t u : Store) → Reserves m s t → Reserves n t u → Reserves (m + n) s u
Reserves-trans m n s t u h k = record {
  on_lots = omega (int_laws, parts_of_eq h.on_lots, parts_of_eq k.on_lots);
  on_reservations = omega (arith, h.on_reservations, k.on_reservations);
  on_hand = k.on_hand ∙ h.on_hand;
  distinct = k.distinct;
  sound = k.sound;
}

Reserves-none :
    (s : Store) → Distinct lot_pk s.stock.lots → All IsSound s.stock.lots → Reserves 0 s s
Reserves-none s d h = record {
  on_lots = omega int_laws;
  on_reservations = omega arith;
  on_hand = refl;
  distinct = d;
  sound = h;
}

module _ (line : OrderLine) where
  reserve_lot-Reserves :
      (l : ProductLot) (n : ℕ) (s : Store)
      → n ≤ pos_part (available_quantity l)
      → find lot_pk l.id s.stock.lots ≡ some l
      → Distinct lot_pk s.stock.lots
      → All IsSound s.stock.lots
      → Reserves n s (reserve_lot line l n s)
  unfolding reserve_lot
  reserve_lot-Reserves l n s h st d sound =
      let (e, same) = lots_reserved-update l.id (l.quantity_reserved +ℤ pos n) s.stock.lots st in
      let mine = find-All lot_pk IsSound l.id s.stock.lots sound st in
      record {
        on_lots = omega (int_laws, parts_of_eq e);
        on_reservations = omega arith;
        on_hand = same;
        distinct = update-Distinct lot_pk l.id _ s.stock.lots (λ _. refl) d;
        sound =
            All-update lot_pk IsSound l.id _ s.stock.lots
              (λ row e'.
                let eq : l ≡ row = cc in
                rw (← eq) (omega (int_laws, mine, parts_exclusive (available_quantity l))))
              sound;
      }

  pub reserve_lot-AreStored :
      (l : ProductLot) (n : ℕ) (s : Store) (ls : List ProductLot)
      → Fresh lot_pk l.id ls
      → AreStored s.stock ls
      → AreStored (reserve_lot line l n s).stock ls
  unfolding reserve_lot
  reserve_lot-AreStored l n s ls f st = update-found lot_pk l.id _ s.stock.lots ls (λ _. refl) f st

  pub reserve_loop-Reserves :
      (ls : List ProductLot) (n : ℕ) (s : Store)
      → n ≤ available_total ls
      → Distinct lot_pk ls
      → AreStored s.stock ls
      → Distinct lot_pk s.stock.lots
      → All IsSound s.stock.lots
      → Reserves n s (reserve_loop line ls n s)
  unfolding reserve_loop
  reserve_loop-Reserves [] n s h dl st d sound =
      let e : n ≡ 0 = omega arith in rw e (Reserves-none s d sound)
  reserve_loop-Reserves (l ∷ ls) n s h dl st d sound =
      let m = min n (pos_part (available_quantity l)) in
      let s1 = reserve_lot line l m s in
      elim (Bool-cases (n == 0)) [
        | inl done ↦ let e : n ≡ 0 = ground arith in rw (done, e) (Reserves-none s d sound)
        | inr more ↦ elim (Bool-cases (pos_part (available_quantity l) == 0)) [
          | inl nothing ↦
              rw (more, nothing) (reserve_loop-Reserves ls n s (ground arith) dl.1 st.1 d sound)
          | inr free ↦
              let one = reserve_lot-Reserves l m s (omega arith) st.0 d sound in
              let split : m + (n - m) ≡ n = omega arith in
              let rest =
                reserve_loop-Reserves ls (n - m) s1 (omega arith) dl.1
                  (reserve_lot-AreStored l m s ls dl.0 st.1) one.distinct one.sound in
              rw (more, free)
                (subst (λ k. Reserves k s (reserve_loop line ls (n - m) s1)) split
                  (Reserves-trans m (n - m) s s1 (reserve_loop line ls (n - m) s1) one rest))
        ]
      ]

-- The units that the lines of an order still want.
abbrev pub wanted : List OrderLine → ℕ
wanted [] = 0
wanted (l ∷ ls) = (l.quantity - l.reserved_quantity) + wanted ls

pub reserve_line-Reserves :
    (line : OrderLine) (s : Store) {s' : Store}
    → Distinct lot_pk s.stock.lots
    → All IsSound s.stock.lots
    → reserve_line line s ≡ ok s'
    → Reserves (line.quantity - line.reserved_quantity) s s'
unfolding reserve_line
reserve_line-Reserves line s {s'} d sound h =
    let n = line.quantity - line.reserved_quantity in
    let ls = fefo_lots line.product s.stock.lots in
    elim (Bool-cases (n == 0)) [
      | inl none_needed ↦
          let e : n ≡ 0 = ground arith in
          let same : s ≡ s' = ground arith in rw (e, ← same) (Reserves-none s d sound)
      | inr needed ↦
          let enough : n ≤ available_total ls = ground arith in
          let done : book line n (reserve_loop line ls n s) ≡ s' = ground arith in
          let r =
            reserve_loop-Reserves line ls n s enough (fefo-Distinct line.product s.stock d)
              (fefo-AreStored line.product s.stock d) d sound in
          rw (← done) (record {
            on_lots = r.on_lots;
            on_reservations = r.on_reservations;
            on_hand = r.on_hand;
            distinct = r.distinct;
            sound = r.sound;
          })
    ]

reserve_lines-Reserves :
    (lines : List OrderLine) (s : Store) {s' : Store}
    → Distinct lot_pk s.stock.lots
    → All IsSound s.stock.lots
    → reserve_lines lines s ≡ ok s'
    → Reserves (wanted lines) s s'
unfolding reserve_lines
reserve_lines-Reserves [] s {s'} d sound h =
    let same : s ≡ s' = cc in rw (← same) (Reserves-none s d sound)
reserve_lines-Reserves (l ∷ ls) s {s'} d sound h =
    let (t, first, rest) = >>=-eq-ok (reserve_line l s) (reserve_lines ls) h in
    let r = reserve_line-Reserves l s {s' = t} d sound first in
    Reserves-trans (l.quantity - l.reserved_quantity) (wanted ls) s t s' r
      (reserve_lines-Reserves ls t r.distinct r.sound rest)

-- From lots with distinct keys, none of them with a negative quantity or more reserved than on hand,
-- the reservation of an order that succeeds reserves just what its lines still want: on the lots and
-- in the reservations alike, with the physical stock as before and the lots again as described.
pub reserve_stock_for_order-Reserves :
    (order : Order) (s : Store) {s' : Store}
    → Distinct lot_pk s.stock.lots
    → All IsSound s.stock.lots
    → reserve_stock_for_order order s ≡ ok s'
    → Reserves (wanted (filter (λ (l : OrderLine). l.order == order.id) s.lines)) s s'
unfolding reserve_stock_for_order
reserve_stock_for_order-Reserves order s {s'} d sound h =
    let lines = filter (λ (l : OrderLine). l.order == order.id) s.lines in
    let (_, _, h1) = >>=-eq-ok (raise_if (is_final order.status) order_locked) _ h in
    let (t, booked, h2) = >>=-eq-ok (reserve_lines lines s) _ h1 in
    let r = reserve_lines-Reserves lines s d sound booked in
    let done : closed order t ≡ s' = cc in
    rw (← done) (record {
      on_lots = r.on_lots;
      on_reservations = r.on_reservations;
      on_hand = r.on_hand;
      distinct = r.distinct;
      sound = r.sound;
    })
