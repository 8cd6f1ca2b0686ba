-- ===== src/Order/Reserve/Entries.antt =====
-- The reservations that a reservation of an order enters (wms/domain/orders.py,
-- `reserve_stock_for_order`): for which line and on which lot.
use asf_wms.Prelude.{
  ℕ, ◌+◌, ◌-◌, ◌==◌, ◌≤◌, min, ◌≡◌, refl, inl, inr, ℤ, pos, pos_part, ◌+ℤ◌, int_laws, parts_of_eq,
  Bool-cases, some, List, [], ◌∷◌, All, arith, if◌then◌else◌, ok,
}
use mathlib.Core.Path.{subst}
use asf_wms.Prelude.Results.{>>=-eq-ok}
use asf_wms.Prelude.Table.{find, update, Distinct}
use asf_wms.Stock.{ProductLot, lot_pk, available_quantity}
use asf_wms.Stock.Consume.{fefo_lots, available_total}
use asf_wms.Stock.Consume.Loop.{AreStored}
use asf_wms.Stock.Consume.Places.{IsSound}
use asf_wms.Stock.Consume.Product.{share}
use asf_wms.Stock.Consume.Correct.{fefo-AreStored, fefo-Distinct}
use asf_wms.Order.Model.{OrderLine, OrderReservation, Store}
use asf_wms.Order.Reserve.{reserve_lot, reserve_loop, book, reserve_line, reserve_lines}
use asf_wms.Order.Reserve.Loop.{reserve_lot-AreStored, reserve_line-Reserves}

-- What the lot with a key has reserved.
abbrev pub reserved_at : ℕ → List ProductLot → ℤ
reserved_at j [] = pos 0
reserved_at j (l ∷ ls) = (if l.id == j then l.quantity_reserved else pos 0) +ℤ reserved_at j ls

-- The units in the reservations on a lot.
abbrev pub units_on_lot : ℕ → List OrderReservation → ℕ
units_on_lot j [] = 0
units_on_lot j (r ∷ rs) = share r.product_lot j r.quantity + units_on_lot j rs

-- The units in the reservations of a line.
abbrev pub units_for_line : ℕ → List OrderReservation → ℕ
units_for_line k [] = 0
units_for_line k (r ∷ rs) = share r.order_line k r.quantity + units_for_line k rs

reserved_at-update :
    (j k : ℕ) (q : ℤ) (ls : List ProductLot) {row : ProductLot}
    → find lot_pk k ls ≡ some row
    → reserved_at j (update lot_pk k (λ r. record r { quantity_reserved = q }) ls)
        +ℤ (if row.id == j then row.quantity_reserved else pos 0)
      ≡ reserved_at j ls +ℤ (if row.id == j then q else pos 0)
reserved_at-update j k q [] h = cc
reserved_at-update j k q (l ∷ ls) {row} h =
    grind (int_laws, reserved_at-update j k q ls {row = row})

-- Between two stores, what a lot has reserved changes as the reservations on it do, and the line's
-- reservations have `n` units more.
pub record Enters (j k n : ℕ) (s s' : Store) : Type 0 where
  pub on_lot :
      reserved_at j s'.stock.lots +ℤ pos (units_on_lot j s.reservations)
      ≡ reserved_at j s.stock.lots +ℤ pos (units_on_lot j s'.reservations)
  pub for_line : units_for_line k s'.reservations ≡ units_for_line k s.reservations + n

module _ (j k : ℕ) where
  Enters-none : (s : Store) → Enters j k 0 s s
  Enters-none s = record { on_lot = refl; for_line = omega arith }

  Enters-trans :
      (m n : ℕ) (s t u : Store) → Enters j k m s t → Enters j k n t u → Enters j k (m + n) s u
  Enters-trans m n s t u h g = record {
    on_lot = omega (int_laws, parts_of_eq h.on_lot, parts_of_eq g.on_lot);
    for_line = omega (arith, h.for_line, g.for_line);
  }

  reserve_lot-Enters :
      (line : OrderLine) (l : ProductLot) (n : ℕ) (s : Store)
      → find lot_pk l.id s.stock.lots ≡ some l
      → Enters j k (share line.id k n) s (reserve_lot line l n s)
  unfolding reserve_lot
  reserve_lot-Enters line l n s h =
      let e = reserved_at-update j l.id (l.quantity_reserved +ℤ pos n) s.stock.lots h in
      record { on_lot = grind (int_laws, e); for_line = omega arith }

  share_split : (i m n : ℕ) → m ≤ n → share i k m + share i k (n - m) ≡ share i k n
  share_split i m n h = ground (arith, h)

  reserve_loop-Enters :
      (line : OrderLine) (ls : List ProductLot) (n : ℕ) (s : Store)
      → n ≤ available_total ls
      → Distinct lot_pk ls
      → AreStored s.stock ls
      → Enters j k (share line.id k n) s (reserve_loop line ls n s)
  unfolding reserve_loop
  reserve_loop-Enters line [] n s h d st =
      let e : share line.id k n ≡ 0 = ground (arith, h) in rw e (Enters-none s)
  reserve_loop-Enters line (l ∷ ls) n s h d st =
      let m = min n (pos_part (available_quantity l)) in
      let s1 = reserve_lot line l m s in
      elim (Bool-cases (n == 0)) [
        | inl done ↦
            let e : share line.id k n ≡ 0 = ground (arith, done) in rw (done, e) (Enters-none s)
        | inr more ↦ elim (Bool-cases (pos_part (available_quantity l) == 0)) [
          | inl nothing ↦
              rw (more, nothing) (reserve_loop-Enters line ls n s (ground arith) d.1 st.1)
          | inr free ↦
              let one = reserve_lot-Enters line l m s st.0 in
              let rest =
                reserve_loop-Enters line ls (n - m) s1 (omega arith) d.1
                  (reserve_lot-AreStored line l m s ls d.0 st.1) in
              rw (more, free)
                (subst (λ i. Enters j k i s (reserve_loop line ls (n - m) s1))
                  (share_split line.id m n (omega arith))
                  (Enters-trans (share line.id k m) (share line.id k (n - m)) s s1
                    (reserve_loop line ls (n - m) s1) one rest))
        ]
      ]

  reserve_line-Enters :
      (line : OrderLine) (s : Store) {s' : Store}
      → Distinct lot_pk s.stock.lots
      → reserve_line line s ≡ ok s'
      → Enters j k (share line.id k (line.quantity - line.reserved_quantity)) s s'
  unfolding reserve_line
  reserve_line-Enters line s {s'} d h =
      let n = line.quantity - line.reserved_quantity in
      let ls = fefo_lots line.product s.stock.lots in
      elim (Bool-cases (n == 0)) [
        | inl none_needed ↦
            let e : share line.id k n ≡ 0 = ground (arith, none_needed) in
            let same : s ≡ s' = ground arith in rw (e, ← same) (Enters-none s)
        | inr needed ↦
            let enough : n ≤ available_total ls = ground arith in
            let done : book line n (reserve_loop line ls n s) ≡ s' = ground arith in
            let r =
              reserve_loop-Enters line ls n s enough (fefo-Distinct line.product s.stock d)
                (fefo-AreStored line.product s.stock d) in
            rw (← done) (record { on_lot = r.on_lot; for_line = r.for_line })
      ]

-- The units that the line with a key still wants.
abbrev pub wanted_by : ℕ → List OrderLine → ℕ
wanted_by k [] = 0
wanted_by k (l ∷ ls) = share l.id k (l.quantity - l.reserved_quantity) + wanted_by k ls

pub reserve_lines-Enters :
    (j k : ℕ) (lines : List OrderLine) (s : Store) {s' : Store}
    → Distinct lot_pk s.stock.lots
    → All IsSound s.stock.lots
    → reserve_lines lines s ≡ ok s'
    → Enters j k (wanted_by k lines) s s'
unfolding reserve_lines
reserve_lines-Enters j k [] s {s'} d sound h =
    let same : s ≡ s' = cc in rw (← same) (Enters-none j k s)
reserve_lines-Enters j k (l ∷ ls) s {s'} d sound h =
    let (t, first, rest) = >>=-eq-ok (reserve_line l s) (reserve_lines ls) h in
    let r = reserve_line-Reserves l s {s' = t} d sound first in
    Enters-trans j k (share l.id k (l.quantity - l.reserved_quantity)) (wanted_by k ls) s t s'
      (reserve_line-Enters j k l s {s' = t} d first)
      (reserve_lines-Enters j k ls t {s' = s'} r.distinct r.sound rest)
