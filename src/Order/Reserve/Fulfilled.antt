-- ===== src/Order/Reserve/Fulfilled.antt =====
-- A reservation fulfils the lines of the order (wms/domain/orders.py, `reserve_stock_for_order`).
use asf_wms.Prelude.{
  ℕ, ◌+◌, ◌-◌, ◌==◌, min, ◌≡◌, ◌≢◌, refl, sym, ap, ◌∙◌, inl, inr, pos_part, Bool-cases, some, List,
  [], ◌∷◌, All, All-both, arith, ok,
}
use asf_wms.Prelude.Results.{>>=-eq-ok}
use asf_wms.Prelude.Table.{find, Fresh, Distinct, find-update_self, find-update_ne}
use asf_wms.Stock.{ProductLot, available_quantity}
use asf_wms.Stock.Consume.{fefo_lots}
use asf_wms.Order.Model.{OrderLine, Store, line_pk}
use asf_wms.Order.Reserve.{reserve_lot, reserve_loop, book, reserve_line, reserve_lines}

-- The loop over the lots leaves the tables of orders and lines.
reserve_loop-kept :
    (line : OrderLine) (ls : List ProductLot) (n : ℕ) (s : Store)
    → ((reserve_loop line ls n s).lines ≡ s.lines) × ((reserve_loop line ls n s).orders ≡ s.orders)
unfolding reserve_loop reserve_lot
reserve_loop-kept line [] n s = (refl, refl)
reserve_loop-kept line (l ∷ ls) n s =
    let m = min n (pos_part (available_quantity l)) in
    let (skip, skip') = reserve_loop-kept line ls n s in
    let (rest, rest') = reserve_loop-kept line ls (n - m) (reserve_lot line l m s) in
    (ground (arith, skip, rest), ground (arith, skip', rest'))

-- A line with all that it asks for reserved.
abbrev pub fulfilled : OrderLine → OrderLine
fulfilled l = record l {
  reserved_quantity = l.reserved_quantity + (l.quantity - l.reserved_quantity);
}

fulfilled_already : (l : OrderLine) → l.quantity - l.reserved_quantity ≡ 0 → l ≡ fulfilled l
fulfilled_already l h = ap (λ n. record l { reserved_quantity = n }) (omega (arith, h))

-- The line is fulfilled, other lines and all orders are as before.
reserve_line-fulfilled :
    (line : OrderLine) (s : Store) {s' : Store}
    → find line_pk line.id s.lines ≡ some line
    → reserve_line line s ≡ ok s'
    → (find line_pk line.id s'.lines ≡ some (fulfilled line))
      × ((j : ℕ) → j ≢ line.id → find line_pk j s'.lines ≡ find line_pk j s.lines)
      × (s'.orders ≡ s.orders)
unfolding reserve_line
reserve_line-fulfilled line s {s'} st h =
    let n = line.quantity - line.reserved_quantity in
    let t = reserve_loop line (fefo_lots line.product s.stock.lots) n s in
    let (kept, orders) = reserve_loop-kept line (fefo_lots line.product s.stock.lots) n s in
    elim (Bool-cases (n == 0)) [
      | inl none_needed ↦
          let e : n ≡ 0 = ground arith in
          let same : s ≡ s' = ground arith in
          rw (← same) (st ∙ ap some (fulfilled_already line e), λ j ne. refl, refl)
      | inr needed ↦
          let done : book line n t ≡ s' = ground arith in
          rw (← done) (
            find-update_self line_pk line.id _ t.lines refl (ap (find line_pk line.id) kept ∙ st),
            λ j ne.
                find-update_ne line_pk j line.id _ t.lines (λ _. refl) ne
                ∙ ap (find line_pk j) kept,
            orders,
          )
    ]

-- The lines are fulfilled, other lines and all orders are as before.
pub reserve_lines-fulfilled :
    (ls : List OrderLine) (s : Store) {s' : Store}
    → Distinct line_pk ls
    → All (λ l. find line_pk l.id s.lines ≡ some l) ls
    → reserve_lines ls s ≡ ok s'
    → All (λ l. find line_pk l.id s'.lines ≡ some (fulfilled l)) ls
      × ((j : ℕ) → Fresh line_pk j ls → find line_pk j s'.lines ≡ find line_pk j s.lines)
      × (s'.orders ≡ s.orders)
unfolding reserve_lines
reserve_lines-fulfilled [] s {s'} d st h =
    let same : s ≡ s' = cc in rw (← same) (tt, λ j f. refl, refl)
reserve_lines-fulfilled (l ∷ ls) s {s'} d st h =
    let (t, first, rest) = >>=-eq-ok (reserve_line l s) (reserve_lines ls) h in
    let (mine, others, orders) = reserve_line-fulfilled l s {s' = t} st.0 first in
    let stored =
      All-both (λ x. x.id ≢ l.id) (λ x. find line_pk x.id s.lines ≡ some x)
        (λ x. find line_pk x.id t.lines ≡ some x) ls (λ x ne f. others x.id ne ∙ f) d.0 st.1 in
    let (all, keep, orders') = reserve_lines-fulfilled ls t {s' = s'} d.1 stored rest in
    ((keep l.id d.0 ∙ mine, all), λ j f. keep j f.1 ∙ others j (λ e. f.0 (sym e)), orders' ∙ orders)
