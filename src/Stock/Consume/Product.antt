-- ===== src/Stock/Consume/Product.antt =====
-- From which product `consume_stock` takes (wms/domain/stock.py).
use asf_wms.Prelude.{
  ℕ, ◌-◌, ◌==◌, ◌≤◌, min, ◌≡◌, ap, ℤ, pos, pos_part, ◌+ℤ◌, ◌-ℤ◌, int_laws, true, some, List, [],
  ◌∷◌, All, All-both, filter, filter-test, arith, if◌then◌else◌, ok,
}
use asf_wms.Prelude.Table.{find, update, Distinct}
use asf_wms.Prelude.OrderBy.{All-order_by}
use asf_wms.Stock.Model.{ProductLot, Stock, lot_pk, available_quantity, on_hand_of}
use asf_wms.Stock.Consume.{
  ConsumeRequest, StockConsumeResult, fefo_key, fefo_lots, is_candidate, take_from_lot,
  consume_loop, available_total, consume_stock,
}
use asf_wms.Stock.Consume.Loop.{AreStored, take-AreStored}
use asf_wms.Stock.Consume.Correct.{consume_ok, fefo-AreStored, fefo-Distinct}

-- Every lot of the list is of the product.
abbrev pub AreOf : ℕ → List ProductLot → Type 0
AreOf p ls = All (λ l. l.product ≡ p) ls

pub fefo-AreOf : (p : ℕ) (ls : List ProductLot) → AreOf p (fefo_lots p ls)
unfolding fefo_lots
fefo-AreOf p ls =
    let candidate : ProductLot → Type 0 = λ l. is_candidate p l ≡ true in
    let tests = filter-test (is_candidate p) ls in
    All-order_by fefo_key (λ l. l.product ≡ p) (filter (is_candidate p) ls)
      (All-both candidate candidate (λ l. l.product ≡ p) (filter (is_candidate p) ls)
        (λ l h _. ground (arith, h)) tests tests)

-- `n` units where the product is the one that is looked at.
abbrev pub share : ℕ → ℕ → ℕ → ℕ
share product p n = if product == p then n else 0

on_hand_of-update :
    (p k : ℕ) (q : ℤ) (ls : List ProductLot) {row : ProductLot}
    → find lot_pk k ls ≡ some row
    → on_hand_of p (update lot_pk k (λ r. record r { quantity_on_hand = q }) ls)
        +ℤ (if row.product == p then row.quantity_on_hand else pos 0)
      ≡ on_hand_of p ls +ℤ (if row.product == p then q else pos 0)
on_hand_of-update p k q [] h = cc
on_hand_of-update p k q (l ∷ ls) {row} h = grind (int_laws, on_hand_of-update p k q ls {row = row})

module _ (r : ConsumeRequest) (p : ℕ) where
  take-on_hand_of :
      (l : ProductLot) (n : ℕ) (s : Stock)
      → find lot_pk l.id s.lots ≡ some l
      → l.product ≡ r.product
      → on_hand_of p (take_from_lot r l n s).lots +ℤ pos (share r.product p n) ≡ on_hand_of p s.lots
  unfolding take_from_lot
  take-on_hand_of l n s h mine =
      let e = on_hand_of-update p l.id (l.quantity_on_hand -ℤ pos n) s.lots h in
      grind (int_laws, e, mine)

  loop-on_hand_of :
      (ls : List ProductLot) (n : ℕ) (s : Stock)
      → n ≤ available_total ls
      → Distinct lot_pk ls
      → AreStored s ls
      → AreOf r.product ls
      → on_hand_of p (consume_loop r ls n s).1.lots +ℤ pos (share r.product p n)
        ≡ on_hand_of p s.lots
  unfolding consume_loop
  loop-on_hand_of [] n s h d st mine = grind (int_laws)
  loop-on_hand_of (l ∷ ls) n s h d st mine =
      let m = min n (pos_part (available_quantity l)) in
      grind (
        int_laws,
        loop-on_hand_of ls n s,
        loop-on_hand_of ls (n - m) (take_from_lot r l m s),
        take-AreStored r l m s ls d.0 st.1,
        take-on_hand_of l m s st.0 mine.0,
      )

  -- A call that succeeds takes what it was asked for from its product and nothing from any other.
  pub consume_stock-on_hand_of :
      (q : ℤ) (s : Stock) {c : List StockConsumeResult} {s' : Stock}
      → Distinct lot_pk s.lots
      → consume_stock r q s ≡ ok (c, s')
      → on_hand_of p s'.lots +ℤ pos (share r.product p (pos_part q)) ≡ on_hand_of p s.lots
  consume_stock-on_hand_of q s {c} {s'} d h =
      let (_, enough, done) = consume_ok r q s h in
      rw (← ap (λ t. t.1) done) (
        loop-on_hand_of (fefo_lots r.product s.lots) (pos_part q) s enough
          (fefo-Distinct r.product s d) (fefo-AreStored r.product s d)
          (fefo-AreOf r.product s.lots))
