-- ===== src/Stock/Consume/Correct.antt =====
-- What `consume_stock` promises (wms/domain/stock.py).
use asf_wms.Prelude.{
  ℕ, ◌-◌, ◌≤◌, ◌==◌, min, ◌≡◌, ◌≢◌, ◌↔◌, refl, ap, ◌∙◌, sym, ℤ, pos, pos_part, ◌+ℤ◌, ◌≤ℤ◌, some,
  List, [], ◌∷◌, ◌++◌, All, All-filter, filter, sum_by, arith, false, ◌&&◌, if◌then◌else◌, ok,
}
use asf_wms.Prelude.Table.{find, Fresh, Distinct, All-found, filter-Distinct, filter-Fresh_self}
use asf_wms.Prelude.OrderBy.{order_by, All-order_by, order_by-Distinct, sum-order_by}
use asf_wms.Stock.Model.{
  ProductLot, Stock, lot_pk, available_quantity, is_available, total_on_hand, Accounts,
}
use asf_wms.Stock.Consume.{
  ConsumeRequest, StockConsumeResult, fefo_key, fefo_lots, is_candidate, available_total,
  consume_loop, consume_stock,
}
use asf_wms.Stock.Consume.Loop.{
  AreStored, lowered, loop-find-Fresh, loop-sum, loop-total, loop-Accounts,
}
use asf_wms.Stock.Consume.Places.{IsSound, loop-place, loop-IsSound, loop-Distinct}

-- What may be taken of a product: the free part of each of its available lots, in table order.
abbrev pub free_of : ℕ → ProductLot → ℕ
free_of product l =
    if l.product == product && is_available l.status then pos_part (available_quantity l) else 0

abbrev pub free_stock : ℕ → List ProductLot → ℕ
free_stock product ls = sum_by (free_of product) ls

pub fefo-AreStored : (p : ℕ) (s : Stock) → Distinct lot_pk s.lots → AreStored s (fefo_lots p s.lots)
unfolding fefo_lots
fefo-AreStored p s d =
    All-order_by fefo_key (λ l. find lot_pk l.id s.lots ≡ some l) (filter (is_candidate p) s.lots)
      (All-filter (λ l. find lot_pk l.id s.lots ≡ some l) (is_candidate p) s.lots
        (All-found lot_pk s.lots d))

pub fefo-Distinct :
    (p : ℕ) (s : Stock) → Distinct lot_pk s.lots → Distinct lot_pk (fefo_lots p s.lots)
unfolding fefo_lots
fefo-Distinct p s d =
    order_by-Distinct fefo_key lot_pk (filter (is_candidate p) s.lots)
      (filter-Distinct lot_pk (is_candidate p) s.lots d)

candidates-free_stock :
    (p : ℕ) (ls : List ProductLot) → available_total (filter (is_candidate p) ls) ≡ free_stock p ls
candidates-free_stock p [] = refl
candidates-free_stock p (l ∷ ls) = ground (arith, candidates-free_stock p ls)

available_total-sum_by :
    (ls : List ProductLot) → available_total ls ≡ sum_by (λ l. pos_part (available_quantity l)) ls
available_total-sum_by [] = refl
available_total-sum_by (l ∷ ls) = omega (arith, available_total-sum_by ls)

pub fefo-free_stock :
    (p : ℕ) (ls : List ProductLot) → available_total (fefo_lots p ls) ≡ free_stock p ls
unfolding fefo_lots
fefo-free_stock p ls =
    available_total-sum_by (order_by fefo_key (filter (is_candidate p) ls))
    ∙ sum-order_by fefo_key (λ l. pos_part (available_quantity l)) (filter (is_candidate p) ls)
    ∙ sym (available_total-sum_by (filter (is_candidate p) ls))
    ∙ candidates-free_stock p ls

-- The result of a call that succeeds.
pub consume_ok :
    (r : ConsumeRequest) (q : ℤ) (s : Stock) {c : List StockConsumeResult} {s' : Stock}
    → consume_stock r q s ≡ ok (c, s')
    → (q ≡ pos (pos_part q))
      × (pos_part q ≤ available_total (fefo_lots r.product s.lots))
      × (consume_loop r (fefo_lots r.product s.lots) (pos_part q) s ≡ (c, s'))
unfolding consume_stock
consume_ok r q s h = ground arith

module _ (r : ConsumeRequest) (q : ℤ) (s : Stock) where
  -- From a table of lots with distinct keys, a call that succeeds lowers the physical stock by
  -- exactly the quantity asked for, the ledger accounts for it, and the quantities that it returns add
  -- up to it.
  pub consume_stock_conserves :
      {c : List StockConsumeResult} {s' : Stock}
      → Distinct lot_pk s.lots
      → consume_stock r q s ≡ ok (c, s')
      → (total_on_hand s'.lots +ℤ q ≡ total_on_hand s.lots)
        × Accounts s s'
        × (pos (sum_by (λ e. e.quantity) c) ≡ q)
  consume_stock_conserves {c} {s'} d h =
      let ls = fefo_lots r.product s.lots in
      let (e, enough, done) = consume_ok r q s h in
      rw e (
        rw (← ap (λ t. t.1) done, ← ap (λ t. t.0) done)
          (
            loop-total r ls (pos_part q) s enough (fefo-Distinct r.product s d)
                (fefo-AreStored r.product s d),
            loop-Accounts r ls (pos_part q) s (fefo-Distinct r.product s d)
                (fefo-AreStored r.product s d),
            ap pos (loop-sum r ls (pos_part q) s enough),
          ))

  -- A call succeeds exactly when it asks for at least one unit and for no more than the free stock
  -- of the product: what its available lots hold and have not reserved.
  pub consume_stock-ok_iff :
      ((t : List StockConsumeResult × Stock) × (consume_stock r q s ≡ ok t))
      ↔ ((pos 1 ≤ℤ q) × (q ≤ℤ pos (free_stock r.product s.lots)))
  unfolding consume_stock
  consume_stock-ok_iff = (
    λ (t, h). ground (arith, h, fefo-free_stock r.product s.lots),
    λ (least, most). (
      consume_loop r (fefo_lots r.product s.lots) (pos_part q) s,
      ground (arith, least, most, fefo-free_stock r.product s.lots),
    ),
  )

  -- First expired, first out: in the order of `fefo_lots`, each lot gives up what the lots before it
  -- leave to take, as far as it has it free, and nothing else of the lot changes.
  pub consume_stock_place :
      (before : List ProductLot) (l : ProductLot) (after : List ProductLot)
      {c : List StockConsumeResult} {s' : Stock}
      → Distinct lot_pk s.lots
      → consume_stock r q s ≡ ok (c, s')
      → fefo_lots r.product s.lots ≡ before ++ l ∷ after
      → find lot_pk l.id s'.lots
        ≡ some (
            lowered l (min (pos_part q - available_total before) (pos_part (available_quantity l))))
  consume_stock_place before l after d h e =
      let (_, _, done) = consume_ok r q s h in
      rw (← ap (λ t. t.1) done, e)
        (loop-place r before l after (pos_part q) s (rw e at (fefo-Distinct r.product s d))
          (rw e at (fefo-AreStored r.product s d)))

  -- If no lot has a negative quantity or more reserved than on hand before a call that succeeds,
  -- none has after it, and the keys stay distinct.
  pub consume_stock-IsSound :
      {c : List StockConsumeResult} {s' : Stock}
      → Distinct lot_pk s.lots
      → All IsSound s.lots
      → consume_stock r q s ≡ ok (c, s')
      → All IsSound s'.lots × Distinct lot_pk s'.lots
  consume_stock-IsSound d sound h =
      let ls = fefo_lots r.product s.lots in
      let (_, _, done) = consume_ok r q s h in
      rw (← ap (λ t. t.1) done) (
        loop-IsSound r ls (pos_part q) s (fefo-Distinct r.product s d)
            (fefo-AreStored r.product s d) sound,
        loop-Distinct r ls (pos_part q) s d,
      )

  fefo-Fresh :
      (j : ℕ) {row : ProductLot}
      → Distinct lot_pk s.lots
      → find lot_pk j s.lots ≡ some row
      → is_candidate r.product row ≡ false
      → Fresh lot_pk j (fefo_lots r.product s.lots)
  unfolding fefo_lots
  fefo-Fresh j d f out =
      All-order_by fefo_key (λ l. l.id ≢ j) (filter (is_candidate r.product) s.lots)
        (filter-Fresh_self lot_pk (is_candidate r.product) j s.lots d f out)

  -- A lot that `fefo_lots` does not offer (another product, not available, or nothing free) keeps
  -- its row.
  pub consume_stock_other_lots :
      (j : ℕ) {row : ProductLot} {c : List StockConsumeResult} {s' : Stock}
      → Distinct lot_pk s.lots
      → find lot_pk j s.lots ≡ some row
      → is_candidate r.product row ≡ false
      → consume_stock r q s ≡ ok (c, s')
      → find lot_pk j s'.lots ≡ some row
  consume_stock_other_lots j d f out h =
      let (_, _, done) = consume_ok r q s h in
      rw (← ap (λ t. t.1) done)
        (loop-find-Fresh r j (fefo_lots r.product s.lots) (pos_part q) s (fefo-Fresh j d f out) ∙ f)
