-- ===== src/Order/History/Kept.antt =====
-- What the operations on the stock leave as it is: keys that are not in use, and what is reserved.
use asf_wms.Prelude.{
  ℕ, ◌-◌, ◌==◌, min, ◌≡◌, refl, ◌∙◌, inl, inr, ℤ, pos_part, ◌+ℤ◌, Option, List, [], ◌∷◌, arith,
  Bool-cases, ok, filter,
}
use asf_wms.Prelude.Table.{update, Fresh, update-Fresh}
use asf_wms.Prelude.Results.{>>=-eq-ok, raise_if}
use asf_wms.Errors.{order_locked}
use asf_wms.Stock.{Text, ProductLot, Stock, lot_pk, available_quantity}
use asf_wms.Stock.Adjust.{adjust_stock, write_adjustment, transfer_stock, write_transfer}
use asf_wms.Stock.Consume.{
  ConsumeRequest, StockConsumeResult, take_from_lot, consume_loop, fefo_lots, consume_stock,
}
use asf_wms.Order.Model.{Order, OrderLine, Store, lots_reserved}
use asf_wms.Order.Reserve.{
  reserve_lot, reserve_loop, reserve_line, reserve_lines, is_final, closed, reserve_stock_for_order,
}

-- The operation creates no lot: the next key is the same, and a key that no lot has stays unused.
pub record KeepsKeys (s s' : Stock) : Type 0 where
  pub next : s'.next_lot ≡ s.next_lot
  pub unused : (k : ℕ) → Fresh lot_pk k s.lots → Fresh lot_pk k s'.lots

KeepsKeys-refl : (s : Stock) → KeepsKeys s s
KeepsKeys-refl s = record { next = refl; unused = λ k h. h }

KeepsKeys-trans : (s t u : Stock) → KeepsKeys s t → KeepsKeys t u → KeepsKeys s u
KeepsKeys-trans s t u h g = record {
  next = g.next ∙ h.next;
  unused = λ k f. g.unused k (h.unused k f);
}

-- A write to a row that leaves what is reserved.
lots_reserved-kept :
    (k : ℕ) (f : ProductLot → ProductLot) (ls : List ProductLot)
    → ((l : ProductLot) → (f l).quantity_reserved ≡ l.quantity_reserved)
    → lots_reserved (update lot_pk k f ls) ≡ lots_reserved ls
lots_reserved-kept k f [] h = refl
lots_reserved-kept k f (l ∷ ls) h = elim (Bool-cases (l.id == k)) [
  | inl same ↦ rw (same, h l) refl
  | inr other ↦ rw (other, lots_reserved-kept k f ls h) refl
]

consume_loop-kept :
    (r : ConsumeRequest) (ls : List ProductLot) (n : ℕ) (s : Stock)
    → let s' = (consume_loop r ls n s).1 in
      KeepsKeys s s' × (lots_reserved s'.lots ≡ lots_reserved s.lots)
unfolding consume_loop take_from_lot
consume_loop-kept r [] n s = (KeepsKeys-refl s, refl)
consume_loop-kept r (l ∷ ls) n s =
    let m = min n (pos_part (available_quantity l)) in
    let t = take_from_lot r l m s in
    elim (Bool-cases (n == 0)) [
      | inl done ↦ rw done (KeepsKeys-refl s, refl)
      | inr more ↦ elim (Bool-cases (m == 0)) [
        | inl nothing ↦ rw (more, nothing) (consume_loop-kept r ls n s)
        | inr taken ↦
            let (keys, kept) = consume_loop-kept r ls (n - m) t in
            let first : KeepsKeys s t = record {
              next = refl;
              unused = λ k f. update-Fresh lot_pk k l.id _ s.lots (λ _. refl) f;
            } in
            rw (more, taken)
              (
                KeepsKeys-trans s t (consume_loop r ls (n - m) t).1 first keys,
                kept ∙ lots_reserved-kept l.id _ s.lots (λ _. refl),
              )
      ]
    ]

pub consume_stock-kept :
    (r : ConsumeRequest) (q : ℤ) (s : Stock) {c : List StockConsumeResult} {s' : Stock}
    → consume_stock r q s ≡ ok (c, s')
    → KeepsKeys s s' × (lots_reserved s'.lots ≡ lots_reserved s.lots)
unfolding consume_stock
consume_stock-kept r q s {c} {s'} h =
    let out = consume_loop r (fefo_lots r.product s.lots) (pos_part q) s in
    let same : out.1 ≡ s' = ground arith in
    rw (← same) (consume_loop-kept r (fefo_lots r.product s.lots) (pos_part q) s)

-- The write of a function to one row, that keeps its key and what it has reserved.
written-kept :
    (k : ℕ) (f : ProductLot → ProductLot) (s s' : Stock)
    → ((l : ProductLot) → ((f l).id ≡ l.id) × ((f l).quantity_reserved ≡ l.quantity_reserved))
    → s'.lots ≡ update lot_pk k f s.lots
    → s'.next_lot ≡ s.next_lot
    → KeepsKeys s s' × (lots_reserved s'.lots ≡ lots_reserved s.lots)
written-kept k f s s' h lots next = (
  record {
    next = next;
    unused = λ j fresh. rw lots (update-Fresh lot_pk j k f s.lots (λ l. (h l).0) fresh);
  },
  rw lots (lots_reserved-kept k f s.lots (λ l. (h l).1)),
)

pub adjust_stock-kept :
    (user : Option ℕ) (lot : ProductLot) (delta : ℤ) (code notes : Text) (s : Stock)
    {lot' : ProductLot} {s' : Stock}
    → adjust_stock user lot delta code notes s ≡ ok (lot', s')
    → KeepsKeys s s' × (lots_reserved s'.lots ≡ lots_reserved s.lots)
unfolding adjust_stock write_adjustment
adjust_stock-kept user lot delta code notes s {lot'} {s'} h =
    written-kept lot.id (λ row. record row { quantity_on_hand = lot.quantity_on_hand +ℤ delta }) s
      s' (λ _. (refl, refl)) (ground arith) (ground arith)

pub transfer_stock-kept :
    (user : Option ℕ) (lot : ProductLot) (place : ℕ) (s : Stock) {lot' : ProductLot} {s' : Stock}
    → transfer_stock user lot place s ≡ ok (lot', s')
    → KeepsKeys s s' × (lots_reserved s'.lots ≡ lots_reserved s.lots)
unfolding transfer_stock write_transfer
transfer_stock-kept user lot place s {lot'} {s'} h =
    written-kept lot.id (λ row. record row { location = place }) s s' (λ _. (refl, refl))
      (ground arith) (ground arith)

-- The reservation of an order moves nothing.
abbrev Rests : Store → Store → Type 0
Rests s s' = KeepsKeys s.stock s'.stock × (s'.stock.movements ≡ s.stock.movements)

Rests-trans : (s t u : Store) → Rests s t → Rests t u → Rests s u
Rests-trans s t u h g = (KeepsKeys-trans s.stock t.stock u.stock h.0 g.0, g.1 ∙ h.1)

module _ (line : OrderLine) where
  reserve_loop-Rests :
      (ls : List ProductLot) (n : ℕ) (s : Store) → Rests s (reserve_loop line ls n s)
  unfolding reserve_loop reserve_lot
  reserve_loop-Rests [] n s = (KeepsKeys-refl s.stock, refl)
  reserve_loop-Rests (l ∷ ls) n s =
      let available = pos_part (available_quantity l) in
      let m = min n available in
      let t = reserve_lot line l m s in
      elim (Bool-cases (n == 0)) [
        | inl done ↦ rw done (KeepsKeys-refl s.stock, refl)
        | inr more ↦ elim (Bool-cases (available == 0)) [
          | inl nothing ↦ rw (more, nothing) (reserve_loop-Rests ls n s)
          | inr taken ↦
              let first : KeepsKeys s.stock t.stock = record {
                next = refl;
                unused = λ k f. update-Fresh lot_pk k l.id _ s.stock.lots (λ _. refl) f;
              } in
              rw (more, taken)
                (Rests-trans s t (reserve_loop line ls (n - m) t) (first, refl)
                  (reserve_loop-Rests ls (n - m) t))
        ]
      ]

reserve_line-Rests :
    (line : OrderLine) (s : Store) {s' : Store} → reserve_line line s ≡ ok s' → Rests s s'
unfolding reserve_line
reserve_line-Rests line s {s'} h =
    let needed = line.quantity - line.reserved_quantity in
    let out = reserve_loop line (fefo_lots line.product s.stock.lots) needed s in
    elim (Bool-cases (needed == 0)) [
      | inl none_needed ↦
          let same : s ≡ s' = ground arith in rw (← same) (KeepsKeys-refl s.stock, refl)
      | inr some_needed ↦
          let same : out.stock ≡ s'.stock = ground arith in
          rw (← same) (reserve_loop-Rests line (fefo_lots line.product s.stock.lots) needed s)
    ]

reserve_lines-Rests :
    (lines : List OrderLine) (s : Store) {s' : Store} → reserve_lines lines s ≡ ok s' → Rests s s'
unfolding reserve_lines
reserve_lines-Rests [] s {s'} h =
    let same : s ≡ s' = cc in rw (← same) (KeepsKeys-refl s.stock, refl)
reserve_lines-Rests (l ∷ ls) s {s'} h =
    let (t, first, rest) = >>=-eq-ok (reserve_line l s) (reserve_lines ls) h in
    Rests-trans s t s' (reserve_line-Rests l s first) (reserve_lines-Rests ls t rest)

pub reserve_stock_for_order-Rests :
    (o : Order) (s : Store) {s' : Store}
    → reserve_stock_for_order o s ≡ ok s'
    → KeepsKeys s.stock s'.stock × (s'.stock.movements ≡ s.stock.movements)
unfolding reserve_stock_for_order
reserve_stock_for_order-Rests o s {s'} h =
    let lines = filter (λ (l : OrderLine). l.order == o.id) s.lines in
    let (_, _, h1) = >>=-eq-ok (raise_if (is_final o.status) order_locked) _ h in
    let (t, booked, h2) = >>=-eq-ok (reserve_lines lines s) _ h1 in
    let done : closed o t ≡ s' = cc in rw (← done) (reserve_lines-Rests lines s booked)
