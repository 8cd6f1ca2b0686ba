-- ===== src/Stock/Receive/Laws.antt =====
-- What a reception does to the stock and to its receipt (wms/domain/stock.py).
use asf_wms.Prelude.{
  ℕ, ◌≡◌, refl, ap, ◌∙◌, inl, inr, pos, pos_part, ◌+ℤ◌, int_laws, Option, some, ◌∷◌, arith,
  Bool-cases, ◌&&◌, not, if◌then◌else◌, ok, err,
}
use asf_wms.Prelude.Table.{find, update, Fresh, Distinct, find-update_self}
use asf_wms.Errors.{line_already_received}
use asf_wms.Stock.Model.{ProductLot, Product, Stock, lot_pk, is_available, total_on_hand, Accounts}
use asf_wms.Stock.Consume.Loop.{minus_zero}
use asf_wms.Stock.Consume.Correct.{free_stock}
use asf_wms.Stock.Receive.{
  ReceiveRequest, initial_status, new_lot, receive_stock, Receipt, ReceiptLine, Reception, draft,
  received, receipt_pk, line_pk, has_pending_line, is_draft, close_receipt, mark_received,
  receive_receipt_line,
}

module _ (product : Product) (r : ReceiveRequest) (s : Stock) where
  pub receive_ok :
      {lot : ProductLot} {s' : Stock}
      → receive_stock product r s ≡ ok (lot, s')
      → (r.quantity ≡ pos (pos_part r.quantity))
        × (lot ≡ new_lot product r s.next_lot)
        × (s'.lots ≡ new_lot product r s.next_lot ∷ s.lots)
        × Accounts s s'
  unfolding receive_stock
  receive_ok h = grind int_laws

  new_lot-free :
      r.quantity ≡ pos (pos_part r.quantity)
      → pos (free_stock product.id (new_lot product r s.next_lot ∷ s.lots))
        ≡ (if is_available (initial_status product r.status) then r.quantity else pos 0)
          +ℤ pos (free_stock product.id s.lots)
  new_lot-free e = grind (int_laws, minus_zero r.quantity)

  -- A reception that succeeds adds one lot with the quantity received, enters it in the ledger, and
  -- makes the quantity free for its product if the lot is available, and else nothing.
  pub receive_stock_adds :
      {lot : ProductLot} {s' : Stock}
      → receive_stock product r s ≡ ok (lot, s')
      → (find lot_pk lot.id s'.lots ≡ some lot)
        × (total_on_hand s'.lots ≡ r.quantity +ℤ total_on_hand s.lots)
        × Accounts s s'
        × (pos (free_stock product.id s'.lots)
            ≡ (if is_available (initial_status product r.status) then r.quantity else pos 0)
              +ℤ pos (free_stock product.id s.lots))
  receive_stock_adds h =
      let (e, el, es, acc) = receive_ok h in
      (rw (el, es) (ground arith), rw es refl, acc, rw es (new_lot-free e))

  pub receive_stock-Distinct :
      {lot : ProductLot} {s' : Stock}
      → Fresh lot_pk s.next_lot s.lots
      → Distinct lot_pk s.lots
      → receive_stock product r s ≡ ok (lot, s')
      → Distinct lot_pk s'.lots
  receive_stock-Distinct f d h = let (_, _, es, _) = receive_ok h in rw es (f, d)

module _ (user : Option ℕ) (now : ℕ) (receipt : Receipt) (line : ReceiptLine) (d : Reception) where
  marked : ProductLot → ReceiptLine → ReceiptLine
  marked lot l = record l { received_lot = some lot.id; received_by = user; received_at = some now }

  line_ok :
      {lot : ProductLot} {d' : Reception}
      → receive_receipt_line user now receipt line d ≡ ok (lot, d')
      → (d'.lines ≡ update line_pk line.id (marked lot) d.lines)
        × (d'.receipts ≡ (
            if is_draft receipt.status && not (has_pending_line receipt.id d'.lines)
            then update receipt_pk receipt.id (λ r. record r { status = received }) d.receipts
            else d.receipts))
  unfolding receive_receipt_line close_receipt mark_received marked
  line_ok h = ground arith

  -- The reception of a stored receipt line that succeeds marks the line with the new lot, so that a
  -- second reception of the line is refused.
  pub receive_receipt_line_once :
      {lot : ProductLot} {d' : Reception}
      → find line_pk line.id d.lines ≡ some line
      → receive_receipt_line user now receipt line d ≡ ok (lot, d')
      → (line' : ReceiptLine) × (find line_pk line.id d'.lines ≡ some line')
        × (line'.received_lot ≡ some lot.id)
        × (receive_receipt_line user now receipt line' d' ≡ err line_already_received)
  unfolding receive_receipt_line marked
  receive_receipt_line_once {lot} st h = (
    record line { received_lot = some lot.id; received_by = user; received_at = some now },
    rw ((line_ok h).0) (find-update_self line_pk line.id (marked lot) d.lines refl st),
    refl,
    refl,
  )

  -- A stored draft receipt is received after the reception of one of its lines exactly when no line of
  -- it is left without a lot; otherwise its row is as before.
  pub receive_receipt_line_closes :
      {lot : ProductLot} {d' : Reception}
      → receipt.status ≡ draft
      → find receipt_pk receipt.id d.receipts ≡ some receipt
      → receive_receipt_line user now receipt line d ≡ ok (lot, d')
      → find receipt_pk receipt.id d'.receipts
        ≡ some (record receipt {
          status = if has_pending_line receipt.id d'.lines then draft else received;
        })
  receive_receipt_line_closes {lot} {d'} dr st h =
      elim (Bool-cases (has_pending_line receipt.id d'.lines)) [
        | inl p ↦ rw ((line_ok h).1, dr, p) (st ∙ ap (λ v. some (record receipt { status = v })) dr)
        | inr p ↦
            rw ((line_ok h).1, dr, p)
              (find-update_self receipt_pk receipt.id (λ r. record r { status = received })
                d.receipts refl st)
      ]
