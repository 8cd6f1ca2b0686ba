-- ===== src/Examples/Receipts.antt =====
-- A reception, a correction and a move on the shelf (wms/domain/stock.py), and decimal forms.
use asf_wms.Prelude.{ℕ, ◌≡◌, refl, ℤ, pos, negsuc, ◌+ℤ◌, true, Option, none, some, [], ◌∷◌, ok, err}
use asf_wms.Prelude.Table.{find}
use asf_wms.Errors.{StockError}
use asf_wms.Stock.{
  Product, ProductLot, available, quarantined, incoming, adjust, Stock, StockMovement,
}
use asf_wms.Stock.Receive.{
  ReceiveRequest, ReceiptStatus, Receipt, ReceiptLine, Reception, line_pk, receive_stock,
  mark_received, close_receipt, receive_receipt_line, new_lot, receive_text,
}
use asf_wms.Stock.Receive.Laws.{receive_receipt_line_once}
use asf_wms.Stock.Adjust.{adjust_stock, write_adjustment, transfer_stock, write_transfer}
use asf_wms.Examples.Shelf.{a_lot, shelf}

abbrev gauze : Product
gauze = record {
  id = 7;
  quarantine_default = true;
  storage_conditions = [];
  default_location = some 40;
}

abbrev delivery : ReceiveRequest
delivery = record {
  user = some 1;
  quantity = pos 12;
  location = 40;
  lot_code = none;
  received_on = some 130;
  expires_on = some 900;
  status = none;
  storage_conditions = some [];
  source_receipt = some 60;
}

abbrev entry : StockMovement
entry = record {
  movement_type = incoming;
  product = 7;
  product_lot = 5;
  quantity = pos 12;
  from_location = none;
  to_location = some 40;
  reason_code = receive_text;
  reason_notes = [];
  related_carton = none;
  related_shipment = none;
  created_by = some 1;
}

abbrev delivered : Stock
delivered = record {
  lots = new_lot gauze delivery 5 ∷ shelf.lots;
  movements = entry ∷ [];
  next_lot = 6;
}

delivery_received : receive_stock gauze delivery shelf ≡ ok (new_lot gauze delivery 5, delivered)
unfolding receive_stock
delivery_received = refl

-- The new lot is in quarantine, so that nothing of it is free.
abbrev receipt : ReceiptStatus → Receipt
receipt status = record { id = 60; status = status; received_on = 130 }

abbrev line : ℕ → ℤ → Option ℕ → Option ℕ → Option ℕ → ReceiptLine
line id quantity lot user at = record {
  id = id;
  receipt = 60;
  product = gauze;
  quantity = quantity;
  lot_code = none;
  expires_on = some 900;
  lot_status = none;
  location = none;
  storage_conditions = none;
  received_lot = lot;
  received_by = user;
  received_at = at;
}

-- The second line is received already.
abbrev reception : Reception
reception = record {
  stock = shelf;
  receipts = receipt ReceiptStatus.draft ∷ [];
  lines = line 1 (pos 12) none none none ∷ line 2 (pos 4) (some 4) (some 1) (some 500) ∷ [];
}

abbrev reception_after : Reception
reception_after = record {
  stock = delivered;
  receipts = receipt ReceiptStatus.received ∷ [];
  lines =
      line 1 (pos 12) (some 5) (some 1) (some 510)
      ∷ line 2 (pos 4) (some 4) (some 1) (some 500)
      ∷ [];
}

line_received :
    receive_receipt_line
      (some 1)
      510
      (receipt ReceiptStatus.draft)
      (line 1 (pos 12) none none none)
      reception
    ≡ ok (new_lot gauze delivery 5, reception_after)
unfolding receive_receipt_line receive_stock mark_received close_receipt
line_received = refl

receive_receipt_line_once_example :
    (line' : ReceiptLine) × (find line_pk 1 reception_after.lines ≡ some line')
    × (line'.received_lot ≡ some 5)
    × (receive_receipt_line (some 1) 510 (receipt ReceiptStatus.draft) line' reception_after
        ≡ err StockError.line_already_received)
receive_receipt_line_once_example =
    receive_receipt_line_once (some 1) 510 (receipt ReceiptStatus.draft)
      (line 1 (pos 12) none none none) reception refl line_received

-- Three units of lot 2 are lost; its two reserved units stay covered.
abbrev corrected : Stock
corrected = record {
  lots =
      a_lot 1 available none 10 0
      ∷ a_lot 2 available (some 300) 2 2
      ∷ a_lot 3 available (some 200) 4 0
      ∷ a_lot 4 quarantined (some 150) 9 0
      ∷ [];
  movements =
      record {
        movement_type = adjust;
        product = 7;
        product_lot = 2;
        quantity = pos 3;
        from_location = some 40;
        to_location = none;
        reason_code = [];
        reason_notes = [];
        related_carton = none;
        related_shipment = none;
        created_by = none;
      }
      ∷ [];
  next_lot = 5;
}

three_lost :
    adjust_stock none (a_lot 2 available (some 300) 5 2) (negsuc 2) [] [] shelf
    ≡ ok (a_lot 2 available (some 300) 2 2, corrected)
unfolding adjust_stock write_adjustment ◌+ℤ◌
three_lost = refl

abbrev moved : ProductLot
moved = record (a_lot 1 available none 10 0) { location = 41 }

abbrev moved_shelf : Stock
moved_shelf = (write_transfer none (a_lot 1 available none 10 0) 41 shelf).1

lot_moved : transfer_stock none (a_lot 1 available none 10 0) 41 shelf ≡ ok (moved, moved_shelf)
unfolding transfer_stock write_transfer
lot_moved = refl
