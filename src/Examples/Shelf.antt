-- ===== src/Examples/Shelf.antt =====
-- A shelf of four lots, for the operations on the stock (wms/domain/stock.py).
use asf_wms.Prelude.{
  ℕ, ◌≡◌, ◌≢◌, inl, ◌↔◌, refl, pos, ◌+ℤ◌, ◌-ℤ◌, ◌≤ℤ◌, Option, none, some, List, [], ◌∷◌, sum_by,
  All, ok, err, arith,
}
use asf_wms.Prelude.Table.{find, Distinct}
use asf_wms.Prelude.OrderBy.{order_by}
use asf_wms.Errors.{StockError}
use asf_wms.Stock.{
  ProductLot, ProductLotStatus, available, quarantined, outgoing, Stock, StockMovement, lot_pk,
  total_on_hand, Accounts,
}
use asf_wms.Stock.Consume.{
  ConsumeRequest, StockConsumeResult, fefo_lots, consume_loop, take_from_lot, consume_stock,
}
use asf_wms.Stock.Consume.Places.{IsSound}
use asf_wms.Stock.Consume.Correct.{consume_stock_conserves, consume_stock-ok_iff}
use asf_wms.Stock.Consume.First.{consume_stock_first_expired}

abbrev pub a_lot : ℕ → ProductLotStatus → Option ℕ → ℕ → ℕ → ProductLot
a_lot id status expires_on quantity reserved = record {
  id = id;
  product = 7;
  lot_code = [];
  expires_on = expires_on;
  received_on = some 100;
  status = status;
  quantity_on_hand = pos quantity;
  quantity_reserved = pos reserved;
  location = 40;
  source_receipt = none;
  storage_conditions = [];
}

-- Lot 1 has no expiry, lot 2 expires after lot 3, and lot 4 is in quarantine.
abbrev pub shelf : Stock
shelf = record {
  lots =
      a_lot 1 available none 10 0
      ∷ a_lot 2 available (some 300) 5 2
      ∷ a_lot 3 available (some 200) 4 0
      ∷ a_lot 4 quarantined (some 150) 9 0
      ∷ [];
  movements = [];
  next_lot = 5;
}

abbrev request : ConsumeRequest
request = record {
  user = some 1;
  product = 7;
  movement_type = outgoing;
  shipment = none;
  carton = none;
  reason_code = [];
  reason_notes = [];
}

abbrev used : ℕ → ProductLot → StockConsumeResult
used n l = record { lot = l; quantity = n }

-- Nine units: all of lot 3, the free three of lot 2, two of lot 1.
abbrev taken : List StockConsumeResult
taken =
    used 4 (a_lot 3 available (some 200) 0 0)
    ∷ used 3 (a_lot 2 available (some 300) 2 2)
    ∷ used 2 (a_lot 1 available none 8 0)
    ∷ []

abbrev lots_left : List ProductLot
lots_left =
    a_lot 1 available none 8 0
    ∷ a_lot 2 available (some 300) 2 2
    ∷ a_lot 3 available (some 200) 0 0
    ∷ a_lot 4 quarantined (some 150) 9 0
    ∷ []

abbrev out_of : ℕ → ℕ → StockMovement
out_of id n = record {
  movement_type = outgoing;
  product = 7;
  product_lot = id;
  quantity = pos n;
  from_location = some 40;
  to_location = none;
  reason_code = [];
  reason_notes = [];
  related_carton = none;
  related_shipment = none;
  created_by = some 1;
}

abbrev shelf_left : Stock
shelf_left = record {
  lots = lots_left;
  movements = out_of 1 2 ∷ out_of 2 3 ∷ out_of 3 4 ∷ [];
  next_lot = 5;
}

nine_units : consume_stock request (pos 9) shelf ≡ ok (taken, shelf_left)
unfolding consume_stock consume_loop take_from_lot fefo_lots order_by ◌-ℤ◌
nine_units = refl

too_many : consume_stock request (pos 18) shelf ≡ err (StockError.insufficient_stock 17)
unfolding consume_stock fefo_lots order_by ◌-ℤ◌
too_many = refl

pub shelf-Distinct : Distinct lot_pk shelf.lots
shelf-Distinct = ground arith

pub shelf-IsSound : All IsSound shelf.lots
shelf-IsSound = ground arith

lot_1_changed : find lot_pk 1 lots_left ≢ some (a_lot 1 available none 10 0)
lot_1_changed h = cc

consume_stock_conserves_example :
    (total_on_hand lots_left +ℤ pos 9 ≡ total_on_hand shelf.lots)
    × Accounts shelf shelf_left
    × (pos (sum_by (λ e. e.quantity) taken) ≡ pos 9)
consume_stock_conserves_example =
    consume_stock_conserves request (pos 9) shelf shelf-Distinct nine_units

consume_stock-ok_iff_example :
    ((t : List StockConsumeResult × Stock) × (consume_stock request (pos 18) shelf ≡ ok t))
    ↔ ((pos 1 ≤ℤ pos 18) × (pos 18 ≤ℤ pos 17))
unfolding ◌-ℤ◌
consume_stock-ok_iff_example = consume_stock-ok_iff request (pos 18) shelf

consume_stock_first_expired_example :
    find lot_pk 2 lots_left ≡ some (a_lot 2 available (some 300) 2 2)
unfolding ◌-ℤ◌
consume_stock_first_expired_example =
    consume_stock_first_expired request (pos 9) shelf {a = a_lot 2 available (some 300) 5 2}
      {b = a_lot 1 available none 10 0} shelf-Distinct nine_units refl refl refl refl (inl tt)
      lot_1_changed
