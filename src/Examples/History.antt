-- ===== src/Examples/History.antt =====
-- A reception and a reservation from an empty store (wms/domain/stock.py and wms/domain/orders.py).
use asf_wms.Prelude.OrderBy.{order_by}
use asf_wms.Prelude.{◌≡◌, refl, pos, ◌+ℤ◌, ◌-ℤ◌, false, none, some, List, [], ◌∷◌, ok}
use asf_wms.Stock.{Product, ProductLot, Stock, incoming, outgoing}
use asf_wms.Stock.Receive.{ReceiveRequest, new_lot, receive_text, receive_stock}
use asf_wms.Stock.Consume.{ConsumeRequest, fefo_lots, take_from_lot, consume_loop, consume_stock}
use asf_wms.Order.{Order, OrderLine, OrderStatus, Store}
use asf_wms.Order.Reserve.{
  reserve_lot, reserve_loop, reserve_line, reserve_lines, reserve_stock_for_order,
}
use asf_wms.Order.History.{◌⟶*◌, here, then, receive, consume, reserve, with_stock}
use asf_wms.Order.History.Consistent.{IsConsistent, empty-IsConsistent, reached-IsConsistent}
use asf_wms.Order.History.Totals.{Totals, Change, gain, hold, lose, replay, AllowsAll, runs-replay}

abbrev soap : Product
soap = record {
  id = 8;
  quarantine_default = false;
  storage_conditions = [];
  default_location = none;
}

abbrev delivery : ReceiveRequest
delivery = record {
  user = some 1;
  quantity = pos 12;
  location = 40;
  lot_code = none;
  received_on = some 130;
  expires_on = none;
  status = none;
  storage_conditions = none;
  source_receipt = none;
}

abbrev order : Order
order = record { id = 20; status = OrderStatus.draft }

abbrev line : OrderLine
line = record {
  id = 21;
  order = 20;
  product = 8;
  quantity = 5;
  reserved_quantity = 0;
  prepared_quantity = 0;
}

abbrev opening : Store
opening = record {
  stock = record { lots = []; movements = []; next_lot = 1 };
  orders = order ∷ [];
  lines = line ∷ [];
  reservations = [];
  next_reservation = 1;
}

abbrev lot : ProductLot
lot = new_lot soap delivery 1

abbrev stocked : Stock
stocked = record {
  lots = lot ∷ [];
  movements =
      record {
        movement_type = incoming;
        product = 8;
        product_lot = 1;
        quantity = pos 12;
        from_location = none;
        to_location = some 40;
        reason_code = receive_text;
        reason_notes = [];
        related_carton = none;
        related_shipment = none;
        created_by = some 1;
      }
      ∷ [];
  next_lot = 2;
}

received : receive_stock soap delivery opening.stock ≡ ok (lot, stocked)
unfolding receive_stock
received = refl

abbrev booked : Store
booked = record opening {
  stock = record stocked { lots = record lot { quantity_reserved = pos 5 } ∷ [] };
  orders = record order { status = OrderStatus.reserved } ∷ [];
  lines = record line { reserved_quantity = 5 } ∷ [];
  reservations = record { id = 1; order_line = 21; product_lot = 1; quantity = 5 } ∷ [];
  next_reservation = 2;
}

five_booked : reserve_stock_for_order order (with_stock opening stocked) ≡ ok booked
unfolding reserve_stock_for_order reserve_lines reserve_line reserve_loop reserve_lot fefo_lots
    order_by ◌+ℤ◌ ◌-ℤ◌
five_booked = refl

abbrev request : ConsumeRequest
request = record {
  user = some 1;
  product = 8;
  movement_type = outgoing;
  shipment = none;
  carton = none;
  reason_code = [];
  reason_notes = [];
}

abbrev rest : ProductLot
rest = record lot { quantity_on_hand = pos 9; quantity_reserved = pos 5 }

abbrev used : Stock
used = record booked.stock {
  lots = rest ∷ [];
  movements =
      record {
        movement_type = outgoing;
        product = 8;
        product_lot = 1;
        quantity = pos 3;
        from_location = some 40;
        to_location = none;
        reason_code = [];
        reason_notes = [];
        related_carton = none;
        related_shipment = none;
        created_by = some 1;
      }
      ∷ stocked.movements;
}

three_used :
    consume_stock request (pos 3) booked.stock ≡ ok (record { lot = rest; quantity = 3 } ∷ [], used)
unfolding consume_stock consume_loop take_from_lot fefo_lots order_by ◌-ℤ◌
three_used = refl

abbrev steps : opening ⟶* with_stock booked used
steps = then (receive soap delivery opening lot stocked received) (
    then (reserve order (with_stock opening stocked) booked five_booked) (
      then
        (consume request (pos 3) booked (record { lot = rest; quantity = 3 } ∷ []) used three_used)
        here))

reached-IsConsistent_example : IsConsistent (with_stock booked used)
reached-IsConsistent_example =
    reached-IsConsistent opening (with_stock booked used) refl refl refl steps

abbrev changes : List Change
changes = gain 12 ∷ hold 5 ∷ lose 3 ∷ []

abbrev nothing : Totals
nothing = record { on_hand = pos 0; reserved = pos 0 }

runs-replay_example :
    (record { on_hand = pos 9; reserved = pos 5 } ≡ replay changes nothing)
    × AllowsAll nothing changes
unfolding ◌+ℤ◌ ◌-ℤ◌
runs-replay_example =
    runs-replay opening (with_stock booked used) steps (empty-IsConsistent opening refl refl refl)
