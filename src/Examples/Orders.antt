-- ===== src/Examples/Orders.antt =====
-- An order of nine units of one product, on the shelf (wms/domain/orders.py).
use asf_wms.Prelude.{
  All, ℕ, ◌+◌, ◌≡◌, refl, pos, ◌+ℤ◌, ◌-ℤ◌, none, some, List, [], ◌∷◌, sum_by, ok, arith,
}
use asf_wms.Prelude.Table.{find, Distinct}
use asf_wms.Prelude.OrderBy.{order_by}
use asf_wms.Stock.{reserved_of, available, quarantined, outgoing, StockMovement, lot_pk}
use asf_wms.Stock.Consume.{StockConsumeResult, fefo_lots}
use asf_wms.Order.Reserve.Entries.{Enters}
use asf_wms.Order.Reserve.Fulfilled.{fulfilled}
use asf_wms.Order.{
  line_pk, order_pk, Order, OrderLine, OrderStatus, OrderReservation, Store, Held, with_lots,
  line_reservations,
}
use asf_wms.Order.Reserve.{
  reserve_lot, reserve_loop, reserve_line, reserve_lines, reserve_stock_for_order,
}
use asf_wms.Order.Reserve.Loop.{Reserves}
use asf_wms.Order.Reserve.Products.{reserve_stock_for_order_by_product}
use asf_wms.Order.Release.{settle, release_held, release_loop, release_reserved_stock}
use asf_wms.Order.Release.Laws.{
  Releases, IsOpen, held_lot_key, held_reservation_key, release_reserved_stock-Releases,
}
use asf_wms.Order.Consume.{ConsumeReserved, drawn, draw_held, draw_loop, consume_reserved_stock}
use asf_wms.Order.Consume.Loop.{Draws, AreCurrent, held_lot, consume_reserved_stock-Draws}
use asf_wms.Order.Consume.Stale.{consume_reserved_stock-stale}
use asf_wms.Examples.Shelf.{a_lot, shelf, shelf-IsSound, shelf-Distinct}

abbrev pub order : OrderStatus → Order
order status = record { id = 20; status = status }

abbrev pub line : ℕ → ℕ → OrderLine
line reserved prepared = record {
  id = 21;
  order = 20;
  product = 7;
  quantity = 9;
  reserved_quantity = reserved;
  prepared_quantity = prepared;
}

abbrev pub reservation : ℕ → ℕ → ℕ → OrderReservation
reservation id lot n = record { id = id; order_line = 21; product_lot = lot; quantity = n }

abbrev ordered : Store
ordered = record {
  stock = shelf;
  orders = order OrderStatus.draft ∷ [];
  lines = line 0 0 ∷ [];
  reservations = [];
  next_reservation = 1;
}

abbrev pub reserved : Store
reserved = record {
  stock = record shelf {
    lots =
        a_lot 1 available none 10 2
        ∷ a_lot 2 available (some 300) 5 5
        ∷ a_lot 3 available (some 200) 4 4
        ∷ a_lot 4 quarantined (some 150) 9 0
        ∷ [];
  };
  orders = order OrderStatus.reserved ∷ [];
  lines = line 9 0 ∷ [];
  reservations = reservation 3 1 2 ∷ reservation 2 2 3 ∷ reservation 1 3 4 ∷ [];
  next_reservation = 4;
}

nine_reserved : reserve_stock_for_order (order OrderStatus.draft) ordered ≡ ok reserved
unfolding reserve_stock_for_order reserve_lines reserve_line reserve_loop reserve_lot fefo_lots
    order_by ◌+ℤ◌ ◌-ℤ◌
nine_reserved = refl

ordered-Distinct : Distinct line_pk ordered.lines
ordered-Distinct = ground arith

reserve_stock_for_order_by_product_example :
    (reserved_of 7 reserved.stock.lots ≡ reserved_of 7 ordered.stock.lots +ℤ pos 9)
    × Reserves 9 ordered reserved
    × Enters 2 21 9 ordered reserved
    × All (λ l. find line_pk l.id reserved.lines ≡ some (fulfilled l)) (line 0 0 ∷ [])
    × (find order_pk 20 reserved.orders ≡ some (order OrderStatus.reserved))
reserve_stock_for_order_by_product_example =
    reserve_stock_for_order_by_product (order OrderStatus.draft) ordered 7 2 21 shelf-Distinct
      shelf-IsSound ordered-Distinct refl nine_reserved

abbrev call : ConsumeReserved
call = record {
  user = some 1;
  line = line 9 0;
  movement_type = outgoing;
  shipment = none;
  carton = some 70;
}

abbrev held_2 : Held
held_2 = record { reservation = reservation 2 2 3; lot = a_lot 2 available (some 300) 5 5 }

abbrev held_3 : Held
held_3 = record { reservation = reservation 1 3 4; lot = a_lot 3 available (some 200) 4 4 }

abbrev held_1 : Held
held_1 = record { reservation = reservation 3 1 2; lot = a_lot 1 available none 10 2 }

-- The lot without an expiry comes first here.
in_order : line_reservations (line 9 0) reserved ≡ held_1 ∷ held_3 ∷ held_2 ∷ []
unfolding line_reservations with_lots order_by
in_order = refl

abbrev five_drawn : List StockConsumeResult
five_drawn =
    record { lot = a_lot 1 available none 8 0; quantity = 2 }
    ∷ record { lot = a_lot 3 available (some 200) 1 1; quantity = 3 }
    ∷ []

abbrev out_of : ℕ → ℕ → StockMovement
out_of id n = record {
  movement_type = outgoing;
  product = 7;
  product_lot = id;
  quantity = pos n;
  from_location = some 40;
  to_location = none;
  reason_code = [];
  reason_notes = [];
  related_carton = some 70;
  related_shipment = none;
  created_by = some 1;
}

abbrev after : Store
after = record {
  stock = record {
    lots =
        a_lot 1 available none 8 0
        ∷ a_lot 2 available (some 300) 5 5
        ∷ a_lot 3 available (some 200) 1 1
        ∷ a_lot 4 quarantined (some 150) 9 0
        ∷ [];
    movements = out_of 3 3 ∷ out_of 1 2 ∷ [];
    next_lot = 5;
  };
  orders = order OrderStatus.reserved ∷ [];
  lines = line 4 5 ∷ [];
  reservations = reservation 2 2 3 ∷ reservation 1 3 1 ∷ [];
  next_reservation = 4;
}

five_consumed : consume_reserved_stock call (pos 5) reserved ≡ ok (five_drawn, after)
unfolding consume_reserved_stock draw_loop draw_held settle line_reservations with_lots order_by
    ◌-ℤ◌
five_consumed = refl

pub holds-Distinct : Distinct held_lot (line_reservations (line 9 0) reserved)
holds-Distinct = rw in_order (ground arith)

pub holds-AreCurrent : AreCurrent reserved (line_reservations (line 9 0) reserved)
holds-AreCurrent = rw in_order (ground arith)

consume_reserved_stock-Draws_example :
    Draws 5 reserved after × (pos (sum_by (λ e. e.quantity) five_drawn) ≡ pos 5)
consume_reserved_stock-Draws_example =
    consume_reserved_stock-Draws call (pos 5) reserved holds-Distinct holds-AreCurrent five_consumed

-- A line with two reservations of lot 3.
abbrev first_half : Held
first_half = record { reservation = reservation 1 3 1; lot = a_lot 3 available (some 200) 4 4 }

abbrev second_half : Held
second_half = record { reservation = reservation 2 3 3; lot = a_lot 3 available (some 200) 4 4 }

abbrev twice_reserved : Store
twice_reserved = record {
  stock = record { lots = a_lot 3 available (some 200) 4 4 ∷ []; movements = []; next_lot = 5 };
  orders = order OrderStatus.reserved ∷ [];
  lines = line 9 0 ∷ [];
  reservations = reservation 2 3 3 ∷ reservation 1 3 1 ∷ [];
  next_reservation = 3;
}

two_held : line_reservations (line 9 0) twice_reserved ≡ second_half ∷ first_half ∷ []
unfolding line_reservations with_lots order_by
two_held = refl

abbrev four_drawn : List StockConsumeResult
four_drawn =
    record { lot = a_lot 3 available (some 200) 1 1; quantity = 3 }
    ∷ record { lot = a_lot 3 available (some 200) 3 3; quantity = 1 }
    ∷ []

abbrev after_twice : Store
after_twice = record {
  stock = record {
    lots = a_lot 3 available (some 200) 3 3 ∷ [];
    movements = out_of 3 1 ∷ out_of 3 3 ∷ [];
    next_lot = 5;
  };
  orders = order OrderStatus.reserved ∷ [];
  lines = line 5 4 ∷ [];
  reservations = [];
  next_reservation = 3;
}

four_consumed : consume_reserved_stock call (pos 4) twice_reserved ≡ ok (four_drawn, after_twice)
unfolding consume_reserved_stock draw_loop draw_held settle line_reservations with_lots order_by
    ◌-ℤ◌
four_consumed = refl

-- Four units leave, and three of them stay on hand.
consume_reserved_stock-stale_example :
    (sum_by (λ (e : StockConsumeResult). e.quantity) four_drawn ≡ 3 + 1)
    × (find lot_pk 3 after_twice.stock.lots ≡ some (drawn (a_lot 3 available (some 200) 4 4) 1))
consume_reserved_stock-stale_example =
    consume_reserved_stock-stale call twice_reserved second_half first_half two_held refl refl
      (omega arith) (omega arith) four_consumed

-- The release of three units: two of lot 1, one of lot 3.
abbrev released : Store
released = record reserved {
  stock = record shelf {
    lots =
        a_lot 1 available none 10 0
        ∷ a_lot 2 available (some 300) 5 5
        ∷ a_lot 3 available (some 200) 4 3
        ∷ a_lot 4 quarantined (some 150) 9 0
        ∷ [];
  };
  lines = line 6 0 ∷ [];
  reservations = reservation 2 2 3 ∷ reservation 1 3 3 ∷ [];
}

three_released : release_reserved_stock (line 9 0) 3 reserved ≡ ok released
unfolding release_reserved_stock release_loop release_held settle line_reservations with_lots
    order_by ◌-ℤ◌
three_released = refl

holds-IsOpen : All (IsOpen reserved) (line_reservations (line 9 0) reserved)
holds-IsOpen = rw in_order (ground arith)

lot_keys-Distinct : Distinct held_lot_key (line_reservations (line 9 0) reserved)
lot_keys-Distinct = rw in_order (ground arith)

reservation_keys-Distinct : Distinct held_reservation_key (line_reservations (line 9 0) reserved)
reservation_keys-Distinct = rw in_order (ground arith)

release_reserved_stock-Releases_example : Releases 3 reserved released
release_reserved_stock-Releases_example =
    release_reserved_stock-Releases (line 9 0) 3 reserved lot_keys-Distinct
      reservation_keys-Distinct holds-IsOpen three_released
