-- ===== src/Examples/Reserved.antt =====
-- Five reserved units packed into an empty carton (wms/domain/orders.py,
-- `pack_carton_from_reserved`).
use asf_wms.Prelude.{ℕ, ◌≡◌, refl, pos, ◌+ℤ◌, ◌-ℤ◌, false, none, some, List, [], ◌∷◌, ok}
use asf_wms.Prelude.OrderBy.{order_by}
use asf_wms.Text.{text_eq, starts_with}
use asf_wms.Stock.{ProductLot, StockMovement, available, quarantined, precondition}
use asf_wms.Rows.{Carton, CartonItem, CartonStatus, CartonStatusEvent, ShipmentStatus}
use asf_wms.Shipment.Status.{set_carton_status}
use asf_wms.Carton.Code.Ensure.{ensure_carton_code, linear_type, dated_code}
use asf_wms.Carton.Unpack.{sync_if_linked}
use asf_wms.Carton.Tables.{resolve_carton_dimensions}
use asf_wms.Carton.Items.{add_entry, add_entries}
use asf_wms.Carton.Prepare.{reuse_carton, size_carton, pick_carton, prepare_carton}
use asf_wms.Carton.Pack.{store_items, change_status, finish_packing}
use asf_wms.Order.{with_lots, line_reservations}
use asf_wms.Order.Release.{settle}
use asf_wms.Order.Consume.{draw_held, draw_loop, consume_reserved_stock}
use asf_wms.Order.Pack.{World, PackReserved, store_of, pack_carton_from_reserved}
use asf_wms.Order.Pack.Laws.{PacksReserved, pack_carton_from_reserved-Packs}
use asf_wms.Examples.Shelf.{a_lot}
use asf_wms.Examples.Shipments.{clock, a_shipment, a_carton, a_db}
use asf_wms.Examples.Orders.{line, reservation, reserved, holds-Distinct, holds-AreCurrent}

abbrev carton : CartonStatus → List CartonItem → Carton
carton status items = record (a_carton 51 status) {
  code = b'A' ∷ b'1' ∷ [];
  shipment = none;
  items = items;
}

abbrev world : World
world = record {
  tables = record {
    db = record (a_db (a_shipment [] ShipmentStatus.picking false none) CartonStatus.draft) {
      stock = reserved.stock;
      cartons = carton CartonStatus.draft [] ∷ [];
    };
    sequences = [];
    formats = [];
    products = [];
  };
  orders = reserved.orders;
  lines = reserved.lines;
  reservations = reserved.reservations;
  next_reservation = reserved.next_reservation;
}

abbrev request : PackReserved
request = record {
  user = some 1;
  line = line 9 0;
  carton = some (carton CartonStatus.draft []);
  shipment = none;
  current_location = none;
  carton_size = none;
  display_expires_on = none;
}

abbrev taken : ℕ → ℕ → StockMovement
taken lot n = record {
  movement_type = precondition;
  product = 7;
  product_lot = lot;
  quantity = pos n;
  from_location = some 40;
  to_location = none;
  reason_code = [];
  reason_notes = [];
  related_carton = some 51;
  related_shipment = none;
  created_by = some 1;
}

abbrev lots_left : List ProductLot
lots_left =
    a_lot 1 available none 8 0
    ∷ a_lot 2 available (some 300) 5 5
    ∷ a_lot 3 available (some 200) 1 1
    ∷ a_lot 4 quarantined (some 150) 9 0
    ∷ []

abbrev packed_carton : Carton
packed_carton = carton CartonStatus.picking (
    record { product_lot = 1; quantity = pos 2; display_expires_on = none }
    ∷ record { product_lot = 3; quantity = pos 3; display_expires_on = none }
    ∷ [])

abbrev started : CartonStatusEvent
started = record {
  carton = 51;
  previous_status = CartonStatus.draft;
  new_status = CartonStatus.picking;
  reason = "order_pack_start_picking";
  created_by = some 1;
}

abbrev packed : World
packed = record world {
  tables = record world.tables {
    db = record world.tables.db {
      stock = record { lots = lots_left; movements = taken 3 3 ∷ taken 1 2 ∷ []; next_lot = 5 };
      cartons = packed_carton ∷ [];
      status_events = started ∷ [];
    };
  };
  lines = line 4 5 ∷ [];
  reservations = reservation 2 2 3 ∷ reservation 1 3 1 ∷ [];
}

five_packed :
    pack_carton_from_reserved (λ t. t) clock [] false request (pos 5) world
    ≡ ok (packed_carton, packed)
unfolding pack_carton_from_reserved prepare_carton pick_carton reuse_carton size_carton
    resolve_carton_dimensions consume_reserved_stock draw_loop draw_held settle line_reservations
    with_lots order_by store_items add_entries add_entry finish_packing change_status
    set_carton_status sync_if_linked ensure_carton_code linear_type dated_code starts_with text_eq
    ◌+ℤ◌ ◌-ℤ◌
five_packed = refl

pack_carton_from_reserved-Packs_example :
    PacksReserved (pos 5) (pos 0) (store_of world) packed_carton (store_of packed)
pack_carton_from_reserved-Packs_example =
    pack_carton_from_reserved-Packs (λ t. t) clock [] false request (pos 5) world holds-Distinct
      holds-AreCurrent five_packed
